-- ===== src/Flow/Completes.antt =====
-- An order followed from its first event to its end.
use workers_kafka.Flow.Ends.{Ended, rounds-Ended}
use workers_kafka.Prelude.{
  ℕ, suc, ◌+◌, ◌*◌, ◌≤◌, ◌≡◌, refl, sym, subst, none, false, arith, String, List, Option,
}
use workers_kafka.Domain.{Event, order_created, payment_pending}
use workers_kafka.Store.{WriteDb, find_saga, has_event}
use workers_kafka.Topics.{topic_for_event_type, topic_order_created}
use workers_kafka.Tx.{World}
use workers_kafka.Tx.Steady.{calm}
use workers_kafka.Tx.Live.{live}
use workers_kafka.Orchestrator.{component, entry_of, new_saga}
use workers_kafka.Orchestrator.Spec.{wrote, effect, begun, first_command, event_of}
use workers_kafka.Store.{EventLogEntry, inward}
use workers_kafka.Domain.{pending}
use workers_kafka.Orchestrator.Rules.{next_command}
use workers_kafka.Orchestrator.Steps.{SagaOk, budget}
use workers_kafka.Flow.{orchestrator, Gateways, serve, follow, subscriber, attempt}
use workers_kafka.Flow.Journal.{Supply, Older}
use workers_kafka.Flow.Rounds.{InFlight, after_writing, written-last, written-InFlight}
use workers_kafka.Flow.Deliveries.{Finished, Waits, calm-Last, follow-Last, orchestrator-Handled}
use workers_kafka.Domain.{completed}
use workers_kafka.Flow.Answers.{Approving}
use workers_kafka.Flow.Attempts.{Handled}
use workers_kafka.Flow.Stir.{
  live-Stirred, calm-Stirred, InFlight-stirred, Supply-stirred, Older-stirred,
}

module _ {G : Type 0} (gateways : Gateways G) (max : ℕ) (schedule : ℕ → List (Option ℕ)) where
  -- The first entry of an order's journal.
  abbrev first_entry : Event → EventLogEntry
  first_entry e = entry_of (new_saga e.order_id) e.event_id order_created inward pending e

  effect-begins :
      (db : WriteDb) (e : Event)
      → e.event_type ≡ order_created
      → has_event e.event_id component db.journal ≡ false
      → find_saga e.order_id db.sagas ≡ none
      → effect max db e ≡ wrote (first_entry e) (begun e.order_id) first_command
  unfolding effect
  effect-begins db e t seen absent = rw (t, seen, absent) refl

  begun-SagaOk : (k : String) → SagaOk max (begun k)
  begun-SagaOk k = record { stable = refl; bounded = omega arith; refundable = λ h. cc h }

  module _ (n : ℕ) (w : World G) (e : Event) (u : Supply w) (older : Older w e.event_id)
      (t : e.event_type ≡ order_created)
      (seen : has_event e.event_id component w.db.journal ≡ false)
      (absent : find_saga e.order_id w.db.sagas ≡ none) where
    abbrev started : World G
    started = attempt (serve gateways max orchestrator e) (schedule n) w

    start-Handled :
        Handled w started
          (λ v st. after_writing (live v) (first_entry e) (begun e.order_id) first_command)
    start-Handled =
        orchestrator-Handled gateways max schedule (schedule n) w e (first_entry e)
          (begun e.order_id) first_command
          (λ v st. effect-begins v.db e t (rw st.tables seen) (rw st.tables absent))

    abbrev command : Event
    command = event_of (live start-Handled.from) (begun e.order_id) first_command

    begins-runs :
        follow gateways max schedule (suc n) topic_order_created e w
        ≡ follow gateways max schedule n first_command.topic command started
    unfolding subscriber
    begins-runs =
        let d = start-Handled in
        let s = live-Stirred w d.from d.stirred in
        follow-Last gateways max schedule n topic_order_created first_command.topic e command
          orchestrator w refl
          (calm-Last gateways max schedule started _ first_command.topic command d.same (
            written-last max (live d.from) (Supply-stirred w (live d.from) s u) e (first_entry e)
              refl refl (Older-stirred w (live d.from) s e.event_id older) (begun e.order_id)
              first_command))

    begins-Waits : Waits max started first_command.topic e.order_id (begun e.order_id) command
    unfolding next_command topic_for_event_type
    begins-Waits =
        let d = start-Handled in
        let s = live-Stirred w d.from d.stirred in
        record {
          flight =
              InFlight-stirred (calm started) started (calm-Stirred started) max (begun e.order_id)
                command
                (subst (λ (x : World G). InFlight max x (begun e.order_id) command) (sym d.same)
                  (written-InFlight max (live d.from) (Supply-stirred w (live d.from) s u) e
                    (first_entry e) refl refl (Older-stirred w (live d.from) s e.event_id older)
                    (begun e.order_id) first_command (begun-SagaOk e.order_id) refl
                    (record { next = refl; shown = refl; transaction = refl })));
          sent = refl;
          order = refl;
        }

  begins-Ended :
      (n : ℕ) (w : World G) (e : Event)
      → Supply w
      → Older w e.event_id
      → e.event_type ≡ order_created
      → has_event e.event_id component w.db.journal ≡ false
      → find_saga e.order_id w.db.sagas ≡ none
      → 6 * (max + 1) ≤ n
      → Ended gateways payment_pending
          (follow gateways max schedule (suc n) topic_order_created e w)
          e.order_id
  begins-Ended n w e u older t seen absent fuel =
      subst (λ (x : World G). Ended gateways payment_pending x e.order_id)
        (sym (begins-runs n w e u older t seen absent))
        (rounds-Ended gateways max schedule (budget max (begun e.order_id)) n
          (started n w e u older t seen absent) first_command.topic e.order_id (begun e.order_id)
          (command n w e u older t seen absent) (begins-Waits n w e u older t seen absent)
          (omega arith) (omega arith))

  -- Whatever database calls fail on the deliveries of a message before its last, whatever the
  -- gateways answer, with ids drawn that are distinct, new to the tables and other than that of the
  -- event: an order's first event, of an order with no saga and not handled before, sent on
  -- `orders.created` and followed with its consequences from service to service over six messages
  -- for every attempt that the limit of retries allows, and one more, leaves a saga of the order in a
  -- terminal status, and the outbox ends with the announcement of that status.
  pub follow-Finished :
      (n : ℕ) (w : World G) (e : Event)
      → Supply w
      → Older w e.event_id
      → e.event_type ≡ order_created
      → has_event e.event_id component w.db.journal ≡ false
      → find_saga e.order_id w.db.sagas ≡ none
      → 6 * (max + 1) ≤ n
      → Finished (follow gateways max schedule (suc n) topic_order_created e w) e.order_id
  follow-Finished n w e u older t seen absent fuel =
      (begins-Ended n w e u older t seen absent fuel).finished

  -- With gateways that approve every payment, hold every reservation and deliver every notification,
  -- the order so followed ends as COMPLETED, whatever database calls fail on the deliveries of a
  -- message before its last.
  pub follow-completed :
      (n : ℕ) (w : World G) (e : Event)
      → Approving gateways
      → Supply w
      → Older w e.event_id
      → e.event_type ≡ order_created
      → has_event e.event_id component w.db.journal ≡ false
      → find_saga e.order_id w.db.sagas ≡ none
      → 6 * (max + 1) ≤ n
      → (f : Finished (follow gateways max schedule (suc n) topic_order_created e w) e.order_id)
        × (f.saga.current ≡ completed)
  follow-completed n w e a u older t seen absent fuel =
      let end = begins-Ended n w e u older t seen absent fuel in (end.finished, end.granted a refl)
