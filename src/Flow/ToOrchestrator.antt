-- ===== src/Flow/ToOrchestrator.antt =====
-- A result followed to the orchestrator.
use workers_kafka.Prelude.{
  ℕ, suc, ◌<◌, ◌≡◌, refl, sym, ap, subst, ◌∙◌, String, some, true, false, List, Option,
}
use workers_kafka.Domain.{Event, Saga}
use workers_kafka.Store.{find_saga}
use workers_kafka.Store.Laws.{find_saga-order_id}
use workers_kafka.Topics.{topic_order_status}
use workers_kafka.Tx.{World}
use workers_kafka.Tx.Steady.{calm}
use workers_kafka.Tx.Live.{live}
use workers_kafka.Orchestrator.Spec.{Message, decide, entry_in, event_of}
use workers_kafka.Orchestrator.Steps.{SagaOk, StepOk, OnStep, is_terminal, budget, decide-StepOk}
use workers_kafka.Flow.{orchestrator, Gateways, serve, follow, attempt}
use workers_kafka.Flow.Deliveries.{
  Finished, Waits, Returns, Last, calm-Last, follow-Last, follow-stop, result_topic,
  orchestrator-Handled,
}
use workers_kafka.Flow.Attempts.{Stirred, Handled}
use workers_kafka.Flow.Stir.{live-Stirred, calm-Stirred, InFlight-stirred, Answered-stirred}
use workers_kafka.Flow.Answers.{Commands}
use workers_kafka.Domain.{OrderStatus}
use workers_kafka.Flow.Decisions.{
  on_track, granted, reached, decide_moves_on, Follows, ends, goes_on, Taken, decide-Taken,
}
use workers_kafka.Flow.Rounds.{
  InFlight, Answered, effect-taken, after_writing, written-last, written-found, written-InFlight,
}

module _ {G : Type 0} (gateways : Gateways G) (max : ℕ) (schedule : ℕ → List (Option ℕ)) where
  finished_by :
      (w : World G) (s : Saga) (m : Message) (e : Event) (k : String)
      → s.order_id ≡ k
      → find_saga s.order_id w.db.sagas ≡ some s
      → is_terminal s.current ≡ true
      → m.topic ≡ topic_order_status
      → e.status_atual ≡ s.current
      → e.order_id ≡ k
      → Last gateways max schedule w m.topic e
      → Finished w k
  finished_by w s m e k same found terminal mt status order (row, last, at, holds) = record {
    saga = s;
    found = subst (λ (i : String). find_saga i w.db.sagas ≡ some s) same found;
    terminal = terminal;
    row = row;
    last = last;
    announced = at ∙ mt;
    status = ap (λ (x : Event). x.status_atual) holds ∙ status;
    order = ap (λ (x : Event). x.order_id) holds ∙ order;
  }

  -- An order on its track that is granted what it waits for comes to the next status.
  abbrev pub Granted : Saga → Event → OrderStatus → Type 0
  Granted s e st =
      on_track s.current ≡ true → e.status_atual ≡ granted s.current → st ≡ reached s.current

  -- What the orchestrator makes of a result.
  pub data Ruled (n : ℕ) (w : World G) (topic order_id : String) (s : Saga) (e : Event)
      : Type 0 where
    over :
        (w' : World G)
        → follow gateways max schedule (suc n) topic e w ≡ w'
        → (f : Finished w' order_id) → Granted s e f.saga.current
        → Ruled n w topic order_id s e
    on :
        (w' : World G) (topic' : String) (s' : Saga) (e' : Event)
        → follow gateways max schedule (suc n) topic e w
          ≡ follow gateways max schedule n topic' e' w'
        → Waits max w' topic' order_id s' e'
        → budget max s' < budget max s
        → Granted s e s'.current
        → Ruled n w topic order_id s e

  decided-StepOk :
      (s : Saga) (e : Event) (fine : SagaOk max s) (t : Taken (decide max s e))
      → StepOk max s t.saga t.message
  decided-StepOk s e fine t = subst (OnStep (StepOk max s)) t.taken (decide-StepOk max s e fine)

  module _ (n : ℕ) (w : World G) (topic k : String) (s : Saga) (e : Event)
      (h : Returns max w topic k s e) (t : Taken (decide max s e)) where
    answered_at : (v : World G) → Stirred w v → Answered max (live v) s e
    answered_at v st = Answered-stirred w (live v) (live-Stirred w v st) max s e h.answered

    abbrev ruled : World G
    ruled = attempt (serve gateways max orchestrator e) (schedule n) w

    result-Handled :
        Handled w ruled (λ v st. after_writing (live v) (entry_in s e) t.saga t.message)
    result-Handled =
        orchestrator-Handled gateways max schedule (schedule n) w e (entry_in s e) t.saga t.message
          (λ v st. effect-taken max (live v) s t.saga e t.message (answered_at v st) t.taken)

    same_order : t.saga.order_id ≡ k
    same_order =
        (decided-StepOk s e h.answered.fine t).same_order
        ∙ find_saga-order_id e.order_id w.db.sagas h.answered.found
        ∙ h.order

    message : Event
    message = event_of (live result-Handled.from) t.saga t.message

    result-Last : Last gateways max schedule ruled t.message.topic message
    unfolding message
    result-Last =
        let d = result-Handled in
        let a = answered_at d.from d.stirred in
        calm-Last gateways max schedule ruled _ t.message.topic message d.same (
          written-last max (live d.from) a.supply e (entry_in s e) refl refl a.older t.saga
            t.message)

    result-runs :
        follow gateways max schedule (suc n) topic e w
        ≡ follow gateways max schedule n t.message.topic message ruled
    result-runs =
        follow-Last gateways max schedule n topic t.message.topic e message orchestrator w
          (result_topic gateways max schedule e.event_type topic s.current h.answered.expected
            h.sent)
          result-Last

    result-found : find_saga t.saga.order_id ruled.db.sagas ≡ some t.saga
    result-found =
        let d = result-Handled in
        let a = answered_at d.from d.stirred in
        subst (λ (x : World G). find_saga t.saga.order_id x.db.sagas ≡ some t.saga) (sym d.same)
          (written-found max (live d.from) a.supply e (entry_in s e) refl refl a.older t.saga
            t.message)

    result-InFlight :
        is_terminal t.saga.current ≡ false
        → Commands t.saga message
        → InFlight max ruled t.saga message
    unfolding message
    result-InFlight active command =
        let d = result-Handled in
        let a = answered_at d.from d.stirred in
        let ok = decided-StepOk s e h.answered.fine t in
        InFlight-stirred (calm ruled) ruled (calm-Stirred ruled) max t.saga message (
          subst (λ (x : World G). InFlight max x t.saga message) (sym d.same)
            (written-InFlight max (live d.from) a.supply e (entry_in s e) refl refl a.older t.saga
              t.message
              (record { stable = ok.stable; bounded = ok.bounded; refundable = ok.refundable })
              active command))

    follows-Ruled : Follows t.saga t.message → Ruled n w topic k s e
    unfolding message
    follows-Ruled (ends terminal mt status) =
        over ruled
          (result-runs ∙ follow-stop gateways max schedule n t.message.topic message ruled mt)
          (finished_by ruled t.saga t.message message k same_order result-found terminal mt status
            same_order result-Last)
          (unfold finished_by in λ o g. decide_moves_on max s e t h.answered.expected o g)
    follows-Ruled (goes_on active next shown transaction) =
        let ok = decided-StepOk s e h.answered.fine t in
        on ruled t.message.topic t.saga message result-runs
          (record {
            flight =
                result-InFlight active
                  (record { next = next; shown = shown; transaction = transaction });
            sent = ok.routed;
            order = same_order;
          })
          ok.decreases (λ o g. decide_moves_on max s e t h.answered.expected o g)

  pub rules :
      (n : ℕ) (w : World G) (topic k : String) (s : Saga) (e : Event)
      → Returns max w topic k s e
      → Ruled n w topic k s e
  rules n w topic k s e h =
      let t = decide-Taken max s e h.answered.expected h.answered.valid in
      follows-Ruled n w topic k s e h t t.follows
