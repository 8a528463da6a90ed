-- ===== src/Flow/Rounds.antt =====
-- A round of an order: its command at the worker, and the worker's result at the orchestrator.
use workers_kafka.Prelude.{
  ℕ, suc, ◌≡◌, refl, sym, ap, ◌∙◌, String, some, true, false, ◌&&◌, arith, str_eq,
}
use workers_kafka.Domain.{Event, EventType, OrderStatus, Saga, order_created}
use workers_kafka.Errors.{ok}
use workers_kafka.Store.{WriteDb, EventLogEntry, OutboxRow, find_saga, has_event, Payload}
use workers_kafka.Store.Laws.{find_saga-upsert_self}
use workers_kafka.Tx.{World}
use workers_kafka.Tx.Live.{live}
use workers_kafka.Orchestrator.{component}
use workers_kafka.Orchestrator.Rules.{expected_status_for_result, is_valid_result, is_order_created}
use workers_kafka.Orchestrator.Spec.{
  Message, step, decide, wrote, effect, written, entry_in, event_of,
}
use workers_kafka.Orchestrator.Steps.{SagaOk, is_terminal}
use workers_kafka.Worker.Reports.{served}
use workers_kafka.Flow.{Gateways, last_row}
use workers_kafka.Flow.Decisions.{expected_result}
use workers_kafka.Flow.Answers.{Commands, Answer, NewToWorkers}
use workers_kafka.Flow.Journal.{
  has_event-append_other, last_row-append, has_row-append_other, apart_id, apart_component, Supply,
  Older, drawn-Older, other_name,
}

-- A saga that goes on, and the command that it waits for, which no worker has seen.
pub record InFlight {G : Type 0} (max : ℕ) (w : World G) (s : Saga) (e : Event) : Type 0 where
  pub found : find_saga e.order_id w.db.sagas ≡ some s
  pub fine : SagaOk max s
  pub active : is_terminal s.current ≡ false
  pub command : Commands s e
  pub new : NewToWorkers w e
  pub supply : Supply w
  pub older : Older w e.event_id

-- A result that the orchestrator has not seen, of the command that the saga waits for.
pub record Answered {G : Type 0} (max : ℕ) (w : World G) (s : Saga) (e : Event) : Type 0 where
  pub found : find_saga e.order_id w.db.sagas ≡ some s
  pub fine : SagaOk max s
  pub active : is_terminal s.current ≡ false
  pub expected : expected_status_for_result e.event_type ≡ ok s.current
  pub valid : is_valid_result e.event_type e.status_atual ≡ true
  pub unseen : has_event e.event_id component w.db.journal ≡ false
  pub supply : Supply w
  pub older : Older w e.event_id

module _ {G : Type 0} (w : World G) (u : Supply w) (name : String) (e : Event)
    (request response : Payload) (topic : String) (r : Event) where
  abbrev after_serving : WriteDb
  after_serving = served name w.traceparent e request response topic r w.db

  served-unlogged :
      (i c : String)
      → has_event i c w.db.journal ≡ false
      → (str_eq e.event_id i && str_eq name c) ≡ false
      → (str_eq r.event_id i && str_eq name c) ≡ false
      → has_event i c after_serving.journal ≡ false
  served-unlogged i c h a b =
      has_event-append_other i c _ _
        (has_event-append_other i c _ _
          (has_event-append_other i c _ _ (has_event-append_other i c _ _ h a) a) a)
        b

  served-Supply :
      (g : G)
      → Older w e.event_id
      → r.event_id ≡ w.fresh w.drawn
      → Supply (record (live w) { db = after_serving; gateway = g; drawn = suc w.drawn })
  served-Supply g older id = record {
    distinct = u.distinct;
    unlogged = λ i c h.
        served-unlogged (w.fresh i) c (u.unlogged i c (omega (arith, h)))
          (apart_id _ _ _ (older i (omega (arith, h))))
          (apart_id _ _ _ (λ same. drawn-Older w i u h (sym id ∙ same)));
    unsent = λ i h.
        has_row-append_other (w.fresh i) _ w.db.outbox (u.unsent i (omega (arith, h)))
          (λ same. drawn-Older w i u h (sym id ∙ same));
  }

  pub served-last :
      r.event_id ≡ w.fresh w.drawn
      → (row : OutboxRow) × (last_row after_serving.outbox ≡ some row)
        × (row.topic ≡ topic)
        × (row.payload ≡ r)
  served-last id =
      (_, last_row-append _ w.db.outbox (rw id (u.unsent w.drawn (omega arith))), refl, refl)

-- The world after the orchestrator's writes.
unfoldable pub after_writing : {G : Type 0} → World G → EventLogEntry → Saga → Message → World G
after_writing w entry s m = record w { db = written w entry s m; drawn = suc w.drawn }

module _ {G : Type 0} (max : ℕ) (w : World G) (u : Supply w) (e : Event) (entry : EventLogEntry)
    (of_event : entry.event_id ≡ e.event_id) (by : entry.component ≡ component)
    (older : Older w e.event_id) (s : Saga) (m : Message) where
  written-unlogged :
      (i c : String)
      → has_event i c w.db.journal ≡ false
      → (str_eq e.event_id i && str_eq component c) ≡ false
      → (str_eq (w.fresh w.drawn) i && str_eq component c) ≡ false
      → has_event i c (written w entry s m).journal ≡ false
  unfolding written
  written-unlogged i c h a b =
      has_event-append_other i c _ _ (has_event-append_other i c entry _ h (rw (of_event, by) a)) b

  written-Supply : Supply (after_writing w entry s m)
  unfolding after_writing written
  written-Supply = record {
    distinct = u.distinct;
    unlogged = λ i c h.
        written-unlogged (w.fresh i) c (u.unlogged i c (omega (arith, h)))
          (apart_id _ _ _ (older i (omega (arith, h)))) (apart_id _ _ _ (drawn-Older w i u h));
    unsent = λ i h.
        has_row-append_other (w.fresh i) _ w.db.outbox (u.unsent i (omega (arith, h)))
          (drawn-Older w i u h);
  }

  pub written-last :
      (row : OutboxRow) × (last_row (after_writing w entry s m).db.outbox ≡ some row)
      × (row.topic ≡ m.topic)
      × (row.payload ≡ event_of w s m)
  unfolding after_writing written
  written-last = (_, last_row-append _ w.db.outbox (u.unsent w.drawn (omega arith)), refl, refl)

  pub written-found : find_saga s.order_id (after_writing w entry s m).db.sagas ≡ some s
  unfolding after_writing written
  written-found = find_saga-upsert_self s w.db.sagas

  pub written-InFlight :
      SagaOk max s
      → is_terminal s.current ≡ false
      → Commands s (event_of w s m)
      → InFlight max (after_writing w entry s m) s (event_of w s m)
  written-InFlight fine active command = record {
    found = written-found;
    fine = fine;
    active = active;
    command = command;
    new =
        unfold after_writing in
        λ c n.
          written-unlogged (w.fresh w.drawn) c (u.unlogged w.drawn c (omega arith))
            (apart_component _ component c (other_name component c n))
            (apart_component _ component c (other_name component c n));
    supply = written-Supply;
    older = unfold after_writing in λ i h. drawn-Older w i u h;
  }

module _ {G : Type 0} (gateways : Gateways G) (max : ℕ) where
  -- The worker's answer to a command in flight.
  pub worker-Answered :
      (w : World G) (s : Saga) (e : Event) (f : InFlight max w s e) (a : Answer gateways max w e)
      → Answered max
          (record (live w) {
            db = served a.name w.traceparent e a.request a.response a.topic a.result w.db;
            gateway = a.after;
            drawn = suc w.drawn;
          })
          s
          a.result
  worker-Answered w s e f a = record {
    found = rw a.accepts.same_order f.found;
    fine = f.fine;
    active = f.active;
    expected = a.accepts.expected ∙ ap (λ (st : OrderStatus). ok st) f.command.shown;
    valid = a.accepts.valid;
    unseen =
        served-unlogged w f.supply a.name e a.request a.response a.topic a.result a.result.event_id
          component (rw a.id (f.supply.unlogged w.drawn component (omega arith)))
          (apart_component _ a.name component a.another)
          (apart_component _ a.name component a.another);
    supply =
        served-Supply w f.supply a.name e a.request a.response a.topic a.result a.after f.older
          a.id;
    older = λ i h same. drawn-Older w i f.supply h (sym a.id ∙ same);
  }

created_no :
    (t : EventType) (st : OrderStatus)
    → expected_status_for_result t ≡ ok st
    → is_order_created t ≡ false
unfolding expected_status_for_result
created_no order_created st h = cc
created_no _ st h = refl

module _ {G : Type 0} (max : ℕ) where
  -- The orchestrator takes the result.
  pub effect-taken :
      (w : World G) (s s' : Saga) (e : Event) (m : Message)
      → Answered max w s e
      → decide max s e ≡ step s' m
      → effect max w.db e ≡ wrote (entry_in s e) s' m
  unfolding effect
  effect-taken w s s' e m a d =
      rw
        (
          created_no e.event_type s.current a.expected,
          expected_result max s e e.event_type s.current a.expected,
          a.found,
          a.unseen,
          d,
        )
        refl
