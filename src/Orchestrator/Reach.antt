-- ===== src/Orchestrator/Reach.antt =====
-- The orchestrator beside the other services. `Reach w v`: `v` comes after `w` by deliveries of any
-- events, again or for the first time, each with faults at any point, and by steps of the other
-- services, which write to the journal and the outbox and leave the sagas alone.
use workers_kafka.Prelude.{ℕ, ◌≡◌, ◌⊎◌, inl, inr, String, true, Option, some, List}
use workers_kafka.Domain.{Event, Saga}
use workers_kafka.Errors.{ok}
use workers_kafka.Store.{find_saga, has_event}
use workers_kafka.Tx.{World}
use workers_kafka.Orchestrator.{handle_event, component}
use workers_kafka.Orchestrator.Steps.{is_terminal}
use workers_kafka.Orchestrator.Runs.{SagasOk, MovedOn, handle_event-SagasOk, handle_event-MovedOn}
use workers_kafka.Orchestrator.Redelivery.{
  is_handled, was_seen, handle_event-journal, handle_event_seen, handle_event-seen_same,
}

-- What another service may do.
pub record Beside {G : Type 0} (w v : World G) : Type 0 where
  pub sagas : v.db.sagas ≡ w.db.sagas
  pub journal :
      (i c : String) → has_event i c w.db.journal ≡ true → has_event i c v.db.journal ≡ true

abbrev pub with_faults : {G : Type 0} → Option ℕ → World G → World G
with_faults f w = record w { faults = f }

pub data Reach {G : Type 0} (max : ℕ) (w : World G) : World G → Type 0 where
  here : Reach max w w
  delivered :
      {v : World G} (e : Event) (f : Option ℕ)
      → Reach max w v
      → Reach max w (handle_event max e (with_faults f v)).1
  beside : {v u : World G} → Reach max w v → Beside v u → Reach max w u

-- A saga that has ended is not moved by a delivery.
pub stays :
    (max : ℕ) (l : List Saga) (k : String) (s : Saga)
    → is_terminal s.current ≡ true
    → (s' : Saga) × (find_saga k l ≡ some s') × ((s' ≡ s) ⊎ MovedOn max s s')
    → find_saga k l ≡ some s
stays max l k s t (s', found, inl same) = cc
stays max l k s t (s', found, inr g) = cc (t, g.active)

module _ {G : Type 0} (max : ℕ) {w : World G} where
  -- Every stored saga is in order after any deliveries, faults and steps of the other services, if
  -- those at the start were.
  pub Reach-SagasOk : {v : World G} → SagasOk max w.db → Reach max w v → SagasOk max v.db
  Reach-SagasOk h here = h
  Reach-SagasOk h (delivered {v} e f r) =
      handle_event-SagasOk max (with_faults f v) e
        (record { at_order = (Reach-SagasOk h r).at_order })
  Reach-SagasOk h (beside {v} {u} r b) = record {
    at_order = λ k s found. (Reach-SagasOk h r).at_order k s (rw (← b.sagas) found);
  }

  Reach-journal :
      {v : World G} (i c : String)
      → Reach max w v
      → has_event i c w.db.journal ≡ true
      → has_event i c v.db.journal ≡ true
  Reach-journal i c here h = h
  Reach-journal i c (delivered {v} e f r) h =
      handle_event-journal max (with_faults f v) e i c (Reach-journal i c r h)
  Reach-journal i c (beside r b) h = b.journal i c (Reach-journal i c r h)

  Reach-after :
      {v : World G} (e : Event) → Reach max w v → was_seen e w.db ≡ true → was_seen e v.db ≡ true
  Reach-after e r h = Reach-journal e.event_id component r h

  -- With every stored saga in order at the start: a saga that has reached COMPLETED or FAILED is
  -- never changed again, over any deliveries, faults and steps of the other services.
  pub Reach-terminal :
      {v : World G} (k : String) (s : Saga)
      → SagasOk max w.db
      → find_saga k w.db.sagas ≡ some s
      → is_terminal s.current ≡ true
      → Reach max w v
      → find_saga k v.db.sagas ≡ some s
  Reach-terminal k s all h t here = h
  Reach-terminal k s all h t (beside r b) = rw b.sagas (Reach-terminal k s all h t r)
  Reach-terminal k s all h t (delivered {v} e f r) = stays max _ k s t (
      handle_event-MovedOn max (with_faults f v) e k s
        (record { at_order = (Reach-SagasOk all r).at_order }) (Reach-terminal k s all h t r))

module _ {G : Type 0} (max : ℕ) (w : World G) where
  -- An event of a handled type that was handled with no error has its effect once: however often it
  -- is delivered again, whatever happened in between, and with any faults, it changes no table.
  pub delivered_once :
      {v : World G} (e : Event) (f : Option ℕ)
      → is_handled e ≡ true
      → (handle_event max e w).0 ≡ ok tt
      → Reach max (handle_event max e w).1 v
      → (handle_event max e (with_faults f v)).1.db ≡ v.db
  delivered_once {v} e f t h r =
      handle_event-seen_same max (with_faults f v) e
        (Reach-after max e r (handle_event_seen max w e t h))
