-- ===== src/Orchestrator/Special.antt =====
-- The special cases of the saga: refunds, retries that run out, and failed notifications.
use workers_kafka.Prelude.{
  ℕ, ◌≤◌, ◌≡◌, ◌≢◌, refl, sym, subst, ap, ◌∙◌, ◌⊎◌, inl, inr, String, true, false, some, arith,
  eq_iff,
}
use workers_kafka.Domain.{
  Event, EventType, Saga, OrderStatus, inventory_result, notification_result, payment_compensate,
  order_failed, failed, retrying, payment_approved, payment_refund_pending, inventory_reserved,
  completed,
}
use workers_kafka.Errors.{ok}
use workers_kafka.Store.{WriteDb, OutboxRow, find_saga, upsert_saga, append_outbox}
use workers_kafka.Store.Laws.{find_saga-upsert_self, find_saga-order_id}
use workers_kafka.Tx.{World}
use workers_kafka.Tx.Live.{live}
use workers_kafka.Orchestrator.{handle_event}
use workers_kafka.Orchestrator.Rules.{is_result}
use workers_kafka.Orchestrator.Spec.{
  Message, step, Effect, effect, effect_of, perform, enter, command_of, failed_message, exceeded,
  decide, decide_type, decide_inventory, entry_in, event_of,
}
use workers_kafka.Orchestrator.Handler.{handle_event-refines}
use workers_kafka.Orchestrator.Steps.{OnStep}
use workers_kafka.Orchestrator.Runs.{SagasOk, handle_event-relates}
use workers_kafka.Orchestrator.Redelivery.{was_seen}

-- The saga of the order and the last message, as a decision leaves them.
pub record Leaves {G : Type 0} (w : World G) (after : WriteDb) (id : String) (s' : Saga)
    (m : Message) : Type 0 where
  pub stored : find_saga id after.sagas ≡ some s'
  pub row : OutboxRow
  pub sent : after.outbox ≡ append_outbox row w.db.outbox
  pub carries : row.payload ≡ event_of w s' m

module _ {G : Type 0} (max : ℕ) (w : World G) (e : Event) (s : Saga) where
  result-effect :
      is_result e.event_type ≡ true
      → was_seen e w.db ≡ false
      → find_saga e.order_id w.db.sagas ≡ some s
      → effect max w.db e ≡ effect_of (entry_in s e) (decide max s e)
  unfolding effect is_result
  result-effect t n found = rw (n, found) (ground arith)

  perform-Leaves :
      {s' : Saga} {m : Message} (f : Effect)
      → f ≡ effect_of (entry_in s e) (step s' m)
      → s'.order_id ≡ e.order_id
      → Leaves w (perform (live w) f).1.db e.order_id s' m
  perform-Leaves {s'} {m} f h same =
      subst (λ (g : Effect). Leaves w (perform (live w) g).1.db e.order_id s' m) (sym h)
        (unfold perform in
          record {
            stored =
                subst (λ (k : String). find_saga k (upsert_saga s' w.db.sagas) ≡ some s') same
                  (find_saga-upsert_self s' w.db.sagas);
            row = _;
            sent = refl;
            carries = refl;
          })

  -- A result that is accepted has been decided upon, and its decision is carried out.
  accepted-Leaves :
      {s' : Saga} {m : Message}
      → is_result e.event_type ≡ true
      → was_seen e w.db ≡ false
      → find_saga e.order_id w.db.sagas ≡ some s
      → (handle_event max e w).0 ≡ ok tt
      → decide max s e ≡ step s' m
      → s'.order_id ≡ s.order_id
      → Leaves w (handle_event max e w).1.db e.order_id s' m
  accepted-Leaves {s'} {m} t n found h d same = elim (handle_event-refines max e w) [
    | inl (o, _) ↦ cc
    | inr (o, after) ↦
        subst (λ (db : WriteDb). Leaves w db e.order_id s' m) (sym after)
          (perform-Leaves (effect max w.db e)
            (result-effect t n found ∙ ap (effect_of (entry_in s e)) d)
            (same ∙ find_saga-order_id e.order_id w.db.sagas found))
  ]

abbrev at : OrderStatus → Saga → Saga
at status s = record s { current = status }

inventory-decide :
    (max : ℕ) (s : Saga) (e : Event)
    → e.event_type ≡ inventory_result
    → s.current ≡ payment_approved
    → decide max s e ≡ decide_inventory max s e e.status_atual
unfolding decide decide_type
inventory-decide max s e t c = rw (t, decide_type) (rw c refl)

module _ {G : Type 0} (max : ℕ) (w : World G) (e : Event) (s : Saga) where
  -- When the stock fails for good after a payment with a transaction id, and this result is handled
  -- for the first time and with no error, the saga waits for the refund, and the message sent is the
  -- command to refund that very transaction.
  pub inventory_failure-refunds :
      was_seen e w.db ≡ false
      → find_saga e.order_id w.db.sagas ≡ some s
      → e.event_type ≡ inventory_result
      → e.status_atual ≡ failed
      → s.current ≡ payment_approved
      → s.transaction_id ≢ ""
      → (handle_event max e w).0 ≡ ok tt
      → (s' : Saga) × (m : Message) × Leaves w (handle_event max e w).1.db e.order_id s' m
        × (s'.current ≡ payment_refund_pending)
        × (s'.transaction_id ≡ s.transaction_id)
        × (m.event_type ≡ payment_compensate)
        × (m.transaction_id ≡ s.transaction_id)
  unfolding decide_inventory is_result
  inventory_failure-refunds n found t f c x h = (
    enter payment_refund_pending s.transaction_id s,
    command_of payment_compensate "orders.payment.cmd"
        (enter payment_refund_pending s.transaction_id s),
    accepted-Leaves max w e s (rw t refl) n found h
        (inventory-decide max s e t c ∙ rw f (ground (arith, eq_iff s.transaction_id ""))) refl,
    refl,
    refl,
    refl,
    refl,
  )

  -- When the stock asks for a retry after the payment and the retries have run out, and this result
  -- is handled for the first time and with no error, the saga is closed as FAILED and the message is
  -- ORDER_FAILED: the payment, whose transaction id the saga still holds, is not refunded.
  pub inventory_exhausted-no_refund :
      was_seen e w.db ≡ false
      → find_saga e.order_id w.db.sagas ≡ some s
      → e.event_type ≡ inventory_result
      → e.status_atual ≡ retrying
      → s.current ≡ payment_approved
      → max ≤ s.retry_count
      → (handle_event max e w).0 ≡ ok tt
      → (s' : Saga) × (m : Message) × Leaves w (handle_event max e w).1.db e.order_id s' m
        × (s'.current ≡ failed)
        × (s'.transaction_id ≡ s.transaction_id)
        × (m.event_type ≡ order_failed)
  unfolding decide_inventory is_result
  inventory_exhausted-no_refund n found t f c x h = (
    record s { previous = s.current; current = failed; retry_count = 0 },
    failed_message s exceeded,
    accepted-Leaves max w e s (rw t refl) n found h
        (inventory-decide max s e t c ∙ rw f (ground arith)) refl,
    refl,
    refl,
    refl,
  )

-- An order whose stock is reserved.
reserved-decide :
    (max : ℕ) (s : Saga) (e : Event) (t : EventType)
    → OnStep
        (λ s' m. (s'.current ≡ inventory_reserved) ⊎ (s'.current ≡ completed))
        (decide_type max (record s { current = inventory_reserved }) e t)
unfolding decide_type
reserved-decide max s e notification_result = ground arith
reserved-decide max s e _ = tt

reserved-steps :
    (max : ℕ) (e : Event) (s s' : Saga) (m : Message)
    → decide max s e ≡ step s' m
    → s.current ≡ inventory_reserved
    → (s'.current ≡ inventory_reserved) ⊎ (s'.current ≡ completed)
reserved-steps max e s s' m d c =
    subst (OnStep (λ x n. (x.current ≡ inventory_reserved) ⊎ (x.current ≡ completed))) d (
      unfold decide in
      subst
        (λ (st : OrderStatus).
          OnStep (λ x n. (x.current ≡ inventory_reserved) ⊎ (x.current ≡ completed))
            (decide_type max (record s { current = st }) e e.event_type))
        (sym c) (reserved-decide max s e e.event_type))

-- With every stored saga in order: one event, at any faults, leaves the saga of an order whose stock
-- is reserved INVENTORY_RESERVED or makes it COMPLETED.
pub reserved-not_failed :
    {G : Type 0} (max : ℕ) (w : World G) (e : Event) (k : String) (s : Saga)
    → SagasOk max w.db
    → find_saga k w.db.sagas ≡ some s
    → s.current ≡ inventory_reserved
    → (s' : Saga) × (find_saga k (handle_event max e w).1.db.sagas ≡ some s')
      × ((s'.current ≡ inventory_reserved) ⊎ (s'.current ≡ completed))
reserved-not_failed max w e k s all found c =
    let (s', after, how) =
      handle_event-relates max w e
        (λ t t'.
          t.current ≡ inventory_reserved
          → (t'.current ≡ inventory_reserved) ⊎ (t'.current ≡ completed))
        (λ t t' m _ d. reserved-steps max e t t' m d) all k s found in
    (s', after, elim how [ inl same ↦ inl (ap (λ (x : Saga). x.current) same ∙ c) | inr g ↦ g c ])
