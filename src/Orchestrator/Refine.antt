-- ===== src/Orchestrator/Refine.antt =====
-- The orchestrator's handlers without faults, beside the specification.
use workers_kafka.Prelude.{
  ℕ, suc, ◌≡◌, refl, ◌∙◌, Bool, true, false, Option, none, some, if◌then◌else◌, inl, inr,
  Bool-cases, ltb, str_eq,
}
use workers_kafka.Domain.{
  OrderStatus, Event, EventType, Saga, payment_pending, payment_approved, payment_refund_pending,
  inventory_reserved, notified, payment_refunded, retrying, failed, payment_compensate_result,
  payment_result, inventory_result, notification_result,
}
use workers_kafka.Store.{find_saga, has_event}
use workers_kafka.Store.Laws.{upsert-upsert}
use workers_kafka.Tx.{World}
use workers_kafka.Tx.Live.{live, settled, with_tx-live}
use workers_kafka.Orchestrator.Rules.{is_result, is_order_created}
use workers_kafka.Orchestrator.Steady.{handle_result_tx-IsSteady, start_order_tx-IsSteady}
use workers_kafka.Orchestrator.{
  component, result_seen, handle_result_tx, handle_result, result_loaded, order_absent, order_seen,
  start_order_tx, start_order, handle_event,
}
use workers_kafka.Orchestrator.Spec.{
  decide, perform, effect, effect_of, effect_result, effect_created, entry_in, unchanged,
}

abbrev at : OrderStatus → Saga → Saga
at status s = record s { current = status }

abbrev result_of : EventType → OrderStatus → Event → Event
result_of event_type status e = record e { event_type = event_type; status_atual = status }

-- The claim for one saga and one event that was not seen before.
abbrev AgreesAt : {G : Type 0} → ℕ → World G → Saga → Event → Type 0
AgreesAt max w s e =
    settled (live w) (result_seen max s e false (live w))
    ≡ perform (live w) (effect_of (entry_in s e) (decide max s e))

module _ {G : Type 0} (max : ℕ) (w : World G) (s : Saga) (e : Event) where
  payment-agrees :
      (cur st : OrderStatus) → AgreesAt max w (at cur s) (result_of payment_result st e)
  unfolding result_seen perform decide
  payment-agrees payment_pending payment_approved = rw upsert-upsert
  payment-agrees payment_pending failed = refl
  payment-agrees payment_pending retrying = elim (Bool-cases (ltb max (suc s.retry_count))) [
    | inl h ↦ rw h (rw upsert-upsert)
    | inr h ↦ rw h (rw upsert-upsert)
  ]
  payment-agrees _ _ = refl

  inventory-agrees :
      (cur st : OrderStatus) → AgreesAt max w (at cur s) (result_of inventory_result st e)
  unfolding result_seen perform decide
  inventory-agrees payment_approved inventory_reserved = rw upsert-upsert
  inventory-agrees payment_approved failed = elim (Bool-cases (str_eq s.transaction_id "")) [
    | inl h ↦ rw h refl
    | inr h ↦ rw h (rw upsert-upsert)
  ]
  inventory-agrees payment_approved retrying = elim (Bool-cases (ltb max (suc s.retry_count))) [
    | inl h ↦ rw h (rw upsert-upsert)
    | inr h ↦ rw h (rw upsert-upsert)
  ]
  inventory-agrees _ _ = refl

  compensation-agrees :
      (cur st : OrderStatus) → AgreesAt max w (at cur s) (result_of payment_compensate_result st e)
  unfolding result_seen perform decide
  compensation-agrees payment_refund_pending payment_refunded = refl
  compensation-agrees payment_refund_pending failed = refl
  compensation-agrees payment_refund_pending retrying =
      elim (Bool-cases (ltb max (suc s.retry_count))) [
        | inl h ↦ rw h (rw upsert-upsert)
        | inr h ↦ rw h (rw upsert-upsert)
      ]
  compensation-agrees _ _ = refl

  notification-agrees :
      (cur st : OrderStatus) → AgreesAt max w (at cur s) (result_of notification_result st e)
  unfolding result_seen perform decide
  notification-agrees inventory_reserved notified = rw upsert-upsert
  notification-agrees inventory_reserved failed = rw upsert-upsert
  notification-agrees inventory_reserved retrying =
      elim (Bool-cases (ltb max (suc s.retry_count))) [
        | inl h ↦ rw h (simp upsert-upsert)
        | inr h ↦ rw h (rw upsert-upsert)
      ]
  notification-agrees _ _ = refl

module _ {G : Type 0} (max : ℕ) (w : World G) (s : Saga) (e : Event) where
  agrees : (t : EventType) → is_result t ≡ true → AgreesAt max w s (result_of t e.status_atual e)
  unfolding is_result
  agrees payment_result h = payment-agrees max w s e s.current e.status_atual
  agrees inventory_result h = inventory-agrees max w s e s.current e.status_atual
  agrees payment_compensate_result h = compensation-agrees max w s e s.current e.status_atual
  agrees notification_result h = notification-agrees max w s e s.current e.status_atual
  agrees _ h = cc

  seen-agrees :
      (b : Bool)
      → is_result e.event_type ≡ true
      → settled (live w) (result_seen max s e b (live w))
        ≡ perform (live w) (effect_result max e (some s) b)
  unfolding result_seen perform
  seen-agrees true ht = refl
  seen-agrees false ht = unfold perform result_seen in agrees e.event_type ht

module _ {G : Type 0} (max : ℕ) (w : World G) (e : Event) where
  loaded-agrees :
      (o : Option Saga)
      → is_result e.event_type ≡ true
      → settled (live w) (result_loaded max e o (live w))
        ≡ perform (live w) (effect_result max e o (has_event e.event_id component w.db.journal))
  unfolding result_loaded perform
  loaded-agrees none ht = refl
  loaded-agrees (some s) ht = seen-agrees max w s e (has_event e.event_id component w.db.journal) ht

  result-agrees :
      (b : Bool)
      → is_result e.event_type ≡ b
      → settled (live w) (handle_result_tx max e (live w))
        ≡ perform (live w) (
            if b
            then effect_result max e
                (find_saga e.order_id w.db.sagas)
                (has_event e.event_id component w.db.journal)
            else unchanged)
  unfolding handle_result_tx
  result-agrees true h = rw h (loaded-agrees (find_saga e.order_id w.db.sagas) h)
  result-agrees false h = rw h (unfold perform in refl)

  absent-agrees :
      (o : Option Saga)
      → settled (live w) (order_absent e o (live w)) ≡ perform (live w) (effect_created e false o)
  unfolding order_absent perform
  absent-agrees none = rw upsert-upsert
  absent-agrees (some s) = refl

  created-agrees :
      (b : Bool)
      → settled (live w) (order_seen e b (live w))
        ≡ perform (live w) (effect_created e b (find_saga e.order_id w.db.sagas))
  unfolding order_seen
  created-agrees true = unfold perform in refl
  created-agrees false = absent-agrees (find_saga e.order_id w.db.sagas)

  start-agrees :
      settled (live w) (start_order_tx e (live w))
      ≡ perform (live w) (
          effect_created e
            (has_event e.event_id component w.db.journal)
            (find_saga e.order_id w.db.sagas))
  unfolding start_order_tx
  start-agrees = created-agrees (has_event e.event_id component w.db.journal)

  event-agrees :
      (b : Bool)
      → (if b then start_order e else handle_result max e) (live w)
        ≡ perform (live w) (
            if b
            then effect_created e
                (has_event e.event_id component w.db.journal)
                (find_saga e.order_id w.db.sagas)
            else if is_result e.event_type
            then effect_result max e
                (find_saga e.order_id w.db.sagas)
                (has_event e.event_id component w.db.journal)
            else unchanged)
  unfolding start_order handle_result
  event-agrees true = with_tx-live (start_order_tx e) w (start_order_tx-IsSteady e) ∙ start-agrees
  event-agrees false =
      with_tx-live (handle_result_tx max e) w (handle_result_tx-IsSteady max e)
      ∙ result-agrees (is_result e.event_type) refl

  -- With no database fault the handler has exactly the effect that the table gives.
  pub handle_event-live : handle_event max e (live w) ≡ perform (live w) (effect max w.db e)
  unfolding handle_event effect
  handle_event-live = event-agrees (is_order_created e.event_type)
