-- ===== src/Orchestrator/Steps.antt =====
-- The steps of the specification: the saga before and after, and the message sent.
use workers_kafka.Prelude.{
  ℕ, ◌+◌, ◌-◌, ◌*◌, ◌≤◌, ◌<◌, ◌≡◌, ◌≢◌, refl, ◌⊎◌, Bool, true, false, some, arith, eq_iff,
}
use workers_kafka.Domain.{
  OrderStatus, Event, EventType, Saga, payment_pending, payment_approved, payment_refund_pending,
  inventory_reserved, notified, completed, payment_refunded, retrying, failed,
  payment_compensate_result, payment_result, inventory_result, notification_result,
}
use workers_kafka.Topics.{topic_for_event_type}
use workers_kafka.Orchestrator.Machine.{can_transition_to}
use workers_kafka.Orchestrator.Spec.{
  Message, Decision, ignore, reject, step, decide_payment, decide_inventory, decide_compensation,
  decide_notification, decide_type, decide,
}

-- The statuses in which a transaction leaves a saga.
abbrev pub is_stable : OrderStatus → Bool
is_stable payment_pending = true
is_stable payment_approved = true
is_stable payment_refund_pending = true
is_stable inventory_reserved = true
is_stable completed = true
is_stable failed = true
is_stable _ = false

abbrev pub is_terminal : OrderStatus → Bool
is_terminal completed = true
is_terminal failed = true
is_terminal _ = false

-- How many stages a saga can still go through, the present one included.
abbrev pub stages : OrderStatus → ℕ
stages payment_pending = 3
stages payment_approved = 2
stages payment_refund_pending = 1
stages inventory_reserved = 1
stages _ = 0

-- How many results a saga can still take.
abbrev pub budget : ℕ → Saga → ℕ
budget max s = stages s.current * (max + 1) - s.retry_count

pub record SagaOk (max : ℕ) (s : Saga) : Type 0 where
  pub stable : is_stable s.current ≡ true
  pub bounded : s.retry_count ≤ max
  pub refundable : s.current ≡ payment_refund_pending → s.transaction_id ≢ ""

pub record StepOk (max : ℕ) (s s' : Saga) (m : Message) : Type 0 where
  pub active : is_terminal s.current ≡ false
  pub legal : (s'.current ≡ s.current) ⊎ (can_transition_to s.current s'.current ≡ true)
  pub same_order : s'.order_id ≡ s.order_id
  pub routed : topic_for_event_type m.event_type ≡ some m.topic
  pub decreases : budget max s' < budget max s
  pub stable : is_stable s'.current ≡ true
  pub bounded : s'.retry_count ≤ max
  pub refundable : s'.current ≡ payment_refund_pending → s'.transaction_id ≢ ""

-- `P` holds of the saga and the message of a step.
abbrev pub OnStep : (Saga → Message → Type 0) → Decision → Type 0
OnStep P ignore = Unit
OnStep P (reject r) = Unit
OnStep P (step s m) = P s m

abbrev at : OrderStatus → Saga → Saga
at status s = record s { current = status }

module _ (max : ℕ) (s : Saga) (e : Event) (fits : s.retry_count ≤ max) where
  payment-StepOk :
      (st : OrderStatus)
      → OnStep (StepOk max (at payment_pending s)) (decide_payment max (at payment_pending s) e st)
  unfolding decide_payment can_transition_to topic_for_event_type
  payment-StepOk payment_approved = ground arith
  payment-StepOk failed = ground arith
  payment-StepOk retrying = ground arith
  payment-StepOk _ = tt

  inventory-StepOk :
      (st : OrderStatus)
      → OnStep
          (StepOk max (at payment_approved s))
          (decide_inventory max (at payment_approved s) e st)
  unfolding decide_inventory can_transition_to topic_for_event_type
  inventory-StepOk inventory_reserved = ground arith
  inventory-StepOk failed = ground (arith, eq_iff s.transaction_id "")
  inventory-StepOk retrying = ground arith
  inventory-StepOk _ = tt

  compensation-StepOk :
      (st : OrderStatus)
      → s.transaction_id ≢ ""
      → OnStep
          (StepOk max (at payment_refund_pending s))
          (decide_compensation max (at payment_refund_pending s) e st)
  unfolding decide_compensation can_transition_to topic_for_event_type
  compensation-StepOk payment_refunded h = ground arith
  compensation-StepOk failed h = ground arith
  compensation-StepOk retrying h = ground arith
  compensation-StepOk _ h = tt

  notification-StepOk :
      (st : OrderStatus)
      → OnStep
          (StepOk max (at inventory_reserved s))
          (decide_notification max (at inventory_reserved s) e st)
  unfolding decide_notification can_transition_to topic_for_event_type
  notification-StepOk notified = ground arith
  notification-StepOk failed = ground arith
  notification-StepOk retrying = ground arith
  notification-StepOk _ = tt

module _ (max : ℕ) (s : Saga) (e : Event) where
  awaiting-StepOk :
      (t : EventType) (cur : OrderStatus)
      → s.retry_count ≤ max
      → (cur ≡ payment_refund_pending → s.transaction_id ≢ "")
      → OnStep (StepOk max (at cur s)) (decide_type max (at cur s) e t)
  unfolding decide_type
  awaiting-StepOk payment_result payment_pending b r = payment-StepOk max s e b e.status_atual
  awaiting-StepOk inventory_result payment_approved b r = inventory-StepOk max s e b e.status_atual
  awaiting-StepOk payment_compensate_result payment_refund_pending b r =
      compensation-StepOk max s e b e.status_atual (r refl)
  awaiting-StepOk notification_result inventory_reserved b r =
      notification-StepOk max s e b e.status_atual
  awaiting-StepOk _ _ b r = tt

  -- Each step of a well-formed saga is one that `StepOk` describes.
  pub decide-StepOk : SagaOk max s → OnStep (StepOk max s) (decide max s e)
  unfolding decide
  decide-StepOk ok = awaiting-StepOk e.event_type s.current ok.bounded ok.refundable
