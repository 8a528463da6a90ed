-- ===== src/Flow/Decisions.antt =====
-- What the decision table makes of a result that a worker gave to the command of a saga.
use workers_kafka.Prelude.{ℕ, ltb, if◌then◌else◌, suc, ◌≡◌, refl, Bool, true, false, str_eq, subst}
use workers_kafka.Domain.{
  Event, EventType, OrderStatus, Saga, payment_pending, payment_approved, payment_refund_pending,
  inventory_reserved, payment_result, payment_compensate_result, inventory_result,
  notification_result, payment_refunded, notified, retrying, failed, completed,
}
use workers_kafka.Errors.{ok}
use workers_kafka.Topics.{topic_order_status}
use workers_kafka.Orchestrator.Rules.{
  next_command, expected_status_for_result, is_valid_result, is_result,
}
use workers_kafka.Orchestrator.Spec.{
  Message, Decision, step, decide, decide_type, decide_payment, decide_inventory,
  decide_compensation, decide_notification,
}
use workers_kafka.Orchestrator.Steps.{is_terminal, OnStep}

-- The message of a step is the next command of a saga that goes on, and the announcement of the
-- status of one that ends.
pub data Follows (s : Saga) (m : Message) : Type 0 where
  ends :
      is_terminal s.current ≡ true
      → m.topic ≡ topic_order_status
      → m.status_atual ≡ s.current
      → Follows s m
  goes_on :
      is_terminal s.current ≡ false
      → next_command s.current ≡ ok (s.current, m.event_type)
      → m.status_atual ≡ s.current
      → m.transaction_id ≡ s.transaction_id
      → Follows s m

-- A decision that takes the result.
pub record Taken (d : Decision) : Type 0 where
  pub saga : Saga
  pub message : Message
  pub taken : d ≡ step saga message
  pub follows : Follows saga message

taking_step : (s : Saga) (m : Message) → Follows s m → Taken (step s m)
taking_step s m f = record { saga = s; message = m; taken = refl; follows = f }

again-Taken : (b : Bool) (d r : Decision) → Taken d → Taken r → Taken (if b then r else d)
again-Taken true d r t u = u
again-Taken false d r t u = t

-- The statuses of an order to which nothing has been refused, the status of the result that grants
-- what it waits for, and the one in which the saga is then.
abbrev pub on_track : OrderStatus → Bool
on_track payment_pending = true
on_track payment_approved = true
on_track inventory_reserved = true
on_track _ = false

abbrev pub granted : OrderStatus → OrderStatus
granted payment_pending = payment_approved
granted payment_approved = inventory_reserved
granted _ = notified

abbrev pub reached : OrderStatus → OrderStatus
reached payment_pending = payment_approved
reached payment_approved = inventory_reserved
reached _ = completed

abbrev at : OrderStatus → Saga → Saga
at status s = record s { current = status }

module _ (max : ℕ) (s : Saga) (e : Event) where
  payment-Taken :
      (st : OrderStatus)
      → is_valid_result payment_result st ≡ true
      → Taken (decide_payment max (at payment_pending s) e st)
  unfolding decide_payment next_command is_valid_result
  payment-Taken payment_approved h = taking_step _ _ (goes_on refl refl refl refl)
  payment-Taken failed h = taking_step _ _ (ends refl refl refl)
  payment-Taken retrying h =
      again-Taken (ltb max (suc s.retry_count)) _ _ (taking_step _ _ (goes_on refl refl refl refl))
        (taking_step _ _ (ends refl refl refl))
  payment-Taken _ h = cc

  inventory-Taken :
      (st : OrderStatus)
      → is_valid_result inventory_result st ≡ true
      → Taken (decide_inventory max (at payment_approved s) e st)
  unfolding decide_inventory next_command is_valid_result
  inventory-Taken inventory_reserved h = taking_step _ _ (goes_on refl refl refl refl)
  inventory-Taken failed h =
      again-Taken (str_eq s.transaction_id "") _ _ (taking_step _ _ (goes_on refl refl refl refl))
        (taking_step _ _ (ends refl refl refl))
  inventory-Taken retrying h =
      again-Taken (ltb max (suc s.retry_count)) _ _ (taking_step _ _ (goes_on refl refl refl refl))
        (taking_step _ _ (ends refl refl refl))
  inventory-Taken _ h = cc

  compensation-Taken :
      (st : OrderStatus)
      → is_valid_result payment_compensate_result st ≡ true
      → Taken (decide_compensation max (at payment_refund_pending s) e st)
  unfolding decide_compensation next_command is_valid_result
  compensation-Taken payment_refunded h = taking_step _ _ (ends refl refl refl)
  compensation-Taken failed h = taking_step _ _ (ends refl refl refl)
  compensation-Taken retrying h =
      again-Taken (ltb max (suc s.retry_count)) _ _ (taking_step _ _ (goes_on refl refl refl refl))
        (taking_step _ _ (ends refl refl refl))
  compensation-Taken _ h = cc

  notification-Taken :
      (st : OrderStatus)
      → is_valid_result notification_result st ≡ true
      → Taken (decide_notification max (at inventory_reserved s) e st)
  unfolding decide_notification next_command is_valid_result
  notification-Taken notified h = taking_step _ _ (ends refl refl refl)
  notification-Taken failed h = taking_step _ _ (ends refl refl refl)
  notification-Taken retrying h =
      again-Taken (ltb max (suc s.retry_count)) _ _ (taking_step _ _ (goes_on refl refl refl refl))
        (taking_step _ _ (ends refl refl refl))
  notification-Taken _ h = cc

  type-Taken :
      (t : EventType) (st : OrderStatus)
      → expected_status_for_result t ≡ ok st
      → is_valid_result t e.status_atual ≡ true
      → Taken (decide_type max (at st s) e t)
  unfolding decide_type expected_status_for_result
  type-Taken payment_result payment_pending h v = payment-Taken e.status_atual v
  type-Taken inventory_result payment_approved h v = inventory-Taken e.status_atual v
  type-Taken payment_compensate_result payment_refund_pending h v =
      compensation-Taken e.status_atual v
  type-Taken notification_result inventory_reserved h v = notification-Taken e.status_atual v
  type-Taken _ _ h v = cc

  -- A valid result of the command that the saga waits for is taken.
  pub decide-Taken :
      expected_status_for_result e.event_type ≡ ok s.current
      → is_valid_result e.event_type e.status_atual ≡ true
      → Taken (decide max s e)
  unfolding decide
  decide-Taken h v = type-Taken e.event_type s.current h v

  -- Such an event is a result.
  pub expected_result :
      (t : EventType) (st : OrderStatus) → expected_status_for_result t ≡ ok st → is_result t ≡ true
  unfolding expected_status_for_result is_result
  expected_result payment_result st h = refl
  expected_result inventory_result st h = refl
  expected_result payment_compensate_result st h = refl
  expected_result notification_result st h = refl
  expected_result _ st h = cc

  Forward : OrderStatus → Saga → Message → Type 0
  Forward st s' m = s'.current ≡ reached st

  decide_type_moves_on :
      (t : EventType) (st : OrderStatus)
      → expected_status_for_result t ≡ ok st
      → on_track st ≡ true
      → e.status_atual ≡ granted st
      → OnStep (Forward st) (decide_type max (at st s) e t)
  unfolding decide_type decide_payment decide_inventory decide_notification
      expected_status_for_result Forward
  decide_type_moves_on payment_result payment_pending h o g = rw g refl
  decide_type_moves_on inventory_result payment_approved h o g = rw g refl
  decide_type_moves_on notification_result inventory_reserved h o g = rw g refl
  decide_type_moves_on payment_compensate_result payment_refund_pending h o g = cc
  decide_type_moves_on _ _ h o g = cc

  -- A result that grants what an order on its track waits for moves the saga to the next status.
  pub decide_moves_on :
      (t : Taken (decide max s e))
      → expected_status_for_result e.event_type ≡ ok s.current
      → on_track s.current ≡ true
      → e.status_atual ≡ granted s.current
      → t.saga.current ≡ reached s.current
  unfolding decide Forward
  decide_moves_on t h o g =
      subst (OnStep (Forward s.current)) t.taken (decide_type_moves_on e.event_type s.current h o g)
