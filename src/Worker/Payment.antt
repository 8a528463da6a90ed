-- ===== src/Worker/Payment.antt =====
-- internal/application/worker/payment.go, and the gateway's interface of
-- internal/application/ports.go.
pub mod Says
pub mod Results
pub mod Refunds
pub mod Again
use workers_kafka.Prelude.{
  ℕ, String, [], ◌∷◌, Bool, true, false, none, some, not, str_eq, if◌then◌else◌,
}
use workers_kafka.Domain.{
  OrderStatus, Event, payment_pending, payment_approved, payment_refund_pending, payment_refunded,
  retrying, failed, status_eq, payment_command, payment_compensate, payment_result,
  payment_compensate_result, no_status, EventType, current_schema_version,
}
use workers_kafka.Errors.{non_retryable, bad_command, no_transaction_id}
use workers_kafka.Exec.{pure, throw, asks, throw_if, ◌>>=◌, ◌>>◌}
use workers_kafka.Store.{Payload, text, flag, inward, outward, gateway_request, gateway_response}
use workers_kafka.Tx.{World, Tx, new_event_id, publish, with_tx}
use workers_kafka.Worker.{
  Reply, answer, failure, component_payment, append_log, already_processed, call, blank_result,
  reply_status, reply_metadata, reply_response,
}

-- `application.PaymentGateway`, over the state of the external service.
pub record PaymentGateway (G : Type 0) : Type 0 where
  pub process : String → G → Reply (Bool × String) × G
  pub refund : String → String → G → Reply Bool × G

unfoldable pub process_response : Reply (Bool × String) → Payload
process_response (answer (approved, tx)) =
    some (("approved", flag approved) ∷ ("transaction_id", text tx) ∷ [])
process_response (failure e) = some (("error", text e) ∷ [])

unfoldable pub process_status : Reply (Bool × String) → OrderStatus
process_status (failure e) = retrying
process_status (answer (true, tx)) = payment_approved
process_status (answer (false, tx)) = failed

-- The transaction id is set on approval alone.
unfoldable pub process_transaction : Reply (Bool × String) → String
process_transaction (failure e) = ""
process_transaction (answer (true, tx)) = tx
process_transaction (answer (false, tx)) = ""

-- The result events of the two commands.
abbrev pub process_result : Event → Reply (Bool × String) → String → ℕ → Event
process_result event reply event_id created_at =
    record (blank_result event payment_result event_id created_at) {
      transaction_id = process_transaction reply;
      status_atual = process_status reply;
      metadata = reply_metadata reply;
    }

abbrev pub refund_result : Event → Reply Bool → String → ℕ → Event
refund_result event reply event_id created_at =
    record (blank_result event payment_compensate_result event_id created_at) {
      transaction_id = event.transaction_id;
      status_atual = reply_status payment_refunded reply;
      metadata = reply_metadata reply;
    }

module _ {G : Type 0} (gateway : PaymentGateway G) where
  process_unseen : Event → Bool → Tx G (Unit {0})
  unfolding append_log call process_response process_status process_transaction reply_metadata
      new_event_id publish ◌>>=◌
  process_unseen event true = pure tt
  process_unseen event false = do
    append_log component_payment event inward none none
    append_log component_payment event gateway_request
        (some (("order_id", text event.order_id) ∷ ("op", text "process") ∷ [])) none
    reply ← call (gateway.process event.order_id)
    append_log component_payment event gateway_response none (process_response reply)
    event_id ← new_event_id
    created_at ← asks (λ w. w.clock w.drawn)
    let result = process_result event reply event_id created_at
    append_log component_payment result outward none none
    publish result

  unfoldable pub process : Event → Tx G (Unit {0})
  unfolding already_processed process_unseen ◌>>=◌
  process event = do seen ← already_processed component_payment event; process_unseen event seen

  refund_unseen : Event → Bool → Tx G (Unit {0})
  unfolding append_log call reply_response reply_status reply_metadata new_event_id publish ◌>>=◌
  refund_unseen event true = pure tt
  refund_unseen event false = do
    append_log component_payment event inward none none
    append_log component_payment event gateway_request
        (some (
          ("order_id", text event.order_id)
          ∷ ("op", text "refund")
          ∷ ("transaction_id", text event.transaction_id)
          ∷ []))
        none
    reply ← call (gateway.refund event.order_id event.transaction_id)
    append_log component_payment event gateway_response none (reply_response "refunded" reply)
    event_id ← new_event_id
    created_at ← asks (λ w. w.clock w.drawn)
    let result = refund_result event reply event_id created_at
    append_log component_payment result outward none none
    publish result

  unfoldable pub refund : Event → Tx G (Unit {0})
  unfolding already_processed refund_unseen ◌>>=◌
  refund event = do seen ← already_processed component_payment event; refund_unseen event seen

  dispatch : EventType → Event → Tx G (Unit {0})
  unfolding process refund with_tx
  dispatch payment_command event =
      if status_eq event.status_atual payment_pending
      then with_tx (process event)
      else throw (non_retryable bad_command)
  dispatch payment_compensate event =
      if status_eq event.status_atual payment_refund_pending
      then (if str_eq event.transaction_id ""
          then throw (non_retryable no_transaction_id)
          else with_tx (refund event))
      else throw (non_retryable bad_command)
  dispatch _ event = pure tt

  -- `PaymentUseCase.Handle`
  unfoldable pub handle : Event → Tx G (Unit {0})
  unfolding dispatch
  handle event = dispatch event.event_type event
