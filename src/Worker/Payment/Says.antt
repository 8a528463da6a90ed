-- ===== src/Worker/Payment/Says.antt =====
-- What the results of the payment worker say, case by case of the gateway's reply.
use workers_kafka.Prelude.{String, ◌≡◌, refl, Bool, true, false, [], ◌∷◌, ℕ}
use workers_kafka.Domain.{
  Event, EventType, payment_approved, payment_refunded, payment_result, payment_compensate_result,
  retrying, failed, current_schema_version,
}
use workers_kafka.Worker.{Reply, answer, failure, reply_status, reply_metadata}
use workers_kafka.Worker.Payment.{
  process_result, refund_result, process_status, process_transaction,
}

-- A result of this type that answers the command: it is of the same order and saga, and names the
-- status of the command as the one before.
pub record Answers (command : Event) (event_type : EventType) (result : Event) : Type 0 where
  pub order : result.order_id ≡ command.order_id
  pub saga : result.saga_id ≡ command.saga_id
  pub before : result.status_anterior ≡ command.status_atual
  pub type : result.event_type ≡ event_type
  pub schema : result.schema_version ≡ current_schema_version

-- The payment was approved, with its transaction id; or refused; or the call failed, for whatever
-- reason, and is to be retried.
abbrev pub ChargeSays : Reply (Bool × String) → Event → Type 0
ChargeSays (answer (true, tx)) r =
    (r.status_atual ≡ payment_approved) × (r.transaction_id ≡ tx) × (r.metadata ≡ [])
ChargeSays (answer (false, tx)) r =
    (r.status_atual ≡ failed) × (r.transaction_id ≡ "") × (r.metadata ≡ [])
ChargeSays (failure e) r =
    (r.status_atual ≡ retrying) × (r.transaction_id ≡ "") × (r.metadata ≡ ("erro", e) ∷ [])

-- The transaction named was refunded, or not, or the call failed and is to be retried.
abbrev pub RefundSays : Reply Bool → String → Event → Type 0
RefundSays (answer true) tx r =
    (r.status_atual ≡ payment_refunded) × (r.transaction_id ≡ tx) × (r.metadata ≡ [])
RefundSays (answer false) tx r =
    (r.status_atual ≡ failed) × (r.transaction_id ≡ tx) × (r.metadata ≡ [])
RefundSays (failure e) tx r =
    (r.status_atual ≡ retrying) × (r.transaction_id ≡ tx) × (r.metadata ≡ ("erro", e) ∷ [])

module _ (e : Event) (id : String) (at : ℕ) where
  pub process_result-Says :
      (reply : Reply (Bool × String))
      → Answers e payment_result (process_result e reply id at)
        × ChargeSays reply (process_result e reply id at)
  unfolding process_status process_transaction reply_metadata
  process_result-Says (answer (true, tx)) = (
    record { order = refl; saga = refl; before = refl; type = refl; schema = refl },
    (refl, refl, refl),
  )
  process_result-Says (answer (false, tx)) = (
    record { order = refl; saga = refl; before = refl; type = refl; schema = refl },
    (refl, refl, refl),
  )
  process_result-Says (failure x) = (
    record { order = refl; saga = refl; before = refl; type = refl; schema = refl },
    (refl, refl, refl),
  )

  pub refund_result-Says :
      (reply : Reply Bool)
      → Answers e payment_compensate_result (refund_result e reply id at)
        × RefundSays reply e.transaction_id (refund_result e reply id at)
  unfolding reply_status reply_metadata
  refund_result-Says (answer true) = (
    record { order = refl; saga = refl; before = refl; type = refl; schema = refl },
    (refl, refl, refl),
  )
  refund_result-Says (answer false) = (
    record { order = refl; saga = refl; before = refl; type = refl; schema = refl },
    (refl, refl, refl),
  )
  refund_result-Says (failure x) = (
    record { order = refl; saga = refl; before = refl; type = refl; schema = refl },
    (refl, refl, refl),
  )
