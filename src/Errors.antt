-- ===== src/Errors.antt =====
-- Errors as values: internal/application/errors.go, the sentinels of internal/domain and
-- internal/application/ports.go, and the errors that handlers build around them. Message texts are
-- left out.
use workers_kafka.Prelude.{Bool, true, false}
use workers_kafka.Domain.{OrderStatus, EventType}

-- What an error that wraps `ErrNonRetryable` complains of.
pub data Reason : Type 0 where
  already_started unknown_saga unexpected_status : Reason
  out_of_order invalid_result bad_command no_transaction_id : Reason
  malformed_event bad_schema : Reason

-- `database` is any error of the driver (a statement, the begin or the commit of a transaction) or
-- of the serialisation of a row; `broker` is a refusal of the Kafka writer; the other
-- constructors name what the code itself reports.
pub data Error : Type 0 where
  non_retryable : Reason → Error
  database : Error
  invalid_transition : OrderStatus → OrderStatus → Error
  no_next_step : OrderStatus → Error
  unsupported_event : EventType → Error
  no_topic : EventType → Error
  broker : Error

-- `errors.Is(err, application.ErrNonRetryable)`
abbrev pub is_non_retryable : Error → Bool
is_non_retryable (non_retryable r) = true
is_non_retryable _ = false

pub data Result {ℓ} (A : Type ℓ) : Type ℓ where
  ok : A → Result A
  err : Error → Result A
