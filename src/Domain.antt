-- ===== src/Domain.antt =====
-- The messages and the saga record (internal/domain/*.go).
-- `OrderStatus` and `EventType` are Go strings: `other s` is a string that no constant names.
use workers_kafka.Prelude.{ℕ, String, List, Bool, true, false, str_eq}

pub data OrderStatus : Type 0 where
  pending payment_pending payment_approved payment_refund_pending : OrderStatus
  inventory_reserved notified completed payment_refunded retrying failed : OrderStatus
  other : String → OrderStatus

-- The zero value of a status field.
abbrev pub no_status : OrderStatus
no_status = other ""

pub data EventType : Type 0 where
  order_created order_completed order_failed payment_compensate : EventType
  payment_compensate_result payment_command payment_result inventory_command : EventType
  inventory_result notification_command notification_result : EventType
  unknown : String → EventType

abbrev pub current_schema_version : ℕ
current_schema_version = 1

-- `map[string]string`; a nil map and an empty one are both `[]`.
abbrev pub Metadata : Type 0
Metadata = List (String × String)

pub record Event : Type 0 where
  pub event_id : String
  pub order_id : String
  pub saga_id : String
  pub transaction_id : String
  pub status_atual : OrderStatus
  pub status_anterior : OrderStatus
  pub event_type : EventType
  pub schema_version : ℕ
  pub created_at : ℕ
  pub metadata : Metadata

pub record Saga : Type 0 where
  pub order_id : String
  pub previous : OrderStatus
  pub current : OrderStatus
  pub retry_count : ℕ
  pub transaction_id : String

-- `==` on statuses, which are compared as strings.
abbrev pub status_eq : OrderStatus → OrderStatus → Bool
status_eq pending pending = true
status_eq payment_pending payment_pending = true
status_eq payment_approved payment_approved = true
status_eq payment_refund_pending payment_refund_pending = true
status_eq inventory_reserved inventory_reserved = true
status_eq notified notified = true
status_eq completed completed = true
status_eq payment_refunded payment_refunded = true
status_eq retrying retrying = true
status_eq failed failed = true
status_eq (other s) (other t) = str_eq s t
status_eq _ _ = false
