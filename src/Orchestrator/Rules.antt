-- ===== src/Orchestrator/Rules.antt =====
-- The decisions of internal/application/orchestrator/orchestrator.go that read no database.
use workers_kafka.Prelude.{String, [], ◌∷◌, Bool, true, false, ◌||◌, str_eq, if◌then◌else◌}
use workers_kafka.Domain.{
  OrderStatus, EventType, Metadata, pending, payment_pending, payment_approved,
  payment_refund_pending, inventory_reserved, notified, payment_refunded, retrying, failed,
  status_eq, order_created, payment_compensate, payment_compensate_result, payment_command,
  payment_result, inventory_command, inventory_result, notification_command, notification_result,
}
use workers_kafka.Errors.{Result, ok, err, no_next_step, unsupported_event}

-- `nextCommand`: the status to move to and the command to send.
unfoldable pub next_command : OrderStatus → Result (OrderStatus × EventType)
next_command pending = ok (payment_pending, payment_command)
next_command payment_pending = ok (payment_pending, payment_command)
next_command payment_approved = ok (payment_approved, inventory_command)
next_command payment_refund_pending = ok (payment_refund_pending, payment_compensate)
next_command inventory_reserved = ok (inventory_reserved, notification_command)
next_command current = err (no_next_step current)

unfoldable pub expected_status_for_result : EventType → Result OrderStatus
expected_status_for_result payment_result = ok payment_pending
expected_status_for_result payment_compensate_result = ok payment_refund_pending
expected_status_for_result inventory_result = ok payment_approved
expected_status_for_result notification_result = ok inventory_reserved
expected_status_for_result event_type = err (unsupported_event event_type)

-- `validateResultStatus` returns nil.
unfoldable pub is_valid_result : EventType → OrderStatus → Bool
is_valid_result payment_result status =
    status_eq status payment_approved || status_eq status retrying || status_eq status failed
is_valid_result payment_compensate_result status =
    status_eq status payment_refunded || status_eq status retrying || status_eq status failed
is_valid_result inventory_result status =
    status_eq status inventory_reserved || status_eq status retrying || status_eq status failed
is_valid_result notification_result status =
    status_eq status notified || status_eq status retrying || status_eq status failed
is_valid_result _ status = false

-- The types that `handleResult` goes on with.
unfoldable pub is_result : EventType → Bool
is_result payment_result = true
is_result payment_compensate_result = true
is_result inventory_result = true
is_result notification_result = true
is_result _ = false

-- `metadata[key] = value` on a copy
unfoldable pub set_metadata : String → String → Metadata → Metadata
set_metadata k v [] = (k, v) ∷ []
set_metadata k v ((j, w) ∷ rest) =
    if str_eq j k then (k, v) ∷ rest else (j, w) ∷ set_metadata k v rest

-- `==` on the event types that the handlers test for
abbrev pub is_payment_result : EventType → Bool
is_payment_result payment_result = true
is_payment_result _ = false

abbrev pub is_compensate_result : EventType → Bool
is_compensate_result payment_compensate_result = true
is_compensate_result _ = false

abbrev pub is_inventory_result : EventType → Bool
is_inventory_result inventory_result = true
is_inventory_result _ = false

abbrev pub is_notification_result : EventType → Bool
is_notification_result notification_result = true
is_notification_result _ = false

abbrev pub is_order_created : EventType → Bool
is_order_created order_created = true
is_order_created _ = false
