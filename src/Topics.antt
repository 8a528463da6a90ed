-- ===== src/Topics.antt =====
-- The topics of the bus and the routing of events (internal/infrastructure/kafka/topics.go).
use Prim.Native.String.{◌++◌}
use workers_kafka.Prelude.{String, List, [], ◌∷◌, Option, none, some}
use workers_kafka.Domain.{
  EventType, order_created, order_completed, order_failed, payment_compensate,
  payment_compensate_result, payment_command, payment_result, inventory_command, inventory_result,
  notification_command, notification_result, unknown,
}

abbrev pub topic_order_created : String
topic_order_created = "orders.created"

abbrev pub topic_order_status : String
topic_order_status = "orders.status"

abbrev pub topic_payment_command : String
topic_payment_command = "orders.payment.cmd"

abbrev pub topic_payment_result : String
topic_payment_result = "orders.payment.result"

abbrev pub topic_inventory_command : String
topic_inventory_command = "orders.inventory.cmd"

abbrev pub topic_inventory_result : String
topic_inventory_result = "orders.inventory.result"

abbrev pub topic_notification_command : String
topic_notification_command = "orders.notification.cmd"

abbrev pub topic_notification_result : String
topic_notification_result = "orders.notification.result"

unfoldable pub topic_for_event_type : EventType → Option String
topic_for_event_type order_created = some topic_order_created
topic_for_event_type order_completed = some topic_order_status
topic_for_event_type order_failed = some topic_order_status
topic_for_event_type payment_command = some topic_payment_command
topic_for_event_type payment_compensate = some topic_payment_command
topic_for_event_type payment_result = some topic_payment_result
topic_for_event_type payment_compensate_result = some topic_payment_result
topic_for_event_type inventory_command = some topic_inventory_command
topic_for_event_type inventory_result = some topic_inventory_result
topic_for_event_type notification_command = some topic_notification_command
topic_for_event_type notification_result = some topic_notification_result
topic_for_event_type (unknown s) = none

unfoldable pub flow_topics : List String
flow_topics =
    topic_order_created ∷ topic_order_status ∷ topic_payment_command ∷ topic_payment_result
    ∷ topic_inventory_command ∷ topic_inventory_result ∷ topic_notification_command
    ∷ topic_notification_result ∷ []

unfoldable pub dlq_topic_for : String → String
dlq_topic_for topic = topic ++ ".dlq"
