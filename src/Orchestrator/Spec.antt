-- ===== src/Orchestrator/Spec.antt =====
-- What one result does to a saga, as a table: the saga that is left, and the one message sent.
-- It knows nothing of repositories, of the journal or of the order of the writes.
use workers_kafka.Prelude.{
  ℕ, suc, String, Bool, true, false, Option, none, some, [], ◌∷◌, str_eq, ltb, if◌then◌else◌,
}
use workers_kafka.Domain.{
  OrderStatus, no_status, pending, order_created, Event, EventType, Saga, Metadata, payment_pending,
  payment_approved, payment_refund_pending, inventory_reserved, notified, completed,
  payment_refunded, retrying, failed, status_eq, order_completed, order_failed, payment_compensate,
  payment_compensate_result, payment_command, payment_result, inventory_command, inventory_result,
  notification_command, notification_result, current_schema_version,
}
use workers_kafka.Errors.{
  Reason, Result, ok, err, non_retryable, out_of_order, invalid_result, already_started,
  unknown_saga,
}
use workers_kafka.Store.{
  WriteDb, EventLogEntry, has_event, find_saga, save_row, log_row, outbox_row, inward, outward,
}
use workers_kafka.Tx.{World}
use workers_kafka.Orchestrator.{entry_of, new_saga, component}
use workers_kafka.Orchestrator.Rules.{set_metadata, is_order_created, is_result}

-- The published message, and the previous status that the journal shows beside it.
pub record Message : Type 0 where
  pub event_type : EventType
  pub topic : String
  pub status_atual : OrderStatus
  pub status_anterior : OrderStatus
  pub transaction_id : String
  pub metadata : Metadata
  pub logged_from : OrderStatus

pub data Decision : Type 0 where
  ignore : Decision
  reject : Reason → Decision
  step : Saga → Message → Decision

-- The command sent about a saga.
abbrev pub command_of : EventType → String → Saga → Message
command_of event_type topic s = record {
  event_type = event_type;
  topic = topic;
  status_atual = s.current;
  status_anterior = s.previous;
  transaction_id = s.transaction_id;
  metadata = [];
  logged_from = s.previous;
}

abbrev pub send : EventType → String → Saga → Decision
send event_type topic s = step s (command_of event_type topic s)

-- The message that ends a saga, which stood in `s`.
abbrev pub failed_message : Saga → Metadata → Message
failed_message s metadata = record {
  event_type = order_failed;
  topic = "orders.status";
  status_atual = failed;
  status_anterior = s.current;
  transaction_id = "";
  metadata = metadata;
  logged_from = s.current;
}

abbrev pub close_failed : Saga → Metadata → Decision
close_failed s metadata =
    step (record s { previous = s.current; current = failed; retry_count = 0 })
      (failed_message s metadata)

abbrev pub completed_message : Saga → Metadata → Message
completed_message s metadata = record {
  event_type = order_completed;
  topic = "orders.status";
  status_atual = completed;
  status_anterior = notified;
  transaction_id = "";
  metadata = metadata;
  logged_from = s.current;
}

abbrev pub close_completed : Saga → Metadata → Decision
close_completed s metadata =
    step (record s { previous = notified; current = completed; retry_count = 0 })
      (completed_message s metadata)

abbrev pub count_retry : Saga → Saga
count_retry s = record s { retry_count = suc s.retry_count }

abbrev pub enter : OrderStatus → String → Saga → Saga
enter status transaction_id s = record s {
  previous = s.current;
  current = status;
  retry_count = 0;
  transaction_id = transaction_id;
}

-- A retry sends the same command again until the limit is passed, and then gives up.
abbrev pub again : ℕ → Saga → Decision → Decision → Decision
again max s more give_up = if ltb max (suc s.retry_count) then give_up else more

abbrev pub exceeded : Metadata
exceeded = ("motivo", "retry_limit_exceeded") ∷ []

unfoldable pub decide_payment : ℕ → Saga → Event → OrderStatus → Decision
decide_payment max s e payment_approved =
    send inventory_command "orders.inventory.cmd" (enter payment_approved e.transaction_id s)
decide_payment max s e retrying =
    again max s (send payment_command "orders.payment.cmd" (count_retry s))
      (close_failed s exceeded)
decide_payment max s e failed = close_failed s e.metadata
decide_payment max s e _ = reject invalid_result

unfoldable pub decide_inventory : ℕ → Saga → Event → OrderStatus → Decision
decide_inventory max s e inventory_reserved =
    send notification_command "orders.notification.cmd"
      (enter inventory_reserved s.transaction_id s)
decide_inventory max s e retrying =
    again max s (send inventory_command "orders.inventory.cmd" (count_retry s))
      (close_failed s exceeded)
decide_inventory max s e failed =
    if str_eq s.transaction_id ""
    then close_failed s e.metadata
    else send payment_compensate "orders.payment.cmd"
        (enter payment_refund_pending s.transaction_id s)
decide_inventory max s e _ = reject invalid_result

unfoldable pub decide_compensation : ℕ → Saga → Event → OrderStatus → Decision
decide_compensation max s e payment_refunded = close_failed s (
    set_metadata "transaction_id" e.transaction_id
      (set_metadata "payment_refunded" "true" e.metadata))
decide_compensation max s e retrying =
    again max s (send payment_compensate "orders.payment.cmd" (count_retry s)) (
      close_failed s (
        set_metadata "transaction_id" s.transaction_id
          (set_metadata "payment_refund_failed" "true" exceeded)))
decide_compensation max s e failed = close_failed s (
    set_metadata "transaction_id" e.transaction_id
      (set_metadata "payment_refund_failed" "true" e.metadata))
decide_compensation max s e _ = reject invalid_result

unfoldable pub decide_notification : ℕ → Saga → Event → OrderStatus → Decision
decide_notification max s e notified = close_completed s []
decide_notification max s e retrying =
    again max s (send notification_command "orders.notification.cmd" (count_retry s))
      (close_completed s (("notification_error", "true") ∷ ("motivo", "retry_limit_exceeded") ∷ []))
decide_notification max s e failed = close_completed s (("notification_error", "true") ∷ [])
decide_notification max s e _ = reject invalid_result

-- A result is taken only in the status that waits for it.
abbrev pub awaiting : OrderStatus → Saga → Decision → Decision
awaiting status s d = if status_eq s.current status then d else reject out_of_order

unfoldable pub decide_type : ℕ → Saga → Event → EventType → Decision
unfolding decide_payment decide_inventory decide_compensation decide_notification
decide_type max s e payment_result =
    awaiting payment_pending s (decide_payment max s e e.status_atual)
decide_type max s e inventory_result =
    awaiting payment_approved s (decide_inventory max s e e.status_atual)
decide_type max s e payment_compensate_result =
    awaiting payment_refund_pending s (decide_compensation max s e e.status_atual)
decide_type max s e notification_result =
    awaiting inventory_reserved s (decide_notification max s e e.status_atual)
decide_type max s e _ = ignore

unfoldable pub decide : ℕ → Saga → Event → Decision
unfolding decide_type
decide max s e = decide_type max s e e.event_type

-- The event that carries a message.
abbrev pub event_of : {G : Type 0} → World G → Saga → Message → Event
event_of w s m = record {
  event_id = w.fresh w.drawn;
  order_id = s.order_id;
  saga_id = s.order_id;
  transaction_id = m.transaction_id;
  status_atual = m.status_atual;
  status_anterior = m.status_anterior;
  event_type = m.event_type;
  schema_version = current_schema_version;
  created_at = w.clock (suc w.drawn);
  metadata = m.metadata;
}

-- The journal row of the event that is taken, and that of the message sent.
abbrev pub entry_in : Saga → Event → EventLogEntry
entry_in s e = entry_of s e.event_id e.event_type inward e.status_atual e

abbrev pub entry_out : {G : Type 0} → World G → Saga → Message → EventLogEntry
entry_out w s m =
    entry_of (record s { previous = m.logged_from }) (w.fresh w.drawn) m.event_type outward
      m.status_atual (event_of w s m)

-- What handling an event comes to: nothing, a refusal for good, or one saga row, two journal rows
-- and one message.
pub data Effect : Type 0 where
  unchanged : Effect
  refused : Reason → Effect
  wrote : EventLogEntry → Saga → Message → Effect

abbrev pub effect_of : EventLogEntry → Decision → Effect
effect_of entry ignore = unchanged
effect_of entry (reject r) = refused r
effect_of entry (step s m) = wrote entry s m

-- The first command of a saga.
abbrev pub first_command : Message
first_command = record {
  event_type = payment_command;
  topic = "orders.payment.cmd";
  status_atual = payment_pending;
  status_anterior = no_status;
  transaction_id = "";
  metadata = [];
  logged_from = pending;
}

abbrev pub begun : String → Saga
begun order_id = record (new_saga order_id) { previous = pending; current = payment_pending }

abbrev pub effect_created : Event → Bool → Option Saga → Effect
effect_created e true o = unchanged
effect_created e false (some s) = refused already_started
effect_created e false none =
    wrote (entry_of (new_saga e.order_id) e.event_id order_created inward pending e)
      (begun e.order_id) first_command

abbrev pub effect_result : ℕ → Event → Option Saga → Bool → Effect
effect_result max e none seen = refused unknown_saga
effect_result max e (some s) true = unchanged
effect_result max e (some s) false = effect_of (entry_in s e) (decide max s e)

unfoldable pub effect : ℕ → WriteDb → Event → Effect
effect max db e =
    let seen = has_event e.event_id component db.journal in
    let found = find_saga e.order_id db.sagas in
    if is_order_created e.event_type
    then effect_created e seen found
    else if is_result e.event_type
    then effect_result max e found seen
    else unchanged

-- What an effect makes of the tables.
unfoldable pub written : {G : Type 0} → World G → EventLogEntry → Saga → Message → WriteDb
written w entry s m =
    outbox_row m.topic w.traceparent (event_of w s m)
      (log_row (entry_out w s m) (save_row s (log_row entry w.db)))

unfoldable pub perform : {G : Type 0} → World G → Effect → Result (Unit {0}) × World G
unfolding written
perform w unchanged = (ok tt, w)
perform w (refused r) = (err (non_retryable r), w)
perform w (wrote entry s m) = (ok tt, record w { db = written w entry s m; drawn = suc w.drawn })
