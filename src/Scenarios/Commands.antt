-- ===== src/Scenarios/Commands.antt =====
-- The workers' theorems on the commands of an order, with gateways that count their calls.
use workers_kafka.Prelude.{ℕ, suc, String, ◌≡◌, refl, none, some, Bool, true, false, arith}
use workers_kafka.Domain.{
  Event, EventType, OrderStatus, payment_pending, payment_approved, payment_refund_pending,
  inventory_reserved, payment_command, payment_compensate, inventory_command, notification_command,
}
use workers_kafka.Errors.{ok, err, database}
use workers_kafka.Store.{empty_db, has_event, append_entry}
use workers_kafka.Tx.{World, with_tx}
use workers_kafka.Tx.Live.{live}
use workers_kafka.Worker.{Reply, answer, component_payment}
use workers_kafka.Worker.Payment.{PaymentGateway, handle, process}
use workers_kafka.Worker.Payment.Again.{payment_charged_again, payment_command_once}
use workers_kafka.Worker.Inventory.{InventoryGateway, handle as handle_inventory}
use workers_kafka.Worker.Notification.{NotificationGateway, handle as handle_notification}
use workers_kafka.Scenarios.{start, created}

-- Tests.
abbrev counted : World ℕ
counted = record {
  db = empty_db;
  gateway = 0;
  faults = none;
  journaled = true;
  fresh = start.fresh;
  drawn = 0;
  clock = start.clock;
  traceparent = "";
}

abbrev approved : Reply (Bool × String)
approved = answer (true, "tx")

abbrev done : Reply Bool
done = answer true

abbrev payments : PaymentGateway ℕ
payments = record {
  process = λ order_id n. (approved, suc n);
  refund = λ order_id transaction_id n. (done, suc n);
}

abbrev stock : InventoryGateway ℕ
stock = record { reserve = λ order_id n. (done, suc n) }

abbrev messages : NotificationGateway ℕ
messages = record { notify = λ order_id n. (done, suc n) }

abbrev command : EventType → OrderStatus → Event
command event_type status = record created {
  event_type = event_type;
  status_atual = status;
  transaction_id = "tx";
}

abbrev pay : Event
pay = command payment_command payment_pending

abbrev pay_back : Event
pay_back = command payment_compensate payment_refund_pending

abbrev hold : Event
hold = command inventory_command payment_approved

abbrev tell : Event
tell = command notification_command inventory_reserved

journal_empty : (component : String) → has_event "c" component counted.db.journal ≡ false
unfolding has_event
journal_empty component = refl

pay_ok : (handle payments pay counted).0 ≡ ok tt
unfolding handle has_event append_entry
pay_ok = refl

hold_ok : (handle_inventory stock hold counted).0 ≡ ok tt
unfolding handle_inventory has_event append_entry
hold_ok = refl

tell_ok : (handle_notification messages tell counted).0 ≡ ok tt
unfolding handle_notification has_event append_entry
tell_ok = refl

payment_once_example :
    handle payments pay (live (handle payments pay counted).1)
    ≡ (ok tt, live (handle payments pay counted).1)
payment_once_example =
    payment_command_once payments counted pay refl refl (journal_empty component_payment) pay_ok

charged_again_example :
    let first = with_tx (process payments pay) (record counted { faults = some 6 }) in
    let again = with_tx (process payments pay) (live first.1) in
    (first.0 ≡ err database) × (first.1.db ≡ counted.db) × (again.0 ≡ ok tt) × (again.1.gateway ≡ 2)
charged_again_example =
    payment_charged_again payments counted pay 6 (journal_empty component_payment) (omega arith)
      (omega arith)
