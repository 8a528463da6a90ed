-- ===== src/Scenarios.antt =====
-- Orders at work: the worlds after each step of a saga, and the theorems at them.
mod Sagas
mod Commands
mod Views
mod Deliveries
mod Goroutines
mod Simulators
mod Outbox
mod Settings
mod Operations
mod Journeys
mod Tools
use workers_kafka.Prelude.{ℕ, zero, suc, String, [], Option, none, some, Bool, true}
use workers_kafka.Domain.{
  Event, OrderStatus, EventType, order_created, pending, no_status, payment_pending, payment_result,
  payment_approved, inventory_result, inventory_reserved, failed, retrying,
}
use workers_kafka.Store.{empty_db}
use workers_kafka.Tx.{World}
use workers_kafka.Orchestrator.{handle_event}

abbrev pub fresh_name : ℕ → String
fresh_name zero = "id-0"
fresh_name (suc zero) = "id-1"
fresh_name (suc (suc zero)) = "id-2"
fresh_name _ = "id-3"

abbrev pub start : World (Unit {0})
start = record {
  db = empty_db;
  gateway = tt;
  faults = none;
  journaled = true;
  fresh = fresh_name;
  drawn = 0;
  clock = λ n. n;
  traceparent = "";
}

abbrev pub created : Event
created = record {
  event_id = "c";
  order_id = "o1";
  saga_id = "o1";
  transaction_id = "";
  status_atual = pending;
  status_anterior = no_status;
  event_type = order_created;
  schema_version = 1;
  created_at = 0;
  metadata = [];
}

abbrev pub paid : Event
paid = record created {
  event_id = "p";
  event_type = payment_result;
  status_anterior = payment_pending;
  status_atual = payment_approved;
  transaction_id = "tx";
}

-- A result of the inventory worker, with the status that it reports.
abbrev pub stock_result : OrderStatus → Event
stock_result status = record created {
  event_id = "s";
  event_type = inventory_result;
  status_anterior = payment_approved;
  status_atual = status;
}

abbrev pub waiting_payment : World (Unit {0})
waiting_payment = (handle_event 0 created start).1

abbrev pub waiting_stock : World (Unit {0})
waiting_stock = (handle_event 0 paid waiting_payment).1

abbrev pub reserved : World (Unit {0})
reserved = (handle_event 0 (stock_result inventory_reserved) waiting_stock).1

abbrev pub closed : World (Unit {0})
closed = (handle_event 0 (stock_result retrying) waiting_stock).1
