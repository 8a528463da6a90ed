-- ===== src/Worker.antt =====
-- The workers (internal/application/worker): what they share (log.go), and the coordinator that
-- announces an order (coordinator.go). Each worker is a module below.
pub mod Payment
pub mod Inventory
pub mod Notification
pub mod Steady
pub mod Reports
use workers_kafka.Prelude.{ℕ, String, [], ◌∷◌, some, Bool, true, false, if◌then◌else◌}
use workers_kafka.Domain.{
  OrderStatus, Event, EventType, Metadata, pending, retrying, failed, no_status, order_created,
  current_schema_version,
}
use workers_kafka.Errors.{ok}
use workers_kafka.Exec.{pure, asks, ◌>>=◌}
use workers_kafka.Store.{Direction, Payload, text, flag, EventLogEntry}
use workers_kafka.Tx.{World, Tx, new_event_id, append_event, has_processed}

-- What a gateway replies: an answer, or an error with its text.
pub data Reply (A : Type 0) : Type 0 where
  answer : A → Reply A
  failure : String → Reply A

abbrev pub component_payment : String
component_payment = "worker-payment"

abbrev pub component_inventory : String
component_inventory = "worker-inventory"

abbrev pub component_notification : String
component_notification = "worker-notification"

-- `appendLog` builds this row.
abbrev pub log_entry : String → Event → Direction → Payload → Payload → EventLogEntry
log_entry component event direction request_payload response_payload = record {
  order_id = event.order_id;
  saga_id = event.saga_id;
  event_id = event.event_id;
  event_type = event.event_type;
  component = component;
  direction = direction;
  status_anterior = event.status_anterior;
  status_atual = event.status_atual;
  payload = event;
  request_payload = request_payload;
  response_payload = response_payload;
}

-- The result event before the `switch` that chooses its status.
abbrev pub blank_result : Event → EventType → String → ℕ → Event
blank_result event event_type event_id created_at = record {
  event_id = event_id;
  order_id = event.order_id;
  saga_id = event.saga_id;
  transaction_id = "";
  status_atual = no_status;
  status_anterior = event.status_atual;
  event_type = event_type;
  schema_version = current_schema_version;
  created_at = created_at;
  metadata = [];
}

-- The `switch` of a worker on its gateway's reply: RETRYING with the error's text, the status of
-- success, or FAILED.
unfoldable pub reply_status : OrderStatus → Reply Bool → OrderStatus
reply_status success (failure e) = retrying
reply_status success (answer true) = success
reply_status success (answer false) = failed

unfoldable pub reply_metadata : {A : Type 0} → Reply A → Metadata
reply_metadata (failure e) = ("erro", e) ∷ []
reply_metadata (answer a) = []

-- The response payload: the gateway's answer under its name, or the error.
unfoldable pub reply_response : String → Reply Bool → Payload
reply_response name (answer done) = some ((name, flag done) ∷ [])
reply_response name (failure e) = some (("error", text e) ∷ [])

module _ {G : Type 0} where
  unfoldable pub append_log : String → Event → Direction → Payload → Payload → Tx G (Unit {0})
  unfolding append_event
  append_log component event direction request_payload response_payload w =
      if w.journaled
      then append_event (log_entry component event direction request_payload response_payload) w
      else pure tt w

  unfoldable pub already_processed : String → Event → Tx G Bool
  unfolding has_processed
  already_processed component event w =
      if w.journaled then has_processed event.event_id component w else pure false w

  -- A call of a gateway moves the state of the external service, and no table.
  unfoldable pub call : {A : Type 0} → (G → Reply A × G) → Tx G (Reply A)
  call f w = let (reply, gateway') = f w.gateway in (ok reply, record w { gateway = gateway' })

  -- `Coordinator.CreateOrder`
  -- over its publisher
  unfoldable pub create_order : (Event → Tx G (Unit {0})) → String → Tx G (Unit {0})
  unfolding new_event_id ◌>>=◌
  create_order publisher order_id = do
    event_id ← new_event_id
    created_at ← asks (λ w. w.clock w.drawn)
    publisher (record {
      event_id = event_id;
      order_id = order_id;
      saga_id = order_id;
      transaction_id = "";
      status_atual = pending;
      status_anterior = no_status;
      event_type = order_created;
      schema_version = current_schema_version;
      created_at = created_at;
      metadata = [];
    })
