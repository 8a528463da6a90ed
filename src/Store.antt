-- ===== src/Store.antt =====
-- The write database: its three tables (migrations/*.up.sql) and what each statement of the
-- repositories of internal/infrastructure/persistence/postgres does to them.
pub mod Laws
use workers_kafka.Prelude.{
  ℕ, suc, String, List, [], ◌∷◌, Option, none, some, Bool, true, false, ◌&&◌, str_eq, if◌then◌else◌,
}
use workers_kafka.Domain.{OrderStatus, EventType, Event, Saga}

pub data Direction : Type 0 where
  inward outward gateway_request gateway_response : Direction

abbrev pub direction_eq : Direction → Direction → Bool
direction_eq inward inward = true
direction_eq outward outward = true
direction_eq gateway_request gateway_request = true
direction_eq gateway_response gateway_response = true
direction_eq _ _ = false

-- The values of a `map[string]any` payload.
pub data Value : Type 0 where
  text : String → Value
  flag : Bool → Value

abbrev pub Payload : Type 0
Payload = Option (List (String × Value))

-- A row of `saga_events`. The payload is kept as the event that was serialised.
pub record EventLogEntry : Type 0 where
  pub order_id : String
  pub saga_id : String
  pub event_id : String
  pub event_type : EventType
  pub component : String
  pub direction : Direction
  pub status_anterior : OrderStatus
  pub status_atual : OrderStatus
  pub payload : Event
  pub request_payload : Payload
  pub response_payload : Payload

-- A row of `outbox`, with the columns that the relay writes.
pub record OutboxRow : Type 0 where
  pub id : ℕ
  pub event_id : String
  pub topic : String
  pub key : String
  pub payload : Event
  pub traceparent : String
  pub claimed_at : Option ℕ
  pub published_at : Option ℕ

pub record WriteDb : Type 0 where
  pub sagas : List Saga
  pub journal : List EventLogEntry
  pub outbox : List OutboxRow
  pub next_id : ℕ

abbrev pub empty_db : WriteDb
empty_db = record { sagas = []; journal = []; outbox = []; next_id = 1 }

-- `SELECT … FROM sagas WHERE order_id = $1`
unfoldable pub find_saga : String → List Saga → Option Saga
find_saga k [] = none
find_saga k (s ∷ rest) = if str_eq s.order_id k then some s else find_saga k rest

-- `INSERT INTO sagas … ON CONFLICT (order_id) DO UPDATE SET`, column by column.
unfoldable pub upsert_saga : Saga → List Saga → List Saga
upsert_saga s [] =
    record {
      order_id = s.order_id;
      current = s.current;
      previous = s.previous;
      retry_count = s.retry_count;
      transaction_id = s.transaction_id;
    }
    ∷ []
upsert_saga s (t ∷ rest) =
    if str_eq t.order_id s.order_id
    then record t {
      current = s.current;
      previous = s.previous;
      retry_count = s.retry_count;
      transaction_id = s.transaction_id;
    }
      ∷ rest
    else t ∷ upsert_saga s rest

-- `SELECT EXISTS(SELECT 1 FROM saga_events WHERE event_id = $1 AND component = $2)`
unfoldable pub has_event : String → String → List EventLogEntry → Bool
has_event i c [] = false
has_event i c (e ∷ rest) =
    if str_eq e.event_id i && str_eq e.component c then true else has_event i c rest

-- the key of UNIQUE (event_id, component, direction)
unfoldable pub same_entry : EventLogEntry → EventLogEntry → Bool
same_entry a b =
    str_eq a.event_id b.event_id
    && str_eq a.component b.component
    && direction_eq a.direction b.direction

-- `INSERT INTO saga_events … ON CONFLICT (event_id, component, direction) DO NOTHING`
unfoldable pub append_entry : EventLogEntry → List EventLogEntry → List EventLogEntry
unfolding same_entry
append_entry e [] = e ∷ []
append_entry e (d ∷ rest) = if same_entry d e then d ∷ rest else d ∷ append_entry e rest

-- `INSERT INTO outbox … ON CONFLICT (event_id) DO NOTHING`
unfoldable pub append_outbox : OutboxRow → List OutboxRow → List OutboxRow
append_outbox r [] = r ∷ []
append_outbox r (q ∷ rest) =
    if str_eq q.event_id r.event_id then q ∷ rest else q ∷ append_outbox r rest

abbrev pub save_row : Saga → WriteDb → WriteDb
save_row s db = record db { sagas = upsert_saga s db.sagas }

abbrev pub log_row : EventLogEntry → WriteDb → WriteDb
log_row e db = record db { journal = append_entry e db.journal }

-- BIGSERIAL draws an id for every insert, also for one that a conflict drops.
abbrev pub outbox_row : String → String → Event → WriteDb → WriteDb
outbox_row topic traceparent event db = record db {
  outbox =
      append_outbox
        (record {
          id = db.next_id;
          event_id = event.event_id;
          topic = topic;
          key = event.order_id;
          payload = event;
          traceparent = traceparent;
          claimed_at = none;
          published_at = none;
        })
        db.outbox;
  next_id = suc db.next_id;
}
