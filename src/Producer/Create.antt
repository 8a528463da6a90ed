-- ===== src/Producer/Create.antt =====
-- An order that is created through the producer, up to the orchestrator.
use workers_kafka.Prelude.{suc, String, ◌≡◌, refl, [], ◌∷◌, first, Bool, true, false}
use workers_kafka.Domain.{Event, pending, no_status, order_created, current_schema_version}
use workers_kafka.Errors.{ok}
use workers_kafka.Tx.{World}
use workers_kafka.Worker.{create_order}
use workers_kafka.Producer.{KafkaMessage, Writer, publish_event}

-- What the brokers received of a created order.
pub record Announced {B : Type 0} (writer : Writer B) (w w' : World B) (order_id : String)
    : Type 0 where
  pub event : Event
  pub received : writer.Received w'.gateway (record {
    topic = "orders.created";
    key = order_id;
    value = event;
    traceparent = w.traceparent;
  })
  pub starts :
      (event.event_type ≡ order_created)
      × (event.order_id ≡ order_id)
      × (event.schema_version ≡ current_schema_version)
  pub tables : w'.db ≡ w.db

module _ {B : Type 0} (writer : Writer B) (w : World B) (order_id : String) where
  abbrev announced : Event
  announced = record {
    event_id = w.fresh w.drawn;
    order_id = order_id;
    saga_id = order_id;
    transaction_id = "";
    status_atual = pending;
    status_anterior = no_status;
    event_type = order_created;
    schema_version = current_schema_version;
    created_at = w.clock (suc w.drawn);
    metadata = [];
  }

  abbrev announcement : KafkaMessage
  announcement = record {
    topic = "orders.created";
    key = order_id;
    value = announced;
    traceparent = w.traceparent;
  }

  accepted-cases :
      (b : Bool)
      → (writer.write (announcement ∷ []) w.gateway).0 ≡ b
      → (create_order (publish_event writer) order_id w).0 ≡ ok tt
      → (writer.write (announcement ∷ []) w.gateway).0 ≡ true
  unfolding create_order publish_event
  accepted-cases true h o = h
  accepted-cases false h o = cc (rw h at o)

  -- Creating an order with no error announces it: the brokers have received an ORDER_CREATED event
  -- about it with the current schema version, on the topic of created orders and keyed by the order.
  -- No table is touched.
  pub create_order-Announced :
      (create_order (publish_event writer) order_id w).0 ≡ ok tt
      → Announced writer w (create_order (publish_event writer) order_id w).1 order_id
  unfolding create_order publish_event
  create_order-Announced o = record {
    event = announced;
    received =
        writer.write-Received (announcement ∷ []) w.gateway announcement (accepted-cases _ refl o)
          first;
    starts = (refl, refl, refl);
    tables = refl;
  }
