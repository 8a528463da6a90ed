-- ===== src/Producer.antt =====
-- The Kafka producer: internal/infrastructure/kafka/producer.go. The writer of kafka-go is a
-- parameter; logs, metrics and the text of the metadata in them are left out.
pub mod Create
use workers_kafka.Prelude.{
  String, List, [], ◌∷◌, In, Option, none, some, Bool, true, false, ◌≡◌, if◌then◌else◌,
}
use workers_kafka.Domain.{Event}
use workers_kafka.Errors.{ok, err, no_topic, broker}
use workers_kafka.Topics.{topic_for_event_type}
use workers_kafka.Tx.{World, Tx}

-- A message as it is written. The trace of its context goes into the headers.
pub record KafkaMessage : Type 0 where
  pub topic : String
  pub key : String
  pub value : Event
  pub traceparent : String

-- `kafkago.Writer` over the state of the brokers: `WriteMessages` returns nil only once every message
-- is written, and what was written stays.
pub record Writer (B : Type 0) : Type 1 where
  pub write : List KafkaMessage → B → Bool × B
  pub Received : B → KafkaMessage → Type 0
  pub write-Received :
      (ms : List KafkaMessage) (b : B) (m : KafkaMessage)
      → (write ms b).0 ≡ true
      → In m ms
      → Received (write ms b).1 m
  pub write-keeps :
      (ms : List KafkaMessage) (b : B) (m : KafkaMessage) → Received b m → Received (write ms b).1 m

module _ {B : Type 0} (writer : Writer B) where
  -- `PublishBatch`: whether it returns nil.
  unfoldable pub publish_batch : List KafkaMessage → B → Bool × B
  publish_batch [] b = (true, b)
  publish_batch (m ∷ ms) b = writer.write (m ∷ ms) b

  -- A call of the writer from a program whose world holds the brokers.
  unfoldable pub write_messages : List KafkaMessage → Tx B (Unit {0})
  write_messages ms w =
      let (accepted, b') = writer.write ms w.gateway in
      (if accepted then ok tt else err broker, record w { gateway = b' })

  publish_to : Option String → Event → Tx B (Unit {0})
  unfolding write_messages
  publish_to none event w = (err (no_topic event.event_type), w)
  publish_to (some topic) event w =
      write_messages
        (record { topic = topic; key = event.order_id; value = event; traceparent = w.traceparent }
          ∷ [])
        w

  -- `Producer.Publish`
  unfoldable pub publish_event : Event → Tx B (Unit {0})
  unfolding publish_to topic_for_event_type
  publish_event event = publish_to (topic_for_event_type event.event_type) event

  -- `PublishRaw`
  unfoldable pub publish_raw : String → String → Event → Tx B (Unit {0})
  unfolding write_messages
  publish_raw topic key payload w =
      write_messages
        (record { topic = topic; key = key; value = payload; traceparent = w.traceparent } ∷ []) w
