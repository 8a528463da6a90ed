-- ===== src/LoadGenerator.antt =====
-- The load generator: cmd/load-generator/main.go. The flags are natural numbers, `name` is the order
-- id of a number, and the waits that limit the rate are left out, since they change no message. One
-- unit of fuel is a pass of the outer loop.
pub mod Ends
use workers_kafka.Prelude.{
  ℕ, zero, suc, String, List, [], ◌∷◌, Bool, true, false, ltb, if◌then◌else◌,
}
use workers_kafka.Domain.{Event, pending, no_status, order_created, current_schema_version}
use workers_kafka.Topics.{topic_order_created}
use workers_kafka.Tx.{World}
use workers_kafka.Producer.{KafkaMessage, Writer}

-- How the program ends, or that the fuel is used up.
pub data LoadOutcome : Type 0 where
  finished write_failed out_of_fuel : LoadOutcome

module _ {B : Type 0} (writer : Writer B) (name : ℕ → String) where
  -- The event of an order, and its message.
  unfoldable pub load_event : ℕ → World B → Event
  load_event n w = record {
    event_id = w.fresh w.drawn;
    order_id = name n;
    saga_id = name n;
    transaction_id = "";
    status_atual = pending;
    status_anterior = no_status;
    event_type = order_created;
    schema_version = current_schema_version;
    created_at = w.clock (suc w.drawn);
    metadata = [];
  }

  unfoldable pub load_message : ℕ → World B → KafkaMessage
  unfolding load_event
  load_message n w = record {
    topic = topic_order_created;
    key = name n;
    value = load_event n w;
    traceparent = "";
  }

  abbrev pub Batch : Type 0
  Batch = List KafkaMessage × (ℕ × World B)

  -- The inner loop: at most `batch` messages, as long as orders are left.
  unfoldable pub fill_batch : ℕ → ℕ → ℕ → World B → Batch
  unfolding load_message
  fill_batch count zero published w = ([], (published, w))
  fill_batch count (suc i) published w =
      let (ms, rest) = fill_batch count i (suc published) (record w { drawn = suc w.drawn }) in
      if ltb published count then (load_message published w ∷ ms, rest) else ([], (published, w))

  -- The outer loop.
  unfoldable pub generate : ℕ → ℕ → ℕ → ℕ → World B → LoadOutcome × World B
  unfolding fill_batch
  generate zero batch count published w = (out_of_fuel, w)
  generate (suc n) batch count published w =
      let (ms, (published', filled)) = fill_batch count batch published w in
      let (accepted, b) = writer.write ms filled.gateway in
      let next = generate n batch count published' (record filled { gateway = b }) in
      if ltb published count
      then (if accepted then next else (write_failed, record filled { gateway = b }))
      else (finished, w)
