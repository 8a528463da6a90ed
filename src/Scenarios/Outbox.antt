-- ===== src/Scenarios/Outbox.antt =====
-- The relay's and the producer's theorems, with brokers that keep a log of the messages.
use workers_kafka.Prelude.{
  ℕ, List, [], ◌∷◌, ◌++◌, In, first, later, In-++_left, In-++_right, ◌≡◌, refl, none, some, Bool,
  true, false, arith, not, ◌&&◌,
}
use workers_kafka.Errors.{ok}
use workers_kafka.Store.{OutboxRow, empty_db}
use workers_kafka.Tx.{World}
use workers_kafka.Worker.{create_order}
use workers_kafka.Producer.{KafkaMessage, Writer, publish_event}
use workers_kafka.Producer.Create.{Announced, create_order-Announced}
use workers_kafka.Relay.{
  Relay, Returning, relay_once, relayed, message_of, is_pending, relay_batch_size, count_pending,
  set_claimed, has_id, pick,
}
use workers_kafka.Relay.Sent.{Sent}
use workers_kafka.Relay.Exclusive.{run_relay-exclusive}
use workers_kafka.Relay.Safe.{Safe, run_relay-Safe}
use workers_kafka.Relay.Service.{
  Step, cycle, row_added, purge_tick, count_tick, Service, run_relay, other_cycle, claim_timeout,
}
use workers_kafka.Relay.Drain.{clean, clean_cycles, run_relay-drain}
use workers_kafka.Relay.Counts.{all_free}
use workers_kafka.Scenarios.{start, created}

-- Tests.
abbrev pub kafka : Writer (List KafkaMessage)
kafka = record {
  write = λ ms log. (true, log ++ ms);
  Received = λ log m. In m log;
  write-Received = λ ms log m accepted there. In-++_right m log ms there;
  write-keeps = λ ms log m there. In-++_left m log ms there;
}

abbrev in_order : Returning
in_order = record {
  arrange = λ rows. rows;
  arranged = λ r l there. there;
  present = λ r l there. there;
}

abbrev row : ℕ → OutboxRow
row id = record {
  id = id;
  event_id = "c";
  topic = "orders.created";
  key = "o1";
  payload = created;
  traceparent = "";
  claimed_at = none;
  published_at = none;
}

abbrev outbox : Relay (List KafkaMessage)
outbox = record { rows = row 1 ∷ row 2 ∷ row 3 ∷ []; broker = []; faults = none; now = 9 }

abbrev unlocked : ℕ → Bool
unlocked i = false

one_relayed : (relay_once kafka in_order unlocked 5 1 outbox).0 ≡ relayed 1
unfolding relay_once
one_relayed = refl

two_left : count_pending (relay_once kafka in_order unlocked 5 1 outbox).1.rows ≡ 2
unfolding relay_once count_pending
two_left = refl

one_in_log : (relay_once kafka in_order unlocked 5 1 outbox).1.broker ≡ message_of (row 1) ∷ []
unfolding relay_once message_of
one_in_log = refl

-- The theorems at this outbox.
none_marked : (r : OutboxRow) → In r outbox.rows → is_pending r ≡ true
none_marked _ first = refl
none_marked _ (later first) = refl
none_marked _ (later (later first)) = refl
none_marked r (later (later (later i))) = elim i [ ]

outbox-Sent : Sent kafka outbox
outbox-Sent = record { received = λ r i h. cc (none_marked r i) }

abbrev service : Service (List KafkaMessage)
service = record { relay = outbox; last_activity = 0; pending_gauge = 0 }

-- The mark of the second cycle fails; then a row is added, and a purge runs.
abbrev life : List Step
life =
    cycle (clean 10)
    ∷ cycle (record (clean 11) { faults = some 1 })
    ∷ row_added (row 4)
    ∷ purge_tick false 12
    ∷ count_tick false
    ∷ []

life_example : Safe kafka outbox (run_relay kafka in_order 1 life service).1.relay
life_example = run_relay-Safe kafka in_order 1 life service outbox-Sent

drained_example :
    ((run_relay kafka in_order (relay_batch_size (some 1)) (clean_cycles 9 3) service).0 ≡ true)
    × (count_pending
          (run_relay kafka in_order
            (relay_batch_size (some 1))
            (clean_cycles 9 3)
            service).1.relay.rows
        ≡ 0)
drained_example =
    run_relay-drain kafka in_order (λ ms log. refl) (some 1) 9 3 service (unfold all_free in refl)
      (unfold count_pending in omega arith)

-- A relay has claimed the first row; another one runs while it publishes.
abbrev claiming : Service (List KafkaMessage)
claiming = record service { relay = record outbox { rows = set_claimed 10 (1 ∷ []) outbox.rows } }

abbrev meanwhile : List Step
meanwhile = other_cycle (clean 20) ∷ row_added (row 4) ∷ count_tick false ∷ []

row_unclaimed : (not (has_id 4 (1 ∷ [])) && true) ≡ true
unfolding has_id
row_unclaimed = refl

exclusive_example :
    has_id 1 (
      pick unlocked 30 claim_timeout 5 (run_relay kafka in_order 5 meanwhile claiming).1.relay.rows)
    ≡ false
exclusive_example =
    run_relay-exclusive kafka in_order 5 10 (1 ∷ []) outbox.rows meanwhile claiming unlocked 30 1
      refl row_unclaimed (omega arith) (unfold has_id in refl)

abbrev pub client : World (List KafkaMessage)
client = record {
  db = empty_db;
  gateway = [];
  faults = none;
  journaled = true;
  fresh = start.fresh;
  drawn = 0;
  clock = start.clock;
  traceparent = "";
}

creates : (create_order (publish_event kafka) "o1" client).0 ≡ ok tt
unfolding create_order publish_event
creates = refl

ordered_example : Announced kafka client (create_order (publish_event kafka) "o1" client).1 "o1"
ordered_example = create_order-Announced kafka client "o1" creates
