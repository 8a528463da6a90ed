-- ===== src/Scenarios/Deliveries.antt =====
-- The consumer's theorems, with a handler that refuses the order "bad" for good and the order
-- "later" for now.
use workers_kafka.Prelude.{
  In-nil, ℕ, suc, ◌+◌, ◌<◌, arith, ◌≡◌, refl, String, List, [], ◌∷◌, none, some, true, false,
  length, str_eq, if◌then◌else◌,
}
use workers_kafka.Domain.{Event}
use workers_kafka.Errors.{Result, ok, err, non_retryable, bad_command, database}
use workers_kafka.Consumer.{
  Message, Fetched, got, fetch_error, other_fetch_error, Turn, Consumer, consume,
  new_commit_batcher,
}
use workers_kafka.Consumer.Delivery.{Books}
use workers_kafka.Consumer.Loop.{InOrder, consume-InOrder, consume-bounded}
use workers_kafka.Consumer.Lifetime.{shut_down-reconnects}
use workers_kafka.Consumer.Ended.{Ended, failures, shut_down-Ended}
use workers_kafka.Scenarios.{created}

-- Tests.
abbrev pub handler : Event → ℕ → Result (Unit {0}) × ℕ
handler event n = (
  if str_eq event.order_id "bad"
      then err (non_retryable bad_command)
      else if str_eq event.order_id "later"
      then err database
      else ok tt,
  suc n,
)

abbrev pub of_order : String → Message
of_order order_id = record {
  topic = "orders.created";
  key = order_id;
  offset = 0;
  value = some (record created { order_id = order_id });
}

abbrev pub passing : Fetched → Turn
passing fetched = record {
  context_done = false;
  stalled = false;
  fetched = fetched;
  wait_cancelled = false;
  dlq_accepts = true;
  commit_accepts = true;
  now = 0;
}

abbrev pub ended : Turn
ended = record (passing (fetch_error other_fetch_error)) { context_done = true }

abbrev pub new_consumer : Consumer ℕ
new_consumer = record {
  handled = 0;
  pending_commits = [];
  batcher = new_commit_batcher 2 200 0;
  committed = [];
  dead = [];
  reconnects = 0;
  stall_stop = 0;
  closed_stops = [];
}

pub new_consumer-Books : Books [] new_consumer
new_consumer-Books = record {
  committed = λ m i. In-nil m [] i;
  kept = λ m i. In-nil m [] i;
  counted = refl;
  channels = record { made = refl; closed = refl };
}

abbrev some_turns : List Turn
some_turns =
    passing (got (of_order "a"))
    ∷ passing (got (of_order "bad"))
    ∷ passing (got (of_order "b"))
    ∷ passing (got (of_order "c"))
    ∷ []

-- The theorems at this consumer.
settled_example :
    InOrder handler some_turns [] new_consumer (consume true handler some_turns new_consumer)
settled_example = consume-InOrder true handler some_turns [] new_consumer new_consumer-Books

bounded_example :
    length (consume true handler some_turns new_consumer).1.pending_commits
    < (consume true handler some_turns new_consumer).1.batcher.batch
unfolding consume
bounded_example =
    consume-bounded true handler some_turns [] new_consumer new_consumer-Books (omega arith) refl

ended_example :
    ((consume true handler (ended ∷ ended ∷ []) new_consumer).0 ≡ none)
    × ((consume true handler (ended ∷ ended ∷ []) new_consumer).1.reconnects
        ≡ new_consumer.reconnects + length (ended ∷ ended ∷ []))
ended_example =
    shut_down-reconnects true handler (ended ∷ ended ∷ []) [] new_consumer new_consumer-Books refl

abbrev last_message : Turn
last_message = record (passing (got (of_order "later"))) { context_done = true }

last_message_example :
    Ended
      (new_consumer.reconnects + failures (ended ∷ last_message ∷ []))
      (consume true handler (ended ∷ last_message ∷ []) new_consumer)
last_message_example =
    shut_down-Ended true handler (ended ∷ last_message ∷ []) [] new_consumer new_consumer-Books refl
