-- ===== src/Consumer.antt =====
-- One consuming goroutine: internal/infrastructure/kafka/consumer.go, the dead letter topics of
-- topics.go, and the settings of env.go that it reads. kafka-go is outside: a `Turn` says what it
-- answers during one pass of the loop.
pub mod Settled
pub mod Delivery
pub mod Passed
pub mod Passes
pub mod Loop
pub mod Channels
pub mod Lifetime
pub mod Ended
pub mod Watchdog
pub mod Outcome
pub mod Group
use workers_kafka.Prelude.{
  ℕ, zero, suc, ◌-◌, String, List, [], ◌∷◌, ◌++◌, Option, none, some, Bool, true, false, not, ◌&&◌,
  ◌||◌, ltb, leb, ◌==◌, if◌then◌else◌,
}
use workers_kafka.Domain.{Event, current_schema_version}
use workers_kafka.Errors.{
  Error, Result, ok, err, non_retryable, malformed_event, bad_schema, is_non_retryable,
}
use workers_kafka.Topics.{dlq_topic_for}

-- A Kafka message. `value` is what `json.Unmarshal` makes of its bytes, `none` where it fails.
pub record Message : Type 0 where
  pub topic : String
  pub key : String
  pub offset : ℕ
  pub value : Option Event

-- What is written to a dead letter topic.
pub record DeadLetter : Type 0 where
  pub topic : String
  pub key : String
  pub value : Option Event

-- The errors of a fetch that the code tells apart.
pub data FetchError : Type 0 where
  unknown_topic_or_partition leader_not_available not_leader_for_partition : FetchError
  broker_not_available group_coordinator_not_available not_coordinator_for_group : FetchError
  group_load_in_progress rebalance_in_progress unknown_member_id : FetchError
  other_fetch_error : FetchError

unfoldable pub should_retry_fetch : FetchError → Bool
should_retry_fetch other_fetch_error = false
should_retry_fetch _ = true

pub data Fetched : Type 0 where
  got : Message → Fetched
  fetch_error : FetchError → Fetched

-- What happens around one pass of the loop: whether the consumer's context is done, whether the
-- watchdog cancelled the fetch, what the fetch answers, whether the context is cancelled during the
-- wait for a retry, whether the broker takes the dead letter and the commit, and the clock.
pub record Turn : Type 0 where
  pub context_done : Bool
  pub stalled : Bool
  pub fetched : Fetched
  pub wait_cancelled : Bool
  pub dlq_accepts : Bool
  pub commit_accepts : Bool
  pub now : ℕ

-- `commitBatcher`
pub record CommitBatcher : Type 0 where
  pub batch : ℕ
  pub interval : ℕ
  pub pending : ℕ
  pub last : ℕ

abbrev pub new_commit_batcher : ℕ → ℕ → ℕ → CommitBatcher
new_commit_batcher batch interval now = record {
  batch = batch;
  interval = interval;
  pending = 0;
  last = now;
}

unfoldable pub add : CommitBatcher → CommitBatcher
add b = record b { pending = suc b.pending }

-- The interval is positive, so the difference may stop at 0.
unfoldable pub should_flush : ℕ → CommitBatcher → Bool
should_flush now b = leb b.batch b.pending || leb b.interval (now - b.last)

unfoldable pub reset : ℕ → CommitBatcher → CommitBatcher
reset now b = record b { pending = 0; last = now }

-- The part of a consumer that a goroutine owns, with the state `S` of the handler. `committed` is
-- what the broker took a commit of, `dead` the dead letters that it took. The channels that stop its
-- watchdogs are numbered as they are made: `stall_stop` is that of the watchdog at work.
pub record Consumer (S : Type 0) : Type 0 where
  pub handled : S
  pub pending_commits : List Message
  pub batcher : CommitBatcher
  pub committed : List Message
  pub dead : List DeadLetter
  pub reconnects : ℕ
  pub stall_stop : ℕ
  pub closed_stops : List ℕ

-- The errors with which `consumeWorker` returns, and its panic.
pub data ConsumerError : Type 0 where
  fetch_failed wait_interrupted dlq_failed malformed_message unsupported_schema : ConsumerError
  handler_failed : Error → ConsumerError
  panicked : ConsumerError

unfoldable pub is_closed : ℕ → List ℕ → Bool
is_closed channel [] = false
is_closed channel (c ∷ rest) = if c == channel then true else is_closed channel rest

-- Go's `close`, which panics (`none`) on a closed channel.
unfoldable pub close_channel : ℕ → List ℕ → Option (List ℕ)
unfolding is_closed
close_channel channel closed = if is_closed channel closed then none else some (channel ∷ closed)

-- An environment variable: `none` where it is empty or not a number.
unfoldable pub commit_batch_from_env : Option ℕ → ℕ
commit_batch_from_env none = 50
commit_batch_from_env (some n) = if ltb n 1 then 50 else n

-- In milliseconds.
unfoldable pub commit_interval_from_env : Option ℕ → ℕ
commit_interval_from_env none = 200
commit_interval_from_env (some d) = if ltb d 10 then 200 else d

-- The batcher of a consumer that `NewConsumer` made.
unfoldable pub configured_batcher : ℕ → ℕ → Option ℕ → Option ℕ → ℕ → CommitBatcher
unfolding commit_batch_from_env commit_interval_from_env
configured_batcher commit_batch commit_interval env_batch env_interval now =
    new_commit_batcher
      (if ltb commit_batch 1 then commit_batch_from_env env_batch else commit_batch)
      (if ltb commit_interval 10 then commit_interval_from_env env_interval else commit_interval)
      now

unfoldable pub validate_schema_version : Event → Bool
validate_schema_version event = event.schema_version == current_schema_version

module _ {S : Type 0} where
  -- `flush`: the messages are dropped whether the commit succeeds or not.
  unfoldable pub flush : Turn → Consumer S → Consumer S
  unfolding reset
  flush t c = elim c.pending_commits [
    | [] ↦ c
    | m ∷ ms ↦ record c {
      pending_commits = [];
      batcher = reset t.now c.batcher;
      committed = if t.commit_accepts then c.committed ++ c.pending_commits else c.committed;
    }
  ]

  -- The watchdog is stopped, and a new reader gets a new one.
  unfoldable pub reconnect : Consumer S → Option ConsumerError × Consumer S
  unfolding close_channel
  reconnect c = elim (close_channel c.stall_stop c.closed_stops) [
    | none ↦ (some panicked, c)
    | some closed ↦ (
      none,
      record c {
        reconnects = suc c.reconnects;
        closed_stops = closed;
        stall_stop = suc c.stall_stop;
      },
    )
  ]

  -- The deferred `close(stallStop)`: its argument is that of the `defer` statement, the first
  -- channel.
  unfoldable pub leave : Option ConsumerError × Consumer S → Option ConsumerError × Consumer S
  unfolding close_channel
  leave (none, c) = (none, c)
  leave (some e, c) = elim (close_channel 0 c.closed_stops) [
    | none ↦ (some panicked, c)
    | some closed ↦ (some e, record c { closed_stops = closed })
  ]

  -- `moveToDLQ` once the error is known to be definitive and a writer is there; a commit that fails
  -- is logged.
  unfoldable pub write_dead_letter : Turn → Message → Consumer S → Option ConsumerError × Consumer S
  unfolding dlq_topic_for
  write_dead_letter t m c =
      if t.dlq_accepts
      then (
        none,
        record c {
          dead =
              c.dead
              ++ (record { topic = dlq_topic_for m.topic; key = m.key; value = m.value } ∷ []);
          committed = if t.commit_accepts then c.committed ++ (m ∷ []) else c.committed;
        },
      )
      else (some dlq_failed, c)

  -- `moveToDLQ`, and what the loop does with its answer: go on, or return `unmoved`.
  unfoldable pub move_to_dlq :
      Bool → Turn → Message → Error → ConsumerError → Consumer S → Option ConsumerError × Consumer S
  unfolding write_dead_letter
  move_to_dlq has_dlq t m error unmoved c =
      if has_dlq && is_non_retryable error then write_dead_letter t m c else (some unmoved, c)

  -- The end of a pass: the offset is kept for a commit, and the batch is committed when it is due.
  unfoldable pub keep_offset : Turn → Message → Consumer S → Consumer S
  unfolding add should_flush flush
  keep_offset t m c =
      let kept : Consumer S = record c {
        pending_commits = c.pending_commits ++ (m ∷ []);
        batcher = add c.batcher;
      } in
      if should_flush t.now kept.batcher then flush t kept else kept

  -- A pass that returned an error ends the loop.
  abbrev pub proceed :
      (Consumer S → Option ConsumerError × Consumer S)
      → Option ConsumerError × Consumer S
      → Option ConsumerError × Consumer S
  proceed next (some e, c) = (some e, c)
  proceed next (none, c) = next c

  module _ (has_dlq : Bool) (handler : Event → S → Result (Unit {0}) × S) where
    after_handler :
        Turn → Message → Result (Unit {0}) → Consumer S → Option ConsumerError × Consumer S
    unfolding keep_offset move_to_dlq
    after_handler t m (ok tt) c = (none, keep_offset t m c)
    after_handler t m (err e) c = move_to_dlq has_dlq t m e (handler_failed e) c

    -- An event whose contract is known goes to the handler.
    unfoldable pub handle_message :
        Turn → Message → Event → Consumer S → Option ConsumerError × Consumer S
    unfolding after_handler
    handle_message t m event c =
        let (result, s') = handler event c.handled in
        after_handler t m result (record c { handled = s' })

    unfoldable pub process_message :
        Turn → Message → Option Event → Consumer S → Option ConsumerError × Consumer S
    unfolding handle_message move_to_dlq validate_schema_version
    process_message t m none c =
        move_to_dlq has_dlq t m (non_retryable malformed_event) malformed_message c
    process_message t m (some event) c =
        if validate_schema_version event
        then handle_message t m event c
        else move_to_dlq has_dlq t m (non_retryable bad_schema) unsupported_schema c

    -- A pass whose fetch failed. The context of the fetch ends with the consumer's own.
    unfoldable pub fetch_failure :
        Turn → FetchError → Consumer S → Option ConsumerError × Consumer S
    unfolding flush should_retry_fetch reconnect
    fetch_failure t e c =
        if t.stalled || t.context_done
        then reconnect (flush t c)
        else if should_retry_fetch e
        then (if t.wait_cancelled then (some wait_interrupted, flush t c) else (none, c))
        else (some fetch_failed, flush t c)

    pub turn_on : Turn → Fetched → Consumer S → Option ConsumerError × Consumer S
    unfolding process_message fetch_failure
    turn_on t (got m) c = process_message t m m.value c
    turn_on t (fetch_error e) c = fetch_failure t e c

    -- One pass of the loop of `consumeWorker`.
    unfoldable pub turn : Turn → Consumer S → Option ConsumerError × Consumer S
    unfolding turn_on
    turn t c = turn_on t t.fetched c

    -- The passes until the loop returns.
    unfoldable pub consume : List Turn → Consumer S → Option ConsumerError × Consumer S
    unfolding turn
    consume [] c = (none, c)
    consume (t ∷ ts) c = proceed (consume ts) (turn t c)

    -- `consumeWorker`
    unfoldable pub consume_worker : List Turn → Consumer S → Option ConsumerError × Consumer S
    unfolding consume leave
    consume_worker ts c = leave (consume ts c)
