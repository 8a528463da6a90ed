-- ===== src/Consumer/Lifetime.antt =====
-- How a consumer starts, and what it does once its context is done.
use workers_kafka.Prelude.{
  ℕ, ◌+◌, ◌≤◌, ◌<◌, ◌≡◌, refl, List, [], ◌∷◌, Option, none, some, Bool, true, false, arith, length,
  ◌||◌, ◌&&◌,
}
use workers_kafka.Domain.{Event}
use workers_kafka.Errors.{Result}
use workers_kafka.Consumer.Channels.{reconnect-at, reconnected, returned, leave-returned}
use workers_kafka.Consumer.Delivery.{Books, flush-at}
use workers_kafka.Consumer.Loop.{consume-InOrder}
use workers_kafka.Consumer.Passes.{reconnected-Books}
use workers_kafka.Consumer.{
  consume_worker, Message, Fetched, got, fetch_error, Turn, Consumer, flush, turn, turn_on,
  fetch_failure, consume, configured_batcher, commit_batch_from_env, commit_interval_from_env,
}

-- Whatever is configured or stands in the environment, the batcher of a consumer starts empty, with
-- a batch of at least one message and an interval of at least 10 milliseconds.
pub configured_batcher-bounds :
    (commit_batch commit_interval : ℕ) (env_batch env_interval : Option ℕ) (now : ℕ)
    → let b = configured_batcher commit_batch commit_interval env_batch env_interval now in
      (b.pending < b.batch) × (b.pending ≡ 0) × (10 ≤ b.interval)
unfolding configured_batcher commit_batch_from_env commit_interval_from_env
configured_batcher-bounds batch interval none none now = ground arith
configured_batcher-bounds batch interval none (some d) now = ground arith
configured_batcher-bounds batch interval (some n) none now = ground arith
configured_batcher-bounds batch interval (some n) (some d) now = ground arith

abbrev pub is_failure : Fetched → Bool
is_failure (got m) = false
is_failure (fetch_error e) = true

-- Passes after the consumer's context is done, in which every fetch fails.
abbrev pub is_shut_down : List Turn → Bool
is_shut_down [] = true
is_shut_down (t ∷ ts) = t.context_done && is_failure t.fetched && is_shut_down ts

module _ {S : Type 0} where
  pub flush-reconnects :
      (t : Turn) (c : Consumer S) (l : List Message)
      → c.pending_commits ≡ l
      → (flush t c).reconnects ≡ c.reconnects
  unfolding flush
  flush-reconnects t c [] h = rw h refl
  flush-reconnects t c (m ∷ l) h = rw h refl

module _ {S : Type 0} (has_dlq : Bool) (handler : Event → S → Result (Unit {0}) × S) where
  pub done-reconnects :
      (t : Turn) (l : List Message) (f : Fetched) (c : Consumer S)
      → Books l c
      → t.context_done ≡ true
      → is_failure f ≡ true
      → turn_on has_dlq handler t f c ≡ (none, reconnected (flush t c))
  unfolding turn_on fetch_failure
  done-reconnects t l (got m) c b d f = cc
  done-reconnects t l (fetch_error e) c b d f =
      let known : (t.stalled || t.context_done) ≡ true = ground (arith, d) in
      let (books, _, _, _, _) = flush-at t c l _ refl b in
      rw known (reconnect-at (flush t c) books.channels)

  pub turn-reconnects :
      (t : Turn) (l : List Message) (c : Consumer S)
      → Books l c
      → t.context_done ≡ true
      → is_failure t.fetched ≡ true
      → turn has_dlq handler t c ≡ (none, reconnected (flush t c))
  unfolding turn
  turn-reconnects t l c b d f = done-reconnects t l t.fetched c b d f

  -- Over any passes after the consumer's context is done in which every fetch fails, the loop does not
  -- return: it takes the end of the fetch for a stall, and every pass opens one more reader.
  pub shut_down-reconnects :
      (ts : List Turn) (l : List Message) (c : Consumer S)
      → Books l c
      → is_shut_down ts ≡ true
      → ((consume has_dlq handler ts c).0 ≡ none)
        × ((consume has_dlq handler ts c).1.reconnects ≡ c.reconnects + length ts)
  unfolding consume
  shut_down-reconnects [] l c b h = (refl, omega arith)
  shut_down-reconnects (t ∷ ts) l c b h =
      let done : t.context_done ≡ true = ground (arith, h) in
      let failing : is_failure t.fetched ≡ true = ground (arith, h) in
      let rest : is_shut_down ts ≡ true = ground (arith, h) in
      let goes = turn-reconnects t l c b done failing in
      let (on, more) =
        shut_down-reconnects ts l (reconnected (flush t c)) (reconnected-Books t l c b) rest in
      rw goes (on, omega (arith, flush-reconnects t c c.pending_commits refl, more))

  -- From a consumer with its books in order: a goroutine whose loop returns an error returns that
  -- error if it never reconnected, and panics if it did, on the channel that its first reconnection
  -- closed.
  pub consume_worker-returned :
      (ts : List Turn) (l : List Message) (c : Consumer S)
      → Books l c
      → (consume_worker has_dlq handler ts c).0
        ≡ returned (consume has_dlq handler ts c).1.reconnects (consume has_dlq handler ts c).0
  unfolding consume_worker
  consume_worker-returned ts l c b =
      leave-returned (consume has_dlq handler ts c)
        (consume-InOrder has_dlq handler ts l c b).books.channels
