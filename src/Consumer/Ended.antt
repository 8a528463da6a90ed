-- ===== src/Consumer/Ended.antt =====
-- A consumer whose context is done, whatever kafka-go still hands to it.
use workers_kafka.Prelude.{
  ℕ, suc, ◌+◌, ◌≡◌, refl, sym, ap, subst, List, [], ◌∷◌, Option, none, some, Bool, true, false,
  arith, ◌&&◌, if◌then◌else◌,
}
use workers_kafka.Domain.{Event}
use workers_kafka.Errors.{
  Error, Result, ok, err, is_non_retryable, non_retryable, malformed_event, bad_schema,
}
use workers_kafka.Consumer.Delivery.{Books, kept_message}
use workers_kafka.Consumer.Passed.{Passed, goes_on, stops}
use workers_kafka.Consumer.Passes.{turn-Passed}
use workers_kafka.Consumer.Lifetime.{is_failure, done-reconnects, flush-reconnects}
use workers_kafka.Consumer.{
  Message, Fetched, got, fetch_error, Turn, Consumer, ConsumerError, dlq_failed, malformed_message,
  unsupported_schema, handler_failed, proceed, flush, keep_offset, write_dead_letter, move_to_dlq,
  after_handler, handle_message, process_message, turn_on, turn, consume, validate_schema_version,
}

-- The context is done in all of these passes.
abbrev pub all_done : List Turn → Bool
all_done [] = true
all_done (t ∷ ts) = t.context_done && all_done ts

-- How many of the fetches fail.
abbrev pub failures : List Turn → ℕ
failures [] = 0
failures (t ∷ ts) = if is_failure t.fetched then suc (failures ts) else failures ts

-- The errors that a message leads to.
abbrev pub is_of_message : ConsumerError → Bool
is_of_message dlq_failed = true
is_of_message malformed_message = true
is_of_message unsupported_schema = true
is_of_message (handler_failed e) = true
is_of_message _ = false

-- After as many reconnections: the loop runs, or a message has ended it.
pub data Ended {S : Type 0} (n : ℕ) : Option ConsumerError × Consumer S → Type 0 where
  runs : {c : Consumer S} → c.reconnects ≡ n → Ended n (none, c)
  ended : {e : ConsumerError} {c : Consumer S} → is_of_message e ≡ true → Ended n (some e, c)

module _ {S : Type 0} where
  flush_if-reconnects :
      (b : Bool) (t : Turn) (c : Consumer S)
      → (if b then flush t c else c).reconnects ≡ c.reconnects
  flush_if-reconnects true t c = flush-reconnects t c c.pending_commits refl
  flush_if-reconnects false t c = refl

  keep_offset-reconnects :
      (t : Turn) (m : Message) (c : Consumer S) → (keep_offset t m c).reconnects ≡ c.reconnects
  unfolding keep_offset
  keep_offset-reconnects t m c = flush_if-reconnects _ t (kept_message m c)

  letter-Ended :
      (t : Turn) (m : Message) (c : Consumer S) (b : Bool)
      → t.dlq_accepts ≡ b
      → Ended c.reconnects (write_dead_letter t m c)
  unfolding write_dead_letter
  letter-Ended t m c true h = rw h (runs refl)
  letter-Ended t m c false h = rw h (ended refl)

  if-Ended :
      (n : ℕ) (b : Bool) {o p : Option ConsumerError × Consumer S}
      → Ended n o
      → Ended n p
      → Ended n (if b then o else p)
  if-Ended n true x y = x
  if-Ended n false x y = y

  move_to_dlq-Ended :
      (has_dlq : Bool) (t : Turn) (m : Message) (e : Error) (unmoved : ConsumerError)
      (c : Consumer S)
      → is_of_message unmoved ≡ true
      → Ended c.reconnects (move_to_dlq has_dlq t m e unmoved c)
  unfolding move_to_dlq
  move_to_dlq-Ended has_dlq t m e unmoved c h =
      if-Ended c.reconnects (has_dlq && is_non_retryable e) (letter-Ended t m c _ refl) (ended h)

module _ {S : Type 0} (has_dlq : Bool) (handler : Event → S → Result (Unit {0}) × S) where
  after_handler-Ended :
      (t : Turn) (m : Message) (r : Result (Unit {0})) (c : Consumer S)
      → Ended c.reconnects (after_handler has_dlq handler t m r c)
  unfolding after_handler
  after_handler-Ended t m (ok tt) c = runs (keep_offset-reconnects t m c)
  after_handler-Ended t m (err e) c = move_to_dlq-Ended has_dlq t m e _ c refl

  process_message-Ended :
      (t : Turn) (m : Message) (value : Option Event) (c : Consumer S)
      → Ended c.reconnects (process_message has_dlq handler t m value c)
  unfolding process_message handle_message
  process_message-Ended t m none c =
      move_to_dlq-Ended has_dlq t m (non_retryable malformed_event) malformed_message c refl
  process_message-Ended t m (some event) c =
      if-Ended c.reconnects (validate_schema_version event)
        (after_handler-Ended t m (handler event c.handled).0
          (record c { handled = (handler event c.handled).1 }))
        (move_to_dlq-Ended has_dlq t m (non_retryable bad_schema) unsupported_schema c refl)

  done-Ended :
      (t : Turn) (l : List Message) (f : Fetched) (c : Consumer S)
      → Books l c
      → t.context_done ≡ true
      → Ended
          (if is_failure f then suc c.reconnects else c.reconnects)
          (turn_on has_dlq handler t f c)
  unfolding turn_on
  done-Ended t l (got m) c b d = process_message-Ended t m m.value c
  done-Ended t l (fetch_error e) c b d =
      subst (Ended (suc c.reconnects))
        (sym (done-reconnects has_dlq handler t l (fetch_error e) c b d refl))
        (runs (ap suc (flush-reconnects t c c.pending_commits refl)))

  turn-Ended :
      (t : Turn) (l : List Message) (c : Consumer S)
      → Books l c
      → t.context_done ≡ true
      → Ended
          (if is_failure t.fetched then suc c.reconnects else c.reconnects)
          (turn has_dlq handler t c)
  unfolding turn
  turn-Ended t l c b d = done-Ended t l t.fetched c b d

  proceed-Ended :
      (ts : List Turn) (l f : List Message) (n k : ℕ) (c : Consumer S)
      (o : Option ConsumerError × Consumer S)
      → ((x : List Message) (c' : Consumer S)
          → Books x c'
          → Ended (c'.reconnects + k) (consume has_dlq handler ts c'))
      → Passed handler l f c.handled c o
      → Ended n o
      → Ended (n + k) (proceed (consume has_dlq handler ts) o)
  proceed-Ended ts l f n k c _ later (goes_on {c'} b a s) (runs h) =
      subst (λ (x : ℕ). Ended (x + k) (consume has_dlq handler ts c')) h (later _ c' b)
  proceed-Ended ts l f n k c _ later (stops b d x u) (ended h) = ended h

  counted-failures :
      (b : Bool) (n k : ℕ) → (if b then suc n else n) + k ≡ n + (if b then suc k else k)
  counted-failures true n k = omega arith
  counted-failures false n k = omega arith

  -- Over any passes after the consumer's context is done, whatever messages kafka-go still hands out:
  -- that the context is done never ends the loop. It returns an error only for a message, one that
  -- its handler or the dead letter queue failed on, that does not decode or has another schema
  -- version; as long as it runs it has opened one more reader for every fetch that failed.
  pub shut_down-Ended :
      (ts : List Turn) (l : List Message) (c : Consumer S)
      → Books l c
      → all_done ts ≡ true
      → Ended (c.reconnects + failures ts) (consume has_dlq handler ts c)
  unfolding consume
  shut_down-Ended [] l c b h = runs (omega arith)
  shut_down-Ended (t ∷ ts) l c b h =
      let now : t.context_done ≡ true = ground (arith, h) in
      let rest : all_done ts ≡ true = ground (arith, h) in
      subst (λ (n : ℕ). Ended n (proceed (consume has_dlq handler ts) (turn has_dlq handler t c)))
        (counted-failures (is_failure t.fetched) c.reconnects (failures ts))
        (proceed-Ended ts l _ _ (failures ts) c _ (λ x c' k. shut_down-Ended ts x c' k rest)
          (turn-Passed has_dlq handler t l c b) (turn-Ended t l c b now))
