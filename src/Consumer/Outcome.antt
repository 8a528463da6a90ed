-- ===== src/Consumer/Outcome.antt =====
-- What one delivery of a message comes to, by what its handler returns.
use workers_kafka.Prelude.{
  ◌≡◌, refl, sym, ap, subst, List, [], ◌∷◌, Option, none, some, Bool, true, false, not,
  if◌then◌else◌,
}
use workers_kafka.Domain.{Event}
use workers_kafka.Errors.{Result, ok, err, Error, is_non_retryable}
use workers_kafka.Consumer.{
  Message, Turn, got, Consumer, ConsumerError, turn, turn_on, process_message, handle_message,
  after_handler, move_to_dlq, write_dead_letter, keep_offset, flush, validate_schema_version,
}

-- An error that may pass: the message is not given up.
abbrev pub is_transient : Result (Unit {0}) → Bool
is_transient (ok tt) = false
is_transient (err e) = not (is_non_retryable e)

abbrev pub has_returned : Option ConsumerError → Bool
has_returned none = false
has_returned (some e) = true

-- The message arrives, and the broker takes dead letters.
abbrev pub arrives : Turn → Message → Turn
arrives t m = record t { fetched = got m; dlq_accepts = true }

module _ {S : Type 0} where
  -- After the pass the handler's state is `s`, and the loop has returned just when the error may
  -- pass; otherwise the message is settled.
  pub record Came (m : Message) (c : Consumer S) (r : Result (Unit {0})) (s : S)
      (o : Option ConsumerError × Consumer S) : Type 0 where
    pub stopped : has_returned o.0 ≡ is_transient r
    pub state : o.1.handled ≡ s

  flush-same :
      (t : Turn) (c : Consumer S) (l : List Message)
      → c.pending_commits ≡ l
      → (flush t c).handled ≡ c.handled
  unfolding flush
  flush-same t c [] h = rw h refl
  flush-same t c (m ∷ l) h = rw h refl

  flush_if-same :
      (b : Bool) (t : Turn) (c : Consumer S) → (if b then flush t c else c).handled ≡ c.handled
  flush_if-same true t c = flush-same t c c.pending_commits refl
  flush_if-same false t c = refl

module _ {S : Type 0} (handler : Event → S → Result (Unit {0}) × S) where
  refused-Came :
      (t : Turn) (m : Message) (e : Error) (c : Consumer S) (b : Bool)
      → is_non_retryable e ≡ b
      → Came m c (err e) c.handled (after_handler true handler (arrives t m) m (err e) c)
  unfolding after_handler move_to_dlq write_dead_letter
  refused-Came t m e c true h = rw h (record { stopped = sym (ap not h); state = refl })
  refused-Came t m e c false h = rw h (record { stopped = sym (ap not h); state = refl })

  after_handler-Came :
      (t : Turn) (m : Message) (r : Result (Unit {0})) (c : Consumer S)
      → Came m c r c.handled (after_handler true handler (arrives t m) m r c)
  unfolding after_handler keep_offset
  after_handler-Came t m (ok tt) c = record {
    stopped = refl;
    state = flush_if-same _ (arrives t m) _;
  }
  after_handler-Came t m (err e) c = refused-Came t m e c (is_non_retryable e) refl

  with_state-Came :
      (m : Message) (c : Consumer S) (s : S) (r : Result (Unit {0}))
      (o : Option ConsumerError × Consumer S)
      → Came m (record c { handled = s }) r s o
      → Came m c r s o
  with_state-Came m c s r o h = record { stopped = h.stopped; state = h.state }

  known-Came :
      (t : Turn) (m : Message) (event : Event) (c : Consumer S)
      → validate_schema_version event ≡ true
      → Came m c
          (handler event c.handled).0
          (handler event c.handled).1
          (process_message true handler (arrives t m) m (some event) c)
  unfolding process_message handle_message
  known-Came t m event c k =
      let (r, s) = handler event c.handled in
      rw k (with_state-Came m c s r _ (after_handler-Came t m r (record c { handled = s })))

  -- A message with a known schema version, delivered to a consumer whose broker takes dead letters.
  pub turn-Came :
      (t : Turn) (m : Message) (event : Event) (c : Consumer S)
      → m.value ≡ some event
      → validate_schema_version event ≡ true
      → Came m c
          (handler event c.handled).0
          (handler event c.handled).1
          (turn true handler (arrives t m) c)
  unfolding turn turn_on
  turn-Came t m event c v k =
      subst
        (λ (x : Option Event).
          Came m c (handler event c.handled).0 (handler event c.handled).1
            (process_message true handler (arrives t m) m x c))
        (sym v) (known-Came t m event c k)
