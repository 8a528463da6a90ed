-- ===== src/Consumer/Passes.antt =====
-- One pass of the loop of a consumer.
use workers_kafka.Prelude.{
  append_nil, ◌≡◌, ◌≢◌, refl, sym, subst, ap, ◌∙◌, List, [], ◌∷◌, ◌++◌, Option, none, some, Bool,
  true, false, arith, ◌||◌,
}
use workers_kafka.Domain.{Event, current_schema_version}
use workers_kafka.Errors.{malformed_event, bad_schema, Result, ok, err, non_retryable}
use workers_kafka.Consumer.{
  malformed_message, unsupported_schema, panicked, reconnect, Message, Fetched, got, fetch_error,
  FetchError, Turn, Consumer, ConsumerError, flush, after_handler, handle_message, process_message,
  fetch_failure, turn_on, turn, should_retry_fetch, validate_schema_version, DeadLetter,
}
use workers_kafka.Consumer.Channels.{reconnect-at, reconnected, reconnected-StopsOk}
use workers_kafka.Consumer.Settled.{
  Settled, handled, refused, unreadable, foreign, no_message, Tried, untouched, tried, AllSettled,
  with_letter,
}
use workers_kafka.Consumer.Delivery.{Books, flush-at, keep_offset-Took, with_handled-Books}
use workers_kafka.Consumer.Passed.{
  Passed, goes_on, stops, Took-Passed, move_to_dlq-Passed, if-Passed,
}

abbrev pub got_of : Fetched → List Message
got_of (got m) = m ∷ []
got_of (fetch_error e) = []

module _ {S : Type 0} where
  pub reconnected-Books :
      (t : Turn) (l : List Message) (c : Consumer S) → Books l c → Books l (reconnected (flush t c))
  reconnected-Books t l c b =
      let (books, _, _, empty, batch) = flush-at t c l _ refl b in
      let ok = reconnected-StopsOk (flush t c) books.channels in
      record {
        committed = books.committed;
        kept = books.kept;
        counted = books.counted;
        channels = record { made = ok.made; closed = ok.closed };
      }

module _ {S : Type 0} (has_dlq : Bool) (handler : Event → S → Result (Unit {0}) × S) where
  after_handler-Passed :
      (t : Turn) (l : List Message) (m : Message) (event : Event) (r : Result (Unit {0})) (s s' : S)
      (c : Consumer S)
      → m.value ≡ some event
      → event.schema_version ≡ current_schema_version
      → handler event s ≡ (r, s')
      → c.handled ≡ s'
      → Books l c
      → Passed handler l (m ∷ []) s c (after_handler has_dlq handler t m r c)
  unfolding after_handler
  after_handler-Passed t l m event (ok tt) s s' c v k h same b =
      Took-Passed handler l m s c _
        (subst (λ (x : S). Settled handler m s c.dead x c.dead) (sym same) (handled v k h))
        (keep_offset-Took t l m c b)
  after_handler-Passed t l m event (err e) s s' c v k h same b =
      move_to_dlq-Passed handler has_dlq t l m e _ s c (λ x. cc x)
        (λ d.
          subst (λ (x : S). Settled handler m s c.dead x (with_letter m c.dead)) (sym same)
            (refused v k h d))
        (subst (λ (x : S). Tried handler (m ∷ []) s x) (ap (λ o. o.1) h ∙ sym same) (tried v k)) b

  drop_handled-Passed :
      (l f : List Message) (s s' : S) (c : Consumer S) (o : Option ConsumerError × Consumer S)
      → Passed handler l f s (record c { handled = s' }) o
      → Passed handler l f s c o
  drop_handled-Passed l f s s' c _ (goes_on b e k) = goes_on b e k
  drop_handled-Passed l f s s' c _ (stops b e x n) = stops b e x n

  handle_message-Passed :
      (t : Turn) (l : List Message) (m : Message) (event : Event) (c : Consumer S)
      → m.value ≡ some event
      → event.schema_version ≡ current_schema_version
      → Books l c
      → Passed handler l (m ∷ []) c.handled c (handle_message has_dlq handler t m event c)
  unfolding handle_message
  handle_message-Passed t l m event c v k b =
      let s' = (handler event c.handled).1 in
      drop_handled-Passed l (m ∷ []) c.handled s' c _ (
        after_handler-Passed t l m event _ c.handled s' (record c { handled = s' }) v k refl refl
          (with_handled-Books s' l c b))

  known-Passed :
      (b : Bool) (t : Turn) (l : List Message) (m : Message) (event : Event) (c : Consumer S)
      → m.value ≡ some event
      → validate_schema_version event ≡ b
      → Books l c
      → Passed handler l (m ∷ []) c.handled c (process_message has_dlq handler t m (some event) c)
  unfolding process_message validate_schema_version
  known-Passed true t l m event c v h b =
      rw h (handle_message-Passed t l m event c v (ground (arith, h)) b)
  known-Passed false t l m event c v h b = rw h (
      move_to_dlq-Passed handler has_dlq t l m (non_retryable bad_schema) unsupported_schema
        c.handled c (λ x. cc x) (λ x. foreign v (λ y. ground (arith, h, y))) untouched b)

  process_message-Passed :
      (t : Turn) (l : List Message) (m : Message) (value : Option Event) (c : Consumer S)
      → m.value ≡ value
      → Books l c
      → Passed handler l (m ∷ []) c.handled c (process_message has_dlq handler t m value c)
  unfolding process_message
  process_message-Passed t l m none c v b =
      move_to_dlq-Passed handler has_dlq t l m (non_retryable malformed_event) malformed_message
        c.handled c (λ x. cc x) (λ x. unreadable v) untouched b
  process_message-Passed t l m (some event) c v b = known-Passed _ t l m event c v refl b

  no_message-Books : (l : List Message) (c : Consumer S) → Books l c → Books (l ++ []) c
  no_message-Books l c b = subst (λ x. Books x c) (sym (append_nil l)) b

  no_message-AllSettled :
      (c c' : Consumer S)
      → c'.handled ≡ c.handled
      → c'.dead ≡ c.dead
      → AllSettled handler [] c.handled c.dead c'.handled c'.dead
  no_message-AllSettled c c' h d =
      subst (λ (s : S). AllSettled handler [] c.handled c.dead s c'.dead) (sym h)
        (subst (λ (x : List DeadLetter). AllSettled handler [] c.handled c.dead c.handled x) (sym d)
          no_message)

  flushed-Passed :
      (t : Turn) (l : List Message) (c : Consumer S) (e : ConsumerError)
      → e ≢ panicked
      → Books l c
      → Passed handler l [] c.handled c (some e, flush t c)
  flushed-Passed t l c e n b =
      let (books, same, dead, _, _) = flush-at t c l _ refl b in
      stops books dead (subst (λ (s : S). Tried handler [] c.handled s) (sym same) untouched) n

  reconnect-Passed :
      (t : Turn) (l : List Message) (c : Consumer S)
      → Books l c
      → Passed handler l [] c.handled c (reconnect (flush t c))
  reconnect-Passed t l c b =
      let (books, same, dead, empty, batch) = flush-at t c l _ refl b in
      rw (reconnect-at (flush t c) books.channels) (
        goes_on (no_message-Books l _ (reconnected-Books t l c b))
          (no_message-AllSettled c (reconnected (flush t c)) same dead)
          (λ s. omega (arith, s, empty, batch)))

  fetch_failure-Passed :
      (t : Turn) (l : List Message) (e : FetchError) (c : Consumer S)
      → Books l c
      → Passed handler l [] c.handled c (fetch_failure has_dlq handler t e c)
  unfolding fetch_failure
  fetch_failure-Passed t l e c b =
      if-Passed handler l [] c.handled c (t.stalled || t.context_done) (reconnect-Passed t l c b) (
        if-Passed handler l [] c.handled c (should_retry_fetch e)
          (if-Passed handler l [] c.handled c t.wait_cancelled
            (flushed-Passed t l c _ (λ x. cc x) b)
            (goes_on (no_message-Books l c b) no_message (λ s. s)))
          (flushed-Passed t l c _ (λ x. cc x) b))

  turn_on-Passed :
      (t : Turn) (l : List Message) (f : Fetched) (c : Consumer S)
      → Books l c
      → Passed handler l (got_of f) c.handled c (turn_on has_dlq handler t f c)
  unfolding turn_on
  turn_on-Passed t l (got m) c b = process_message-Passed t l m m.value c refl b
  turn_on-Passed t l (fetch_error e) c b = fetch_failure-Passed t l e c b

  pub turn-Passed :
      (t : Turn) (l : List Message) (c : Consumer S)
      → Books l c
      → Passed handler l (got_of t.fetched) c.handled c (turn has_dlq handler t c)
  unfolding turn
  turn-Passed t l c b = turn_on-Passed t l t.fetched c b
