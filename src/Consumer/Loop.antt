-- ===== src/Consumer/Loop.antt =====
-- The loop of a consumer over any sequence of passes.
use workers_kafka.Consumer.Passes.{got_of, turn-Passed}
use workers_kafka.Prelude.{
  append_nil, append_assoc, some-injective, ◌<◌, ◌≡◌, ◌≢◌, refl, sym, subst, ap, ◌∙◌, ◌⊎◌, inl, inr,
  List, [], ◌∷◌, ◌++◌, Option, none, some, Bool, true, false, arith, length,
}
use workers_kafka.Domain.{Event}
use workers_kafka.Errors.{Error, Result, err, is_non_retryable}
use workers_kafka.Consumer.{
  DeadLetter, panicked, proceed, Message, got, Turn, Consumer, ConsumerError, handler_failed,
  after_handler, handle_message, process_message, turn_on, turn, consume, validate_schema_version,
  move_to_dlq,
}
use workers_kafka.Consumer.Settled.{AllSettled, then_message, no_message, Tried, untouched, tried}
use workers_kafka.Consumer.Delivery.{Books, Small}
use workers_kafka.Consumer.Passed.{Passed, goes_on, stops}

-- The messages that a sequence of passes fetched.
abbrev pub fetched_in : List Turn → List Message
fetched_in [] = []
fetched_in (t ∷ ts) = got_of t.fetched ++ fetched_in ts

module _ {S : Type 0} (handler : Event → S → Result (Unit {0}) × S) where
  -- A sequence of passes, after the messages `l`, dealt with the first messages that it fetched, in
  -- order: all of them, unless the loop returned an error.
  pub record InOrder (ts : List Turn) (l : List Message) (c : Consumer S)
      (o : Option ConsumerError × Consumer S) : Type 0 where
    pub done : List Message
    pub rest : List Message
    pub split : fetched_in ts ≡ done ++ rest
    pub state : S
    pub settled : AllSettled handler done c.handled c.dead state o.1.dead
    pub after : Tried handler rest state o.1.handled
    pub books : Books (l ++ done) o.1
    pub all : ((rest ≡ []) × (o.1.handled ≡ state)) ⊎ (o.0 ≢ none)
    pub unbroken : o.0 ≢ some panicked

  append-AllSettled :
      (l k : List Message) (s t u : S) {d f g : List DeadLetter}
      → AllSettled handler l s d t f
      → AllSettled handler k t f u g
      → AllSettled handler (l ++ k) s d u g
  append-AllSettled _ k s t u no_message b = b
  append-AllSettled _ k s t u (then_message {l = l} {s' = s'} x a) b =
      then_message x (append-AllSettled l k s' t u a b)

  append-Tried : (l k : List Message) (s t : S) → Tried handler l s t → Tried handler (l ++ k) s t
  append-Tried l k s t untouched = untouched
  append-Tried _ k s t (tried v x) = tried v x

module _ {S : Type 0} (has_dlq : Bool) (handler : Event → S → Result (Unit {0}) × S) where
  proceed-InOrder :
      (t : Turn) (ts : List Turn) (l : List Message) (c : Consumer S)
      (o : Option ConsumerError × Consumer S)
      → ((k : List Message) (c' : Consumer S)
          → Books k c'
          → InOrder handler ts k c' (consume has_dlq handler ts c'))
      → Passed handler l (got_of t.fetched) c.handled c o
      → InOrder handler (t ∷ ts) l c (proceed (consume has_dlq handler ts) o)
  proceed-InOrder t ts l c _ later (goes_on {c'} b e k) =
      let f = got_of t.fetched in
      let i = later (l ++ f) c' b in
      record {
        done = f ++ i.done;
        rest = i.rest;
        split = ap (λ (x : List Message). f ++ x) i.split ∙ sym (append_assoc f i.done i.rest);
        state = i.state;
        settled = append-AllSettled handler f i.done c.handled c'.handled i.state e i.settled;
        after = i.after;
        books =
            subst (λ (x : List Message). Books x (consume has_dlq handler ts c').1)
              (append_assoc l f i.done) i.books;
        all = i.all;
        unbroken = i.unbroken;
      }
  proceed-InOrder t ts l c _ later (stops {e} {c'} b d x n) = record {
    done = [];
    rest = fetched_in (t ∷ ts);
    split = refl;
    state = c.handled;
    settled = subst (λ y. AllSettled handler [] c.handled c.dead c.handled y) (sym d) no_message;
    after = append-Tried handler (got_of t.fetched) (fetched_in ts) c.handled c'.handled x;
    books = subst (λ (x : List Message). Books x c') (sym (append_nil l)) b;
    all = inr (λ h. cc);
    unbroken = λ h. n (some-injective _ _ h);
  }

  -- From a consumer that has dealt with the messages `l` and has its books in order, and over any
  -- sequence of passes: the first messages fetched have been dealt with, one after the other in the
  -- order they were fetched, each by the handler without an error, or by a dead letter on the dead
  -- letter topic of its topic because the handler reported a definitive error, or the message does not decode, or
  -- its schema version is another one; no other dead letter was written. These are all messages
  -- fetched, and the state of the handler is the one they leave, unless the loop returned an error;
  -- of the others at most the first was handed to the handler. The loop itself does not panic. Only
  -- messages dealt with, of `l` or of these, are committed or kept for a commit, and the batcher
  -- counts the kept ones.
  pub consume-InOrder :
      (ts : List Turn) (l : List Message) (c : Consumer S)
      → Books l c
      → InOrder handler ts l c (consume has_dlq handler ts c)
  unfolding consume
  consume-InOrder [] l c b = record {
    done = [];
    rest = [];
    split = refl;
    state = c.handled;
    settled = no_message;
    after = untouched;
    books = subst (λ (x : List Message). Books x c) (sym (append_nil l)) b;
    all = inl (refl, refl);
    unbroken = λ h. cc;
  }
  consume-InOrder (t ∷ ts) l c b =
      proceed-InOrder t ts l c _ (consume-InOrder ts) (turn-Passed has_dlq handler t l c b)

  proceed-Small :
      (l f : List Message) (ts : List Turn) (c : Consumer S) (o : Option ConsumerError × Consumer S)
      → ((k : List Message) (c' : Consumer S)
          → Books k c'
          → Small c'
          → (consume has_dlq handler ts c').0 ≡ none
          → Small (consume has_dlq handler ts c').1)
      → Passed handler l f c.handled c o
      → Small c
      → (proceed (consume has_dlq handler ts) o).0 ≡ none
      → Small (proceed (consume has_dlq handler ts) o).1
  proceed-Small l f ts c _ later (goes_on {c'} b e k) s h = later _ c' b (k s) h
  proceed-Small l f ts c _ later (stops b d x n) s h = cc

  consume-Small :
      (ts : List Turn) (l : List Message) (c : Consumer S)
      → Books l c
      → Small c
      → (consume has_dlq handler ts c).0 ≡ none
      → Small (consume has_dlq handler ts c).1
  unfolding consume
  consume-Small [] l c b s h = s
  consume-Small (t ∷ ts) l c b s h =
      proceed-Small l _ ts c _ (consume-Small ts) (turn-Passed has_dlq handler t l c b) s h

  -- From a consumer with its books in order and less than a batch of messages kept: as long as the
  -- loop runs, less than a batch of messages waits for a commit after every pass.
  pub consume-bounded :
      (ts : List Turn) (l : List Message) (c : Consumer S)
      → Books l c
      → Small c
      → (consume has_dlq handler ts c).0 ≡ none
      → length (consume has_dlq handler ts c).1.pending_commits
        < (consume has_dlq handler ts c).1.batcher.batch
  consume-bounded ts l c b s h =
      omega (arith, consume-Small ts l c b s h, (consume-InOrder ts l c b).books.counted)

  -- A message with a known schema version whose handler reports an error that is not definitive is
  -- not committed, kept or moved: the pass returns the error.
  pub transient_error-stops :
      (t : Turn) (m : Message) (event : Event) (e : Error) (c : Consumer S)
      → t.fetched ≡ got m
      → m.value ≡ some event
      → validate_schema_version event ≡ true
      → (handler event c.handled).0 ≡ err e
      → is_non_retryable e ≡ false
      → turn has_dlq handler t c
        ≡ (some (handler_failed e), record c { handled = (handler event c.handled).1 })
  unfolding turn turn_on process_message handle_message after_handler move_to_dlq
  transient_error-stops t m event e c f v k h n = rw f (rw v (rw k (rw h (ground (arith, n)))))
