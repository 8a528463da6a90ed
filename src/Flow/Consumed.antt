-- ===== src/Flow/Consumed.antt =====
-- The deliveries of one message, as consumer.go makes them: a goroutine that returns an error ends the
-- process, and the message, which was not committed, comes again to the one that is started next.
use workers_kafka.Prelude.{ℕ, ◌≡◌, ap, ◌∙◌, List, [], ◌∷◌, Option, none, some, true, false, arith}
use workers_kafka.Domain.{Event}
use workers_kafka.Errors.{Result, ok, err, is_non_retryable}
use workers_kafka.Tx.{World, Tx}
use workers_kafka.Consumer.{Message, Turn, Consumer, ConsumerError, turn, validate_schema_version}
use workers_kafka.Consumer.Outcome.{turn-Came, arrives, is_transient, has_returned}
use workers_kafka.Flow.{with_faults, after_attempt, attempt}

-- What is left of a consumer whose process is started again; the books of what was settled go on.
abbrev pub restart : {S : Type 0} → Consumer S → Consumer S
restart c = record c {
  pending_commits = [];
  batcher = record c.batcher { pending = 0 };
  reconnects = 0;
  stall_stop = 0;
  closed_stops = [];
}

abbrev pub faults_of : List (Option ℕ × Turn) → List (Option ℕ)
faults_of [] = []
faults_of ((f, t) ∷ ds) = f ∷ faults_of ds

module _ {G : Type 0} (handler : Event → Tx G (Unit {0})) (m : Message) where
  abbrev deliver : Option ℕ → Turn → Consumer (World G) → Option ConsumerError × Consumer (World G)
  deliver f t c = turn true handler (arrives t m) (record c { handled = with_faults f c.handled })

  abbrev after_delivery :
      Option ConsumerError × Consumer (World G)
      → (Consumer (World G) → Consumer (World G))
      → Consumer (World G)
  after_delivery (none, c) again = c
  after_delivery (some e, c) again = again (restart c)

  -- One delivery with each of the faults, as long as the process ends, and then one with none.
  unfoldable pub deliveries :
      List (Option ℕ × Turn) → Turn → Consumer (World G) → Consumer (World G)
  deliveries [] last c = (deliver none last c).1
  deliveries ((f, t) ∷ ds) last c = after_delivery (deliver f t c) (deliveries ds last)

  next_delivery :
      (r : Result (Unit {0})) (w x : World G) (o : Option ConsumerError × Consumer (World G))
      (again : Consumer (World G) → Consumer (World G))
      → has_returned o.0 ≡ is_transient r
      → o.1.handled ≡ w
      → ((c : Consumer (World G)) → c.handled ≡ w → (again c).handled ≡ x)
      → (after_delivery o again).handled ≡ after_attempt r x w
  next_delivery (ok u) w x (none, c) again h s go = s
  next_delivery (ok u) w x (some e, c) again h s go = cc
  next_delivery (err e) w x (none, c) again h s go =
      let definitive : is_non_retryable e ≡ true = ground (arith, h) in rw definitive s
  next_delivery (err e) w x (some y, c) again h s go =
      let passing : is_non_retryable e ≡ false = ground (arith, h) in rw passing (go (restart c) s)

  module _ (event : Event) (value : m.value ≡ some event)
      (known : validate_schema_version event ≡ true) where
    -- However the database calls of its deliveries fail, a message with a known schema version, on a
    -- consumer with a dead letter queue that takes it, leaves the tables and the gateways that
    -- `attempt` says.
    pub deliveries-attempt :
        (ds : List (Option ℕ × Turn)) (last : Turn) (c : Consumer (World G))
        → (deliveries ds last c).handled ≡ attempt (handler event) (faults_of ds) c.handled
    unfolding deliveries attempt
    deliveries-attempt [] last c =
        (turn-Came handler last m event (record c { handled = with_faults none c.handled }) value
          known).state
    deliveries-attempt ((f, t) ∷ ds) last c =
        let c' : Consumer (World G) = record c { handled = with_faults f c.handled } in
        let came = turn-Came handler t m event c' value known in
        next_delivery (handler event c'.handled).0 (handler event c'.handled).1 _ (deliver f t c)
          (deliveries ds last) came.stopped came.state
          (λ d h. deliveries-attempt ds last d ∙ ap (attempt (handler event) (faults_of ds)) h)
