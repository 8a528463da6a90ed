-- ===== src/LoadGenerator/Ends.antt =====
-- The loops of the load generator: that they end, and what the brokers have received.
use workers_kafka.Prelude.{
  ℕ, zero, suc, ◌+◌, ◌-◌, ◌≤◌, ◌<◌, ◌≡◌, ◌≢◌, refl, sym, subst, ◌⊎◌, inl, inr, String, [], ◌∷◌, In,
  first, later, true, arith, ltb, Bool-cases,
}
use workers_kafka.Domain.{order_created}
use workers_kafka.Topics.{topic_order_created}
use workers_kafka.Tx.{World}
use workers_kafka.Producer.{KafkaMessage, Writer}
use workers_kafka.LoadGenerator.{
  LoadOutcome, finished, write_failed, out_of_fuel, load_event, load_message, Batch, fill_batch,
  generate,
}

module _ {B : Type 0} (writer : Writer B) (name : ℕ → String) where
  -- The message that announces the order of a number.
  pub record Announces (n : ℕ) (m : KafkaMessage) : Type 0 where
    pub topic : m.topic ≡ topic_order_created
    pub key : m.key ≡ name n
    pub starts : (m.value.event_type ≡ order_created) × (m.value.order_id ≡ name n)

  -- A batch holds the next orders, and fills up unless no order is left.
  record Filled (count batch published : ℕ) (o : Batch writer name) : Type 0 where
    pub grows : published ≤ o.1.0
    pub full : (o.1.0 ≡ published + batch) ⊎ (count ≤ o.1.0)
    pub holds : (n : ℕ) → published ≤ n → n < o.1.0 → (m : KafkaMessage) × In m o.0 × Announces n m

  nothing_between : {A : Type 0} (a n : ℕ) → a ≤ n → n < a → A
  nothing_between a n h k = let no : ⊥ = omega (arith, h, k) in elim no [ ]

  load_message-Announces : (n : ℕ) (w : World B) → Announces n (load_message writer name n w)
  unfolding load_message load_event
  load_message-Announces n w = record { topic = refl; key = refl; starts = (refl, refl) }

  more-Filled :
      (count i published : ℕ) (w : World B) (o : Batch writer name)
      → Filled count i (suc published) o
      → Filled count (suc i) published (load_message writer name published w ∷ o.0, o.1)
  more-Filled count i published w o f = record {
    grows = omega (arith, f.grows);
    full = elim f.full [ inl exact ↦ inl (omega (arith, exact)) | inr enough ↦ inr enough ];
    holds = λ n a b. elim (Bool-cases (ltb published n)) [
      | inl later_one ↦
          let (m, there, announces) = f.holds n (ground (arith, later_one)) b in
          (m, later there, announces)
      | inr same ↦ (
        load_message writer name published w,
        first,
        subst (λ (k : ℕ). Announces k (load_message writer name published w))
            (ground (arith, same, a)) (load_message-Announces published w),
      )
    ];
  }

  fill_batch-Filled :
      (count batch published : ℕ) (w : World B)
      → Filled count batch published (fill_batch writer name count batch published w)
  unfolding fill_batch
  fill_batch-Filled count zero published w = record {
    grows = omega arith;
    full = inl (omega arith);
    holds = λ n a b. nothing_between published n a b;
  }
  fill_batch-Filled count (suc i) published w =
      let next : World B = record w { drawn = suc w.drawn } in
      elim (Bool-cases (ltb published count)) [
        | inl more ↦
            rw more
              (more-Filled count i published w _ (fill_batch-Filled count i (suc published) next))
        | inr done ↦ rw done (record {
          grows = omega arith;
          full = inr (ground (arith, done));
          holds = λ n a b. nothing_between published n a b;
        })
      ]

  -- Every order up to `upto` has been announced to the brokers.
  unfoldable pub SentUpTo : ℕ → World B → Type 0
  SentUpTo upto w =
      (n : ℕ) → n < upto → (m : KafkaMessage) × writer.Received w.gateway m × Announces n m

  written-SentUpTo :
      (count batch published : ℕ) (w : World B)
      → SentUpTo published w
      → let (ms, (published', filled)) = fill_batch writer name count batch published w in
        (filled.gateway ≡ w.gateway)
        → ((writer.write ms filled.gateway).0 ≡ true)
        → SentUpTo published' (record filled { gateway = (writer.write ms filled.gateway).1 })
  unfolding SentUpTo
  written-SentUpTo count batch published w sent same accepted n below =
      let (ms, (published', filled)) = fill_batch writer name count batch published w in
      let f = fill_batch-Filled count batch published w in
      elim (Bool-cases (ltb n published)) [
        | inl old ↦
            let (m, there, announces) = sent n (ground (arith, old)) in
            (
              m,
              writer.write-keeps ms filled.gateway m
                  (subst (λ (b : B). writer.Received b m) (sym same) there),
              announces,
            )
        | inr new ↦
            let (m, there, announces) = f.holds n (ground (arith, new)) below in
            (m, writer.write-Received ms filled.gateway m accepted there, announces)
      ]

  fill_batch-gateway :
      (count batch published : ℕ) (w : World B)
      → (fill_batch writer name count batch published w).1.1.gateway ≡ w.gateway
  unfolding fill_batch
  fill_batch-gateway count zero published w = refl
  fill_batch-gateway count (suc i) published w =
      ground (arith, fill_batch-gateway count i (suc published) (record w { drawn = suc w.drawn }))

  -- The program came to an end, and if it ended well every order was announced.
  pub record Loaded (count : ℕ) (o : LoadOutcome × World B) : Type 0 where
    pub ended : o.0 ≢ out_of_fuel
    pub announced : o.0 ≡ finished → SentUpTo count o.1

  failed_write : (count : ℕ) (w : World B) → Loaded count (write_failed, w)
  failed_write count w = record { ended = λ h. cc h; announced = λ h. cc h }

  done_all :
      (count published : ℕ) (w : World B)
      → count ≤ published
      → SentUpTo published w
      → Loaded count (finished, w)
  unfolding SentUpTo
  done_all count published w enough sent = record {
    ended = λ h. cc h;
    announced = λ h n below. sent n (omega (arith, enough, below));
  }

  -- From a state in which the orders up to `published` have been announced, with a batch of at least
  -- one and more fuel than orders left, whatever the brokers answer: the loops end, and unless a write
  -- failed the brokers have received for every order an ORDER_CREATED event on `orders.created`,
  -- keyed by the order.
  pub generate-Loaded :
      (fuel batch count published : ℕ) (w : World B)
      → 1 ≤ batch
      → count - published < fuel
      → SentUpTo published w
      → Loaded count (generate writer name fuel batch count published w)
  unfolding generate
  generate-Loaded zero batch count published w one enough sent =
      let no : ⊥ = omega (arith, enough) in elim no [ ]
  generate-Loaded (suc n) batch count published w one enough sent =
      let o = fill_batch writer name count batch published w in
      let f = fill_batch-Filled count batch published w in
      let after : World B = record o.1.1 { gateway = (writer.write o.0 o.1.1.gateway).1 } in
      elim (Bool-cases (ltb published count)) [
        | inr done ↦ rw done (done_all count published w (ground (arith, done)) sent)
        | inl more ↦ rw more (elim (Bool-cases (writer.write o.0 o.1.1.gateway).0) [
          | inr refused ↦ rw refused (failed_write count after)
          | inl accepted ↦ rw accepted (
              generate-Loaded n batch count o.1.0 after one
                (elim f.full [
                  | inl exact ↦ ground (arith, exact, more, enough, one)
                  | inr full ↦ ground (arith, full, more, enough)
                ])
                (written-SentUpTo count batch published w sent
                  (fill_batch-gateway count batch published w) accepted))
        ])
      ]

  -- With a batch of zero and orders left, as long as the brokers accept an empty write, the program
  -- never ends.
  pub generate-stuck :
      (fuel count published : ℕ) (w : World B)
      → published < count
      → ((b : B) → (writer.write [] b).0 ≡ true)
      → (generate writer name fuel 0 count published w).0 ≡ out_of_fuel
  unfolding generate fill_batch
  generate-stuck zero count published w more accepts = refl
  generate-stuck (suc n) count published w more accepts = ground (
    arith,
    more,
    accepts w.gateway,
    generate-stuck n count published (record w { gateway = (writer.write [] w.gateway).1 }) more
        accepts,
  )
