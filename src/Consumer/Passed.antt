-- ===== src/Consumer/Passed.antt =====
-- What one pass of the loop makes of the books and of the message that it fetched.
use workers_kafka.Prelude.{
  ◌≡◌, ◌≢◌, refl, sym, subst, List, [], ◌∷◌, ◌++◌, Option, none, some, Bool, true, false,
  if◌then◌else◌, ◌&&◌,
}
use workers_kafka.Domain.{Event}
use workers_kafka.Errors.{Error, Result, is_non_retryable}
use workers_kafka.Consumer.Settled.{
  Settled, AllSettled, no_message, then_message, Tried, with_letter,
}
use workers_kafka.Consumer.Delivery.{Books, Small, Took, committed-Subset, Subset-more, Subset-last}
use workers_kafka.Consumer.{
  Message, DeadLetter, Turn, Consumer, ConsumerError, panicked, write_dead_letter, move_to_dlq,
}

module _ {S : Type 0} (handler : Event → S → Result (Unit {0}) × S) where
  -- A pass that fetched the messages `f`, none or one, after the messages `l`, when the state of the
  -- handler was `s`: it goes on and has dealt with them, or the loop returns an error and has not.
  pub data Passed (l f : List Message) (s : S) (c : Consumer S)
      : Option ConsumerError × Consumer S → Type 0 where
    goes_on :
        {c' : Consumer S}
        → Books (l ++ f) c'
        → AllSettled handler f s c.dead c'.handled c'.dead
        → (Small c → Small c')
        → Passed l f s c (none, c')
    stops :
        {e : ConsumerError} {c' : Consumer S}
        → Books l c'
        → c'.dead ≡ c.dead
        → Tried handler f s c'.handled
        → e ≢ panicked
        → Passed l f s c (some e, c')

  pub one_settled :
      (m : Message) (s s' : S) (d d' : List DeadLetter)
      → Settled handler m s d s' d'
      → AllSettled handler (m ∷ []) s d s' d'
  one_settled m s s' d d' x = then_message x no_message

  pub Took-Passed :
      (l : List Message) (m : Message) (s : S) (c c' : Consumer S)
      → Settled handler m s c.dead c.handled c.dead
      → Took l m c c'
      → Passed l (m ∷ []) s c (none, c')
  Took-Passed l m s c c' x k =
      goes_on k.books
        (subst (λ (t : S). AllSettled handler (m ∷ []) s c.dead t c'.dead) (sym k.handled)
          (subst (λ (d : List DeadLetter). AllSettled handler (m ∷ []) s c.dead c.handled d)
            (sym k.dead) (one_settled m s c.handled c.dead c.dead x)))
        k.small

  pub letter-Passed :
      (t : Turn) (l : List Message) (m : Message) (s : S) (c : Consumer S) (accepts : Bool)
      → t.dlq_accepts ≡ accepts
      → Settled handler m s c.dead c.handled (with_letter m c.dead)
      → Tried handler (m ∷ []) s c.handled
      → Books l c
      → Passed l (m ∷ []) s c (write_dead_letter t m c)
  unfolding write_dead_letter
  letter-Passed t l m s c true h x y b = rw h (
      goes_on
        (record {
          committed =
              committed-Subset c.committed (m ∷ []) _ t.commit_accepts
                (Subset-more c.committed l m b.committed) (Subset-last l m);
          kept = Subset-more c.pending_commits l m b.kept;
          counted = b.counted;
          channels = record { made = b.channels.made; closed = b.channels.closed };
        })
        (one_settled m s c.handled c.dead _ x) (λ z. z))
  letter-Passed t l m s c false h x y b = rw h (stops b refl y (λ z. cc z))

  pub if-Passed :
      (l f : List Message) (s : S) (c : Consumer S) (x : Bool)
      {o p : Option ConsumerError × Consumer S}
      → Passed l f s c o
      → Passed l f s c p
      → Passed l f s c (if x then o else p)
  if-Passed l f s c true a b = a
  if-Passed l f s c false a b = b

  definitive-Passed :
      (b has_dlq : Bool) (t : Turn) (l : List Message) (m : Message) (e : Error)
      (unmoved : ConsumerError) (s : S) (c : Consumer S)
      → is_non_retryable e ≡ b
      → unmoved ≢ panicked
      → (is_non_retryable e ≡ true → Settled handler m s c.dead c.handled (with_letter m c.dead))
      → Tried handler (m ∷ []) s c.handled
      → Books l c
      → Passed l (m ∷ []) s c (if has_dlq && b then write_dead_letter t m c else (some unmoved, c))
  definitive-Passed true true t l m e unmoved s c h n x y k =
      letter-Passed t l m s c t.dlq_accepts refl (x h) y k
  definitive-Passed true false t l m e unmoved s c h n x y k = stops k refl y n
  definitive-Passed false true t l m e unmoved s c h n x y k = stops k refl y n
  definitive-Passed false false t l m e unmoved s c h n x y k = stops k refl y n

  pub move_to_dlq-Passed :
      (has_dlq : Bool) (t : Turn) (l : List Message) (m : Message) (e : Error)
      (unmoved : ConsumerError) (s : S) (c : Consumer S)
      → unmoved ≢ panicked
      → (is_non_retryable e ≡ true → Settled handler m s c.dead c.handled (with_letter m c.dead))
      → Tried handler (m ∷ []) s c.handled
      → Books l c
      → Passed l (m ∷ []) s c (move_to_dlq has_dlq t m e unmoved c)
  unfolding move_to_dlq
  move_to_dlq-Passed has_dlq t l m e unmoved s c n x y b =
      definitive-Passed (is_non_retryable e) has_dlq t l m e unmoved s c refl n x y b
