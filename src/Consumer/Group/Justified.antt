-- ===== src/Consumer/Group/Justified.antt =====
-- Why a message may be committed.
use workers_kafka.Prelude.{
  ◌≡◌, ap, subst, List, [], ◌∷◌, some, In, first, later, In-++_left, In-++_right,
}
use workers_kafka.Domain.{Event}
use workers_kafka.Errors.{Result, ok}
use workers_kafka.Consumer.{Message, DeadLetter}
use workers_kafka.Consumer.Settled.{
  Settled, handled, refused, unreadable, foreign, AllSettled, no_message, then_message, Tried,
  untouched, tried, letter_of, with_letter,
}

module _ {S : Type 0} (done : S → Event → Type 0) where
  -- The event of the message is done in the state `s`, or its dead letter is among `d`.
  pub data Justified (s : S) (d : List DeadLetter) (m : Message) : Type 0 where
    is_done : {e : Event} → m.value ≡ some e → done s e → Justified s d m
    is_dead : In (letter_of m) d → Justified s d m

  -- What is done stays done.
  abbrev pub Grows : S → S → Type 0
  Grows s t = (e : Event) → done s e → done t e

  abbrev pub MoreLetters : List DeadLetter → List DeadLetter → Type 0
  MoreLetters d f = (y : DeadLetter) → In y d → In y f

  pub Justified-Grows :
      (s t : S) (d f : List DeadLetter) (m : Message)
      → Grows s t
      → MoreLetters d f
      → Justified s d m
      → Justified t f m
  Justified-Grows s t d f m g h (is_done {e} v x) = is_done v (g e x)
  Justified-Grows s t d f m g h (is_dead i) = is_dead (h (letter_of m) i)

  last_letter : (m : Message) (d : List DeadLetter) → In (letter_of m) (with_letter m d)
  last_letter m d = In-++_right (letter_of m) d (letter_of m ∷ []) first

  more_letters : (m : Message) (d : List DeadLetter) → MoreLetters d (with_letter m d)
  more_letters m d y i = In-++_left y d (letter_of m ∷ []) i

  module _ (handler : Event → S → Result (Unit {0}) × S)
      (establishes : (e : Event) (s : S) → (handler e s).0 ≡ ok tt → done (handler e s).1 e)
      (keeps : (e x : Event) (s : S) → done s x → done (handler e s).1 x) where
    moved-Grows :
        {r : Result (Unit {0})} (e : Event) (s s' : S) → handler e s ≡ (r, s') → Grows s s'
    moved-Grows e s s' h x d = subst (λ (t : S). done t x) (ap (λ o. o.1) h) (keeps e x s d)

    Settled-Grows :
        (m : Message) (s s' : S) (d d' : List DeadLetter) → Settled handler m s d s' d' → Grows s s'
    Settled-Grows m s s' d _ (handled {e} v k h) = moved-Grows e s s' h
    Settled-Grows m s s' d _ (refused {e} v k h n) = moved-Grows e s s' h
    Settled-Grows m s _ d _ (unreadable v) = λ x y. y
    Settled-Grows m s _ d _ (foreign v k) = λ x y. y

    Settled-MoreLetters :
        (m : Message) (s s' : S) (d d' : List DeadLetter)
        → Settled handler m s d s' d'
        → MoreLetters d d'
    Settled-MoreLetters m s s' d _ (handled v k h) = λ y i. i
    Settled-MoreLetters m s s' d _ (refused v k h n) = more_letters m d
    Settled-MoreLetters m s _ d _ (unreadable v) = more_letters m d
    Settled-MoreLetters m s _ d _ (foreign v k) = more_letters m d

    Settled-Justified :
        (m : Message) (s s' : S) (d d' : List DeadLetter)
        → Settled handler m s d s' d'
        → Justified s' d' m
    Settled-Justified m s s' d _ (handled {e} v k h) =
        is_done v
          (subst (λ (t : S). done t e) (ap (λ o. o.1) h) (establishes e s (ap (λ o. o.0) h)))
    Settled-Justified m s s' d _ (refused v k h n) = is_dead (last_letter m d)
    Settled-Justified m s _ d _ (unreadable v) = is_dead (last_letter m d)
    Settled-Justified m s _ d _ (foreign v k) = is_dead (last_letter m d)

    -- What becomes of the state, the letters and the messages when messages are dealt with.
    pub AllSettled-Grows :
        (l : List Message) (s t : S) (d f : List DeadLetter)
        → AllSettled handler l s d t f
        → Grows s t
    AllSettled-Grows _ s _ d _ no_message = λ x y. y
    AllSettled-Grows _ s t d f (then_message {m} {l} {s' = s'} {d' = d'} a b) =
        λ x y. AllSettled-Grows l s' t d' f b x (Settled-Grows m s s' d d' a x y)

    pub AllSettled-MoreLetters :
        (l : List Message) (s t : S) (d f : List DeadLetter)
        → AllSettled handler l s d t f
        → MoreLetters d f
    AllSettled-MoreLetters _ s _ d _ no_message = λ y i. i
    AllSettled-MoreLetters _ s t d f (then_message {m} {l} {s' = s'} {d' = d'} a b) =
        λ y i. AllSettled-MoreLetters l s' t d' f b y (Settled-MoreLetters m s s' d d' a y i)

    pub AllSettled-Justified :
        (l : List Message) (s t : S) (d f : List DeadLetter)
        → AllSettled handler l s d t f
        → (x : Message) → In x l
        → Justified t f x
    AllSettled-Justified _ s _ d _ no_message x i = elim i [ ]
    AllSettled-Justified _ s t d f (then_message {m} {l} {s' = s'} {d' = d'} a b) _ first =
        Justified-Grows s' t d' f m (AllSettled-Grows l s' t d' f b)
          (AllSettled-MoreLetters l s' t d' f b) (Settled-Justified m s s' d d' a)
    AllSettled-Justified _ s t d f (then_message {m} {l} {s' = s'} {d' = d'} a b) x (later i) =
        AllSettled-Justified l s' t d' f b x i

    pub Tried-Grows : (l : List Message) (s t : S) → Tried handler l s t → Grows s t
    Tried-Grows l s _ untouched = λ x y. y
    Tried-Grows _ s _ (tried {e = e} v k) = λ x y. keeps e x s y
