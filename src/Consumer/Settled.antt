-- ===== src/Consumer/Settled.antt =====
-- What it is to deal with a message, apart from the loop that does it: by what the message holds and
-- what the handler makes of it.
use workers_kafka.Prelude.{◌≡◌, ◌≢◌, List, [], ◌∷◌, ◌++◌, none, some, true}
use workers_kafka.Domain.{Event, current_schema_version}
use workers_kafka.Errors.{Error, Result, ok, err, is_non_retryable}
use workers_kafka.Topics.{dlq_topic_for}
use workers_kafka.Consumer.{Message, DeadLetter}

-- The dead letter of a message, on the dead letter topic of its own topic.
abbrev pub letter_of : Message → DeadLetter
letter_of m = record { topic = dlq_topic_for m.topic; key = m.key; value = m.value }

abbrev pub with_letter : Message → List DeadLetter → List DeadLetter
with_letter m d = d ++ (letter_of m ∷ [])

module _ {S : Type 0} (handler : Event → S → Result (Unit {0}) × S) where
  -- A message is dealt with, from a state of the handler and the dead letters so far to those after:
  -- the handler returned no error, or a dead letter was taken because the error is definitive, the
  -- message does not decode, or its schema version is another one.
  pub data Settled (m : Message) (s : S) (d : List DeadLetter) : S → List DeadLetter → Type 0 where
    handled :
        {e : Event} {s' : S}
        → m.value ≡ some e
        → e.schema_version ≡ current_schema_version
        → handler e s ≡ (ok tt, s')
        → Settled m s d s' d
    refused :
        {e : Event} {x : Error} {s' : S}
        → m.value ≡ some e
        → e.schema_version ≡ current_schema_version
        → handler e s ≡ (err x, s')
        → is_non_retryable x ≡ true
        → Settled m s d s' (with_letter m d)
    unreadable : m.value ≡ none → Settled m s d s (with_letter m d)
    foreign :
        {e : Event}
        → m.value ≡ some e
        → e.schema_version ≢ current_schema_version
        → Settled m s d s (with_letter m d)

  -- Messages dealt with one after the other.
  pub data AllSettled : List Message → S → List DeadLetter → S → List DeadLetter → Type 0 where
    no_message : {s : S} {d : List DeadLetter} → AllSettled [] s d s d
    then_message :
        {m : Message} {l : List Message} {s s' t : S} {d d' f : List DeadLetter}
        → Settled m s d s' d'
        → AllSettled l s' d' t f
        → AllSettled (m ∷ l) s d t f

  -- Of these messages none is dealt with; the first one may have been handed to the handler.
  pub data Tried : List Message → S → S → Type 0 where
    untouched : {l : List Message} {s : S} → Tried l s s
    tried :
        {m : Message} {l : List Message} {s : S} {e : Event}
        → m.value ≡ some e
        → e.schema_version ≡ current_schema_version
        → Tried (m ∷ l) s (handler e s).1
