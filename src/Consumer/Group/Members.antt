-- ===== src/Consumer/Group/Members.antt =====
-- What is in order with the goroutines of a consumer.
use workers_kafka.Prelude.{
  ◌≡◌, List, [], ◌∷◌, ◌++◌, none, length, In, first, later, In-++_left, In-++_right,
}
use workers_kafka.Domain.{Event}
use workers_kafka.Consumer.{Message, Consumer}
use workers_kafka.Consumer.Channels.{StopsOk}
use workers_kafka.Consumer.Delivery.{Books}
use workers_kafka.Consumer.Group.Justified.{Justified, Grows, Justified-Grows}
use workers_kafka.Consumer.Group.{Member}

module _ {S : Type 0} (done : S → Event → Type 0) where
  -- Each message that a goroutine has committed is justified, in the state that the handlers share;
  -- as long as it runs, so is each message that it keeps for a commit, and its books are in order.
  pub record MemberOk (s : S) (m : Member S) : Type 0 where
    pub committed : (x : Message) → In x m.goroutine.committed → Justified done s m.goroutine.dead x
    pub kept :
        m.result ≡ none
        → (x : Message) → In x m.goroutine.pending_commits
        → Justified done s m.goroutine.dead x
    pub counted : m.result ≡ none → m.goroutine.batcher.pending ≡ length m.goroutine.pending_commits
    pub channels : m.result ≡ none → StopsOk m.goroutine

  pub data AllOk (s : S) : List (Member S) → Type 0 where
    no_member : AllOk s []
    one_more : {m : Member S} {ms : List (Member S)} → MemberOk s m → AllOk s ms → AllOk s (m ∷ ms)

  pub MemberOk-Grows : (s t : S) (m : Member S) → Grows done s t → MemberOk s m → MemberOk t m
  MemberOk-Grows s t m g k = record {
    committed = λ x i. Justified-Grows done s t _ _ x g (λ y j. j) (k.committed x i);
    kept = λ r x i. Justified-Grows done s t _ _ x g (λ y j. j) (k.kept r x i);
    counted = k.counted;
    channels = k.channels;
  }

  pub AllOk-Grows : (s t : S) (ms : List (Member S)) → Grows done s t → AllOk s ms → AllOk t ms
  AllOk-Grows s t [] g a = no_member
  AllOk-Grows s t (m ∷ ms) g (one_more k a) =
      one_more (MemberOk-Grows s t m g k) (AllOk-Grows s t ms g a)

  -- All messages that a running goroutine has committed or keeps.
  abbrev pub noted : Consumer S → List Message
  noted c = c.committed ++ c.pending_commits

  pub MemberOk-Books :
      (s : S) (m : Member S)
      → m.result ≡ none
      → MemberOk s m
      → Books (noted m.goroutine) m.goroutine
  MemberOk-Books s m r k = record {
    committed = λ x i. In-++_left x m.goroutine.committed m.goroutine.pending_commits i;
    kept = λ x i. In-++_right x m.goroutine.committed m.goroutine.pending_commits i;
    counted = k.counted r;
    channels = k.channels r;
  }

  pub in_either :
      (P : Message → Type 0) (a b : List Message)
      → ((x : Message) → In x a → P x)
      → ((x : Message) → In x b → P x)
      → (x : Message) → In x (a ++ b)
      → P x
  in_either P [] b f g x i = g x i
  in_either P (y ∷ a) b f g _ first = f y first
  in_either P (y ∷ a) b f g x (later i) = in_either P a b (λ z j. f z (later j)) g x i

  pub MemberOk-noted :
      (s : S) (m : Member S)
      → m.result ≡ none
      → MemberOk s m
      → (x : Message) → In x (noted m.goroutine)
      → Justified done s m.goroutine.dead x
  MemberOk-noted s m r k =
      in_either (Justified done s m.goroutine.dead) m.goroutine.committed
        m.goroutine.pending_commits k.committed (k.kept r)
