-- ===== src/Consumer/Group/Books.antt =====
-- The books of every goroutine, whatever the order of their passes.
use workers_kafka.Prelude.{
  ℕ, zero, suc, ◌≡◌, ◌≢◌, refl, sym, subst, List, [], ◌∷◌, Option, none, some, Bool, true, false,
  ◌||◌, if◌then◌else◌, In,
}
use workers_kafka.Domain.{Event}
use workers_kafka.Errors.{Result, ok}
use workers_kafka.Consumer.{
  Message, DeadLetter, Consumer, ConsumerError, CommitBatcher, panicked, Turn, leave, close_channel,
}
use workers_kafka.Consumer.Delivery.{with_handled-Books}
use workers_kafka.Consumer.Passed.{Passed, goes_on, stops}
use workers_kafka.Consumer.Passes.{turn-Passed}
use workers_kafka.Consumer.Group.Justified.{
  Justified, Grows, Justified-Grows, AllSettled-Grows, AllSettled-MoreLetters, AllSettled-Justified,
  Tried-Grows,
}
use workers_kafka.Consumer.Group.Members.{
  MemberOk, AllOk, no_member, one_more, MemberOk-Grows, AllOk-Grows, noted, MemberOk-Books,
  MemberOk-noted, in_either,
}
use workers_kafka.Consumer.Group.{
  Member, Group, new_member, new_members, start_group, report, run_member, run_nth, group_turn,
  run_group, is_cancelled, configured_workers,
}

module _ {S : Type 0} where
  abbrev pub after_pass : Option ConsumerError × Consumer S → Member S
  after_pass o = record { goroutine = o.1; result = o.0 }

  pub left :
      (e : ConsumerError) (c : Consumer S) (o : Option (List ℕ))
      → close_channel 0 c.closed_stops ≡ o
      → ((leave (some e, c)).0 ≢ none)
        × ((leave (some e, c)).1.committed ≡ c.committed)
        × ((leave (some e, c)).1.dead ≡ c.dead)
        × ((leave (some e, c)).1.handled ≡ c.handled)
  unfolding leave
  left e c none h = rw (leave, h) ((λ x. cc x), refl, refl, refl)
  left e c (some l) h = rw (leave, h) ((λ x. cc x), refl, refl, refl)

  report-members : (o : Option ConsumerError) (g : Group S) → (report o g).members ≡ g.members
  unfolding report
  report-members none g = refl
  report-members (some panicked) g = refl
  report-members (some _) g = refl

  report-shared : (o : Option ConsumerError) (g : Group S) → (report o g).shared ≡ g.shared
  unfolding report
  report-shared none g = refl
  report-shared (some panicked) g = refl
  report-shared (some _) g = refl

module _ {S : Type 0} (done : S → Event → Type 0) (batcher : CommitBatcher) (s : S)
    (empty : batcher.pending ≡ 0) where
  new_member-MemberOk : MemberOk done s (new_member batcher s)
  unfolding new_member
  new_member-MemberOk = record {
    committed = λ m i. elim i [ ];
    kept = λ r m i. elim i [ ];
    counted = λ r. empty;
    channels = λ r. record { made = refl; closed = refl };
  }

  pub new_members-AllOk : (n : ℕ) → AllOk done s (new_members n batcher s)
  unfolding new_members
  new_members-AllOk zero = no_member
  new_members-AllOk (suc n) = one_more new_member-MemberOk (new_members-AllOk n)

module _ {S : Type 0} (done : S → Event → Type 0) (has_dlq : Bool)
    (handler : Event → S → Result (Unit {0}) × S)
    (establishes : (e : Event) (s : S) → (handler e s).0 ≡ ok tt → done (handler e s).1 e)
    (keeps : (e x : Event) (s : S) → done s x → done (handler e s).1 x) where
  -- A pass of a goroutine: the goroutine is in order in the state it leaves, where all that was done
  -- is done.
  abbrev PassOk : S → Option ConsumerError × S × Member S → Type 0
  PassOk s r = Grows done s r.1 × MemberOk done r.1 r.2

  leave-PassOk :
      (l f : List Message) (s : S) (c : Consumer S) (o : Option ConsumerError × Consumer S)
      → ((x : Message) → In x l → Justified done s c.dead x)
      → Passed handler l f s c o
      → Grows done s (leave o).1.handled × MemberOk done (leave o).1.handled (after_pass (leave o))
  leave-PassOk l f s c _ j (goes_on {c'} b a k) =
      let grows = AllSettled-Grows done handler establishes keeps f s c'.handled c.dead c'.dead a in
      let more =
        AllSettled-MoreLetters done handler establishes keeps f s c'.handled c.dead c'.dead a in
      let all =
        in_either done (Justified done c'.handled c'.dead) l f
          (λ x i. Justified-Grows done s c'.handled c.dead c'.dead x grows more (j x i))
          (AllSettled-Justified done handler establishes keeps f s c'.handled c.dead c'.dead a) in
      unfold leave in
      (
        grows,
        record {
          committed = λ x i. all x (b.committed x i);
          kept = λ r x i. all x (b.kept x i);
          counted = λ r. b.counted;
          channels = λ r. b.channels;
        },
      )
  leave-PassOk l f s c _ j (stops {e} {c'} b d x n) =
      let (over, committed, dead, handled) = left e c' _ refl in
      let c'' : Consumer S = (leave (some e, c')).1 in
      let grows : Grows done s c''.handled =
        subst (Grows done s) (sym handled)
          (Tried-Grows done handler establishes keeps f s c'.handled x) in
      (
        grows,
        record {
          committed = λ y i.
              Justified-Grows done s c''.handled c.dead c''.dead y grows
                (λ z k.
                  subst (λ (ls : List DeadLetter). In z ls) (sym dead)
                    (subst (λ (ls : List DeadLetter). In z ls) (sym d) k))
                (j y (b.committed y (subst (λ (ms : List Message). In y ms) committed i)));
          kept = λ h. elim (over h) [ ];
          counted = λ h. elim (over h) [ ];
          channels = λ h. elim (over h) [ ];
        },
      )

  run_member-PassOk :
      (cancelled : Bool) (t : Turn) (s : S) (m : Member S) (o : Option ConsumerError)
      → m.result ≡ o
      → MemberOk done s m
      → PassOk s (run_member has_dlq handler cancelled t s m o)
  run_member-PassOk cancelled t s m (some e) h k = (λ x y. y, k)
  run_member-PassOk cancelled t s m none h k =
      let c : Consumer S = m.goroutine in
      leave-PassOk (noted done c) _ s (record c { handled = s }) _ (MemberOk-noted done s m h k)
        (turn-Passed has_dlq handler (record t { context_done = t.context_done || cancelled })
          (noted done c) (record c { handled = s })
          (with_handled-Books s (noted done c) c (MemberOk-Books done s m h k)))

  pub run_nth-AllOk :
      (i : ℕ) (cancelled : Bool) (t : Turn) (s : S) (ms : List (Member S))
      → AllOk done s ms
      → let r = run_nth has_dlq handler i cancelled t s ms in Grows done s r.1 × AllOk done r.1 r.2
  unfolding run_nth
  run_nth-AllOk i cancelled t s [] a = (λ x y. y, a)
  run_nth-AllOk zero cancelled t s (m ∷ ms) (one_more k a) =
      let (grows, good) = run_member-PassOk cancelled t s m m.result refl k in
      (grows, one_more good (AllOk-Grows done s _ ms grows a))
  run_nth-AllOk (suc i) cancelled t s (m ∷ ms) (one_more k a) =
      let (grows, good) = run_nth-AllOk i cancelled t s ms a in
      (grows, one_more (MemberOk-Grows done s _ m grows k) good)

  -- The goroutines are in order in the state that their handlers share.
  abbrev pub GroupOk : Group S → Type 0
  GroupOk g = AllOk done g.shared g.members

  ran-GroupOk :
      (b : Bool) (g : Group S) (r : Option ConsumerError × S × List (Member S))
      → GroupOk g
      → AllOk done r.1 r.2
      → GroupOk (if b then g else report r.0 (record g { members = r.2; shared = r.1 }))
  ran-GroupOk true g r a k = a
  ran-GroupOk false g r a k =
      let g' : Group S = record g { members = r.2; shared = r.1 } in
      subst (λ (s : S). AllOk done s (report r.0 g').members) (sym (report-shared r.0 g'))
        (subst (AllOk done r.1) (sym (report-members r.0 g')) k)

  group_turn-GroupOk :
      (i : ℕ) (t : Turn) (g : Group S) → GroupOk g → GroupOk (group_turn has_dlq handler i t g)
  unfolding group_turn
  group_turn-GroupOk i t g a =
      ran-GroupOk g.crashed g (run_nth has_dlq handler i (is_cancelled g) t g.shared g.members) a
        (run_nth-AllOk i (is_cancelled g) t g.shared g.members a).1

  run_group-GroupOk :
      (steps : List (ℕ × Turn)) (g : Group S)
      → GroupOk g
      → GroupOk (run_group has_dlq handler steps g)
  unfolding run_group
  run_group-GroupOk [] g a = a
  run_group-GroupOk ((i, t) ∷ rest) g a = run_group-GroupOk rest _ (group_turn-GroupOk i t g a)

  -- Take anything about the state that the handlers share that holds of an event when the handler has
  -- returned no error for it, and that no call of the handler undoes, such as its row in the journal.
  -- With any number of goroutines configured, that start with nothing to commit, whatever the order of
  -- their passes and whatever goes wrong in them: it holds of every message that a goroutine has
  -- committed, unless the goroutine has written a dead letter of that message. The same is true of
  -- the messages that a running goroutine keeps for its next commit, which are as many as its batcher
  -- counts.
  pub consumer-AllOk :
      (workers : ℕ) (batcher : CommitBatcher) (s : S) (steps : List (ℕ × Turn))
      → batcher.pending ≡ 0
      → let g = run_group has_dlq handler steps (start_group workers batcher s) in
        AllOk done g.shared g.members
  consumer-AllOk workers batcher s steps empty =
      run_group-GroupOk steps (start_group workers batcher s)
        (unfold start_group in new_members-AllOk done batcher s empty (configured_workers workers))
