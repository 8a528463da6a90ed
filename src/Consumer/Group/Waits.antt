-- ===== src/Consumer/Group/Waits.antt =====
-- What becomes of the other goroutines once one has returned an error.
use workers_kafka.Prelude.{
  ℕ, zero, suc, ◌≡◌, refl, ap, ◌∙◌, List, [], ◌∷◌, Option, none, some, Bool, true, false, ◌||◌,
  ◌&&◌, if◌then◌else◌, arith,
}
use workers_kafka.Domain.{Event}
use workers_kafka.Errors.{Result}
use workers_kafka.Consumer.{Message, Consumer, ConsumerError, Turn, leave}
use workers_kafka.Consumer.Delivery.{Books, with_handled-Books}
use workers_kafka.Consumer.Lifetime.{is_failure, turn-reconnects}
use workers_kafka.Consumer.Group.{
  Member, Group, report, run_goroutine, run_member, run_nth, group_turn, run_group, is_cancelled,
  is_running, any_running, wait,
}
use workers_kafka.Consumer.Group.Members.{MemberOk, AllOk, one_more, MemberOk-Books}
use workers_kafka.Consumer.Group.Books.{run_nth-AllOk}

-- Passes in which every fetch fails, as those of kafka-go do in a context that is done.
abbrev pub fetches_fail : List (ℕ × Turn) → Bool
fetches_fail [] = true
fetches_fail ((i, t) ∷ rest) = is_failure t.fetched && fetches_fail rest

-- What the books say of the messages is of no concern here.
abbrev pub Anything : {S : Type 0} → S → Event → Type 0
Anything s e = Unit {0}

-- A consumer whose context an error has cancelled, with no panic, and one of whose goroutines still
-- runs.
pub record Cancelled {S : Type 0} (g : Group S) : Type 0 where
  pub books : AllOk Anything g.shared g.members
  pub alive : g.crashed ≡ false
  pub cancelled : is_cancelled g ≡ true
  pub others : any_running g.members ≡ true

module _ {S : Type 0} (has_dlq : Bool) (handler : Event → S → Result (Unit {0}) × S) where
  cancelled-goes :
      (t : Turn) (l : List Message) (s : S) (c : Consumer S)
      → Books l c
      → is_failure t.fetched ≡ true
      → (run_goroutine has_dlq handler true t s c).0 ≡ none
  unfolding leave
  cancelled-goes t l s c b f =
      rw
        (turn-reconnects has_dlq handler (record t { context_done = t.context_done || true }) l
          (record c { handled = s }) (with_handled-Books s l c b) (ground arith) f)
        refl

  run_member-running :
      (t : Turn) (s : S) (m : Member S) (o : Option ConsumerError)
      → m.result ≡ o
      → MemberOk Anything s m
      → is_failure t.fetched ≡ true
      → ((run_member has_dlq handler true t s m o).0 ≡ none)
        × (is_running (run_member has_dlq handler true t s m o).2 ≡ is_running m)
  run_member-running t s m (some e) h ok f = (refl, refl)
  run_member-running t s m none h ok f =
      let on = cancelled-goes t _ s m.goroutine (MemberOk-Books Anything s m h ok) f in
      (on, rw (h, on) refl)

  run_nth-running :
      (i : ℕ) (t : Turn) (s : S) (ms : List (Member S))
      → AllOk Anything s ms
      → is_failure t.fetched ≡ true
      → ((run_nth has_dlq handler i true t s ms).0 ≡ none)
        × (any_running (run_nth has_dlq handler i true t s ms).2 ≡ any_running ms)
  unfolding run_nth
  run_nth-running i t s [] a f = (refl, refl)
  run_nth-running zero t s (m ∷ ms) (one_more ok a) f =
      let (on, same) = run_member-running t s m m.result refl ok f in
      (on, ap (λ (b : Bool). b || any_running ms) same)
  run_nth-running (suc i) t s (m ∷ ms) (one_more ok a) f =
      let (on, same) = run_nth-running i t s ms a f in
      (on, ap (λ (b : Bool). is_running m || b) same)

  ran-Cancelled :
      (b : Bool) (g : Group S) (r : Option ConsumerError × S × List (Member S))
      → Cancelled g
      → AllOk Anything r.1 r.2
      → (r.0 ≡ none) × (any_running r.2 ≡ any_running g.members)
      → Cancelled (if b then g else report r.0 (record g { members = r.2; shared = r.1 }))
  unfolding report
  ran-Cancelled true g r c a h = c
  ran-Cancelled false g r c a (on, same) =
      rw on
        (record { books = a; alive = c.alive; cancelled = c.cancelled; others = same ∙ c.others })

  group_turn-Cancelled :
      (i : ℕ) (t : Turn) (g : Group S)
      → Cancelled g
      → is_failure t.fetched ≡ true
      → Cancelled (group_turn has_dlq handler i t g)
  unfolding group_turn
  group_turn-Cancelled i t g c f = rw c.cancelled (
      ran-Cancelled g.crashed g (run_nth has_dlq handler i true t g.shared g.members) c
        (run_nth-AllOk Anything has_dlq handler (λ e s h. tt) (λ e x s h. h) i true t g.shared
          g.members c.books).1
        (run_nth-running i t g.shared g.members c.books f))

  run_group-Cancelled :
      (steps : List (ℕ × Turn)) (g : Group S)
      → Cancelled g
      → fetches_fail steps ≡ true
      → Cancelled (run_group has_dlq handler steps g)
  unfolding run_group
  run_group-Cancelled [] g c h = c
  run_group-Cancelled ((i, t) ∷ rest) g c h =
      let failing : is_failure t.fetched ≡ true = ground (arith, h) in
      let later : fetches_fail rest ≡ true = ground (arith, h) in
      run_group-Cancelled rest _ (group_turn-Cancelled i t g c failing) later

  -- Once an error of one goroutine has cancelled the context while another one waits for a message,
  -- `Consume` has not returned after any number of passes, in any order, as long as the fetches of
  -- all of them fail: the cancelled context, which makes them fail, ends no goroutine,
  -- and none panics.
  pub run_group-waits :
      (steps : List (ℕ × Turn)) (g : Group S)
      → Cancelled g
      → fetches_fail steps ≡ true
      → (wait (run_group has_dlq handler steps g) ≡ none)
        × ((run_group has_dlq handler steps g).crashed ≡ false)
  unfolding wait
  run_group-waits steps g c h =
      let after = run_group-Cancelled steps g c h in
      (rw (after.alive, after.others) refl, after.alive)
