-- ===== src/Consumer/Group/Single.antt =====
-- A consumer of one goroutine.
use workers_kafka.Prelude.{
  ℕ, zero, suc, ◌≤◌, ◌≡◌, refl, ap, ◌∙◌, List, [], ◌∷◌, Option, none, some, Bool, true, false, ◌||◌,
  ◌≢◌, arith,
}
use workers_kafka.Domain.{Event}
use workers_kafka.Errors.{Result}
use workers_kafka.Consumer.{
  Consumer, ConsumerError, panicked, Turn, turn, leave, consume, consume_worker, proceed,
  close_channel, CommitBatcher,
}
use workers_kafka.Consumer.Group.{
  Group, report, run_nth, group_turn, run_group, wait, start_group, new_member, new_members,
  configured_workers,
}
use workers_kafka.Consumer.Group.Books.{after_pass, left}

-- All passes are those of the first goroutine.
abbrev pub alone : List Turn → List (ℕ × Turn)
alone [] = []
alone (t ∷ ts) = (0, t) ∷ alone ts

-- The error that a group gets from a goroutine: a panic is none, it ends the process.
abbrev pub error_of : Option ConsumerError → Option ConsumerError
error_of none = none
error_of (some panicked) = none
error_of (some e) = some e

abbrev pub is_panic : Option ConsumerError → Bool
is_panic (some panicked) = true
is_panic _ = false

-- What `Consume` has returned when its only goroutine has returned this: nothing yet while it runs,
-- and never anything once it has panicked.
abbrev pub consume_returned : Option ConsumerError → Option (Option ConsumerError)
consume_returned none = none
consume_returned (some panicked) = none
consume_returned (some e) = some (some e)

module _ {S : Type 0} where
  -- The group of one goroutine in this state, which has returned or runs.
  abbrev group_of : Option ConsumerError × Consumer S → Group S
  group_of o = record {
    members = after_pass o ∷ [];
    shared = o.1.handled;
    first_error = error_of o.0;
    crashed = is_panic o.0;
  }

  reported :
      (e : Option ConsumerError) (c : Consumer S)
      → report e (record {
        members = after_pass (e, c) ∷ [];
        shared = c.handled;
        first_error = none;
        crashed = false;
      })
        ≡ group_of (e, c)
  unfolding report
  reported none c = refl
  reported (some panicked) c = refl
  reported (some _) c = refl

  wait-group_of :
      (e : Option ConsumerError) (c : Consumer S) → wait (group_of (e, c)) ≡ consume_returned e
  unfolding wait
  wait-group_of none c = refl
  wait-group_of (some panicked) c = refl
  wait-group_of (some _) c = refl

  one_member :
      (n : ℕ) (batcher : CommitBatcher) (s : S)
      → n ≤ 1
      → start_group n batcher s ≡ group_of (none, (new_member batcher s).goroutine)
  unfolding start_group configured_workers new_members new_member
  one_member zero batcher s h = refl
  one_member (suc zero) batcher s h = refl
  one_member (suc (suc n)) batcher s h = ground (arith, h)

  module _ (has_dlq : Bool) (handler : Event → S → Result (Unit {0}) × S) where
    same_turn :
        (b : Bool) (t : Turn) (c : Consumer S)
        → t.context_done ≡ b
        → turn has_dlq handler (record t { context_done = b || false }) c ≡ turn has_dlq handler t c
    same_turn true t c h = rw h refl
    same_turn false t c h = rw h refl

    first_turn :
        (t : Turn) (c : Consumer S)
        → group_turn has_dlq handler 0 t (group_of (none, c))
          ≡ group_of (leave (turn has_dlq handler t c))
    unfolding group_turn run_nth
    first_turn t c =
        reported _ _
        ∙ ap (λ (o : Option ConsumerError × Consumer S). group_of (leave o))
            (same_turn t.context_done t c refl)

    returned_turn :
        (t : Turn) (e : ConsumerError) (c : Consumer S)
        → group_turn has_dlq handler 0 t (group_of (some e, c)) ≡ group_of (some e, c)
    unfolding group_turn run_nth report
    returned_turn t panicked c = refl
    returned_turn t _ c = refl

    returned_group :
        (ts : List Turn) (e : ConsumerError) (c : Consumer S)
        → run_group has_dlq handler (alone ts) (group_of (some e, c)) ≡ group_of (some e, c)
    unfolding run_group
    returned_group [] e c = refl
    returned_group (t ∷ ts) e c =
        ap (run_group has_dlq handler (alone ts)) (returned_turn t e c) ∙ returned_group ts e c

    over_group :
        (ts : List Turn) (o : Option ConsumerError × Consumer S)
        → o.0 ≢ none
        → run_group has_dlq handler (alone ts) (group_of o) ≡ group_of o
    over_group ts (none, c) h = elim (h refl) [ ]
    over_group ts (some e, c) h = returned_group ts e c

    rest_of :
        (ts : List Turn) (o : Option ConsumerError × Consumer S)
        → ((c : Consumer S)
            → run_group has_dlq handler (alone ts) (group_of (none, c))
              ≡ group_of (leave (consume has_dlq handler ts c)))
        → run_group has_dlq handler (alone ts) (group_of (leave o))
          ≡ group_of (leave (proceed (consume has_dlq handler ts) o))
    unfolding leave
    rest_of ts (none, c) later = later c
    rest_of ts (some e, c) later =
        over_group ts (leave (some e, c)) (left e c (close_channel 0 c.closed_stops) refl).0

    same_group :
        (ts : List Turn) (c : Consumer S)
        → run_group has_dlq handler (alone ts) (group_of (none, c))
          ≡ group_of (consume_worker has_dlq handler ts c)
    unfolding run_group consume_worker consume
    same_group [] c = unfold leave in refl
    same_group (t ∷ ts) c =
        ap (run_group has_dlq handler (alone ts)) (first_turn t c)
        ∙ rest_of ts (turn has_dlq handler t c) (λ c'. same_group ts c')

    -- A consumer configured with one goroutine or none starts one, and over any passes this is as if
    -- `consumeWorker` ran alone: it leaves the same books, state of the handler and result; `Consume`
    -- has not returned as long as the goroutine runs, returns the very error that it returns, and
    -- does not return if it panics, which crashes the process.
    pub run_group-alone :
        (workers : ℕ) (batcher : CommitBatcher) (s : S) (ts : List Turn)
        → workers ≤ 1
        → let g = run_group has_dlq handler (alone ts) (start_group workers batcher s) in
          let r = consume_worker has_dlq handler ts (new_member batcher s).goroutine in
          (g.members ≡ record { goroutine = r.1; result = r.0 } ∷ [])
          × (g.shared ≡ r.1.handled)
          × (wait g ≡ consume_returned r.0)
          × (g.crashed ≡ is_panic r.0)
    run_group-alone workers batcher s ts h =
        let c : Consumer S = (new_member batcher s).goroutine in
        let same =
          ap (run_group has_dlq handler (alone ts)) (one_member workers batcher s h)
          ∙ same_group ts c in
        (
          ap (λ (g : Group S). g.members) same,
          ap (λ (g : Group S). g.shared) same,
          ap wait same ∙ wait-group_of _ _,
          ap (λ (g : Group S). g.crashed) same,
        )
