-- ===== src/Consumer/Group.antt =====
-- The goroutines of one consumer: `NewConsumer`, `Consume` and `Close` of consumer.go, over an
-- errgroup, whose first error cancels the context of all and is what `Wait` returns once every
-- goroutine has returned.
pub mod Justified
pub mod Members
pub mod Books
pub mod Waits
pub mod Single
use workers_kafka.Prelude.{
  ℕ, zero, suc, List, [], ◌∷◌, Option, none, some, Bool, true, false, ◌||◌, ltb, if◌then◌else◌,
}
use workers_kafka.Domain.{Event}
use workers_kafka.Errors.{Result}
use workers_kafka.Consumer.{Consumer, ConsumerError, CommitBatcher, panicked, Turn, turn, leave}

-- `WorkersFromEnv`; `none` is a variable that is empty or not a number.
unfoldable pub workers_from_env : Option ℕ → ℕ
workers_from_env none = 1
workers_from_env (some n) = if ltb n 1 then 1 else n

-- The number of goroutines of a consumer that `NewConsumer` made.
unfoldable pub configured_workers : ℕ → ℕ
configured_workers workers = if ltb workers 1 then 1 else workers

-- A goroutine of the group, and what it returned (`none`: it runs).
pub record Member (S : Type 0) : Type 0 where
  pub goroutine : Consumer S
  pub result : Option ConsumerError

-- The goroutines, the state that their handlers share, the error that cancelled the context, and
-- whether a goroutine panicked, which ends the process.
pub record Group (S : Type 0) : Type 0 where
  pub members : List (Member S)
  pub shared : S
  pub first_error : Option ConsumerError
  pub crashed : Bool

module _ {S : Type 0} where
  -- What a goroutine starts with: a reader of its own, nothing to commit.
  unfoldable pub new_member : CommitBatcher → S → Member S
  new_member batcher s = record {
    goroutine = record {
      handled = s;
      pending_commits = [];
      batcher = batcher;
      committed = [];
      dead = [];
      reconnects = 0;
      stall_stop = 0;
      closed_stops = [];
    };
    result = none;
  }

  unfoldable pub new_members : ℕ → CommitBatcher → S → List (Member S)
  unfolding new_member
  new_members zero batcher s = []
  new_members (suc n) batcher s = new_member batcher s ∷ new_members n batcher s

  -- The loop of `Consume` that starts the goroutines.
  unfoldable pub start_group : ℕ → CommitBatcher → S → Group S
  unfolding configured_workers new_members
  start_group workers batcher s = record {
    members = new_members (configured_workers workers) batcher s;
    shared = s;
    first_error = none;
    crashed = false;
  }

  abbrev pub is_running : Member S → Bool
  is_running m = elim m.result [ none ↦ true | some e ↦ false ]

  abbrev pub any_running : List (Member S) → Bool
  any_running [] = false
  any_running (m ∷ ms) = is_running m || any_running ms

  -- `eg.Wait()`: what it returns, and `none` as long as it waits or if a panic has ended the process.
  unfoldable pub wait : Group S → Option (Option ConsumerError)
  wait g = if g.crashed || any_running g.members then none else some g.first_error

  abbrev pub is_cancelled : Group S → Bool
  is_cancelled g = elim g.first_error [ none ↦ false | some e ↦ true ]

  -- A goroutine has returned: the first error is kept.
  unfoldable pub report : Option ConsumerError → Group S → Group S
  report none g = g
  report (some panicked) g = record g { crashed = true }
  report (some e) g = record g {
    first_error = elim g.first_error [ none ↦ some e | some f ↦ some f ];
  }

  module _ (has_dlq : Bool) (handler : Event → S → Result (Unit {0}) × S) where
    -- A pass of a goroutine, in a context that the group may have cancelled.
    abbrev pub run_goroutine : Bool → Turn → S → Consumer S → Option ConsumerError × Consumer S
    run_goroutine cancelled t s c = leave (
        turn has_dlq handler (record t { context_done = t.context_done || cancelled })
          (record c { handled = s }))

    abbrev pub run_member :
        Bool → Turn → S → Member S → Option ConsumerError → Option ConsumerError × S × Member S
    run_member cancelled t s m (some e) = (none, s, m)
    run_member cancelled t s m none =
        let (o, c) = run_goroutine cancelled t s m.goroutine in
        (o, c.handled, record { goroutine = c; result = o })

    unfoldable pub run_nth :
        ℕ → Bool → Turn → S → List (Member S) → Option ConsumerError × S × List (Member S)
    run_nth i cancelled t s [] = (none, s, [])
    run_nth zero cancelled t s (m ∷ ms) =
        let (o, s', m') = run_member cancelled t s m m.result in (o, s', m' ∷ ms)
    run_nth (suc i) cancelled t s (m ∷ ms) =
        let (o, s', ms') = run_nth i cancelled t s ms in (o, s', m ∷ ms')

    -- A pass of the goroutine number `i`.
    unfoldable pub group_turn : ℕ → Turn → Group S → Group S
    unfolding run_nth report
    group_turn i t g =
        if g.crashed
        then g
        else (let (o, s', ms) = run_nth i (is_cancelled g) t g.shared g.members in
            report o (record g { members = ms; shared = s' }))

    -- The passes of all goroutines, in the order in which they happen.
    unfoldable pub run_group : List (ℕ × Turn) → Group S → Group S
    unfolding group_turn
    run_group [] g = g
    run_group ((i, t) ∷ rest) g = run_group rest (group_turn i t g)

-- `Close`: all readers are closed, and the first error is returned. `close` is that of kafka-go.
unfoldable pub close_readers : {R E : Type 0} → (R → Option E × R) → List R → Option E × List R
close_readers close [] = (none, [])
close_readers close (r ∷ rest) =
    let (e, r') = close r in
    let (f, rest') = close_readers close rest in (elim e [ none ↦ f | some x ↦ some x ], r' ∷ rest')
