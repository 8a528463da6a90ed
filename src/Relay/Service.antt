-- ===== src/Relay/Service.antt =====
-- The relay at work: the main function of cmd/outbox-relay/main.go, whose loop runs cycles, sleeps
-- after an empty or a failed one and ends when its context is done, beside the goroutines that count
-- and purge. Other services add rows in the meantime, and other relays may run cycles of their own.
use workers_kafka.Prelude.{
  ℕ, zero, suc, ◌*◌, List, [], ◌∷◌, ◌++◌, Option, none, some, Bool, true, false, ltb, not,
  if◌then◌else◌,
}
use workers_kafka.Store.{OutboxRow}
use workers_kafka.Producer.{Writer}
use workers_kafka.Relay.{Relay, RelayOutcome, Returning, relay_once, purge_published, count_pending}

-- `claimTimeout` and `purgeAfter`, in milliseconds.
abbrev pub claim_timeout : ℕ
claim_timeout = 60 * 1000

abbrev pub purge_after : ℕ
purge_after = 7 * 24 * 3600 * 1000

-- `OUTBOX_POLL_INTERVAL` in milliseconds: `none` where it is empty or malformed.
unfoldable pub poll_backoff : Option ℕ → ℕ
poll_backoff none = 250
poll_backoff (some d) = if ltb d 10 then 250 else d

-- What a cycle meets: the rows that other relays have locked, the database call that fails, the
-- clock at its start and at its end, and whether the context is done while the loop sleeps.
pub record Pass : Type 0 where
  pub locked : ℕ → Bool
  pub faults : Option ℕ
  pub now : ℕ
  pub concluded : ℕ
  pub interrupted : Bool

-- A cycle of this relay; a tick of the count, which may fail; a tick of the purge, which may fail; a
-- row that a service adds; a cycle of another relay.
pub data Step : Type 0 where
  cycle : Pass → Step
  count_tick : Bool → Step
  purge_tick : Bool → ℕ → Step
  row_added : OutboxRow → Step
  other_cycle : Pass → Step

-- The tables and brokers, `lastActivity`, and the gauge of the rows that wait.
pub record Service (B : Type 0) : Type 0 where
  pub relay : Relay B
  pub last_activity : ℕ
  pub pending_gauge : ℕ

-- Whether the loop goes on after a cycle: it sleeps unless it published something.
unfoldable pub goes_on : Pass → RelayOutcome → Bool
goes_on p (RelayOutcome.relayed zero) = not p.interrupted
goes_on p (RelayOutcome.relayed (suc n)) = true
goes_on p _ = not p.interrupted

module _ {B : Type 0} (writer : Writer B) (returning : Returning) (limit : ℕ) where
  unfoldable pub cycle_on : Pass → Relay B → RelayOutcome × Relay B
  cycle_on p r =
      relay_once writer returning p.locked claim_timeout limit
        (record r { faults = p.faults; now = p.now })

  -- What a step does, and whether the relay goes on.
  unfoldable pub step : Step → Service B → Bool × Service B
  unfolding cycle_on goes_on purge_published count_pending
  step (cycle p) s =
      let (o, r) = cycle_on p s.relay in
      (goes_on p o, record s { relay = r; last_activity = p.concluded })
  step (count_tick fails) s = (
    true,
    record s { pending_gauge = if fails then s.pending_gauge else count_pending s.relay.rows },
  )
  step (purge_tick fails now) s = (
    true,
    record s {
      relay = record s.relay {
        rows = if fails then s.relay.rows else purge_published now purge_after s.relay.rows;
      };
    },
  )
  step (row_added r) s = (
    true,
    record s {
      relay = record s.relay {
        rows = s.relay.rows ++ (record r { claimed_at = none; published_at = none } ∷ []);
      };
    },
  )
  step (other_cycle p) s = let (o, r) = cycle_on p s.relay in (true, record s { relay = r })

  abbrev pub step_on : (Service B → Bool × Service B) → Bool × Service B → Bool × Service B
  step_on next (true, s) = next s
  step_on next (false, s) = (false, s)

  -- The steps until the loop returns (`false`).
  unfoldable pub run_relay : List Step → Service B → Bool × Service B
  unfolding step
  run_relay [] s = (true, s)
  run_relay (e ∷ rest) s = step_on (run_relay rest) (step e s)
