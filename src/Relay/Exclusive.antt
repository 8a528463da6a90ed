-- ===== src/Relay/Exclusive.antt =====
-- A relay that has claimed rows, beside the cycles of other relays.
use workers_kafka.Prelude.{
  ℕ, zero, suc, ◌+◌, ◌≤◌, ◌≡◌, refl, List, [], ◌∷◌, Option, none, some, Bool, true, false, arith,
  not, ◌&&◌, leb, if◌then◌else◌,
}
use workers_kafka.Store.{OutboxRow}
use workers_kafka.Producer.{Writer, publish_batch}
use workers_kafka.Relay.{
  Relay, RelayOutcome, Returning, publish_failed, has_id, pick, set_claimed, relay_once,
  claim_entries, publish_entries, mark_entries, messages_of, ids_of,
}
use workers_kafka.Relay.Claims.{
  all_held, claimed-all_held, pick-avoids, claimed-held, published-held, purged-held, added-held,
}
use workers_kafka.Relay.Service.{
  Pass, Step, cycle, count_tick, purge_tick, row_added, other_cycle, Service, cycle_on, step,
  step_on, run_relay, claim_timeout, purge_after,
}

-- Cycles no later than `until`, and new rows with other ids.
abbrev pub within : List ℕ → ℕ → List Step → Bool
within ids until [] = true
within ids until (cycle p ∷ rest) = leb p.now until && within ids until rest
within ids until (other_cycle p ∷ rest) = leb p.now until && within ids until rest
within ids until (row_added r ∷ rest) = not (has_id r.id ids) && within ids until rest
within ids until (_ ∷ rest) = within ids until rest

module _ {B : Type 0} (writer : Writer B) (returning : Returning) (ids : List ℕ) (until : ℕ) where
  -- The rows of our claim are still held.
  abbrev Held : Relay B → Type 0
  Held s = all_held ids until s.rows ≡ true

  mark-Held :
      (entries : List OutboxRow) (s : Relay B) (f : Option ℕ)
      → s.faults ≡ f
      → Held s
      → Held (mark_entries writer returning entries s).1
  unfolding mark_entries
  mark-Held entries s none f h = rw f (published-held ids (ids_of entries) until s.now s.rows h)
  mark-Held entries s (some zero) f h = rw f h
  mark-Held entries s (some (suc n)) f h =
      rw f (published-held ids (ids_of entries) until s.now s.rows h)

  if-Held :
      (b : Bool) (o p : RelayOutcome × Relay B) → Held o.1 → Held p.1 → Held (if b then o else p).1
  if-Held true o p h k = h
  if-Held false o p h k = k

  publish-Held :
      (entries : List OutboxRow) (s : Relay B)
      → Held s
      → Held (publish_entries writer returning entries s).1
  unfolding publish_entries
  publish-Held [] s h = h
  publish-Held (e ∷ es) s h =
      let (accepted, broker') = publish_batch writer (messages_of (e ∷ es)) s.broker in
      let after : Relay B = record s { broker = broker' } in
      if-Held accepted (mark_entries writer returning (e ∷ es) after) (publish_failed, after)
        (mark-Held (e ∷ es) after s.faults refl h) h

  claim-Held :
      (limit : ℕ) (locked : ℕ → Bool) (s : Relay B)
      → s.now ≤ until
      → Held s
      → Held (claim_entries writer returning locked claim_timeout limit s).1
  unfolding claim_entries
  claim-Held limit locked s le h = publish-Held _ _ (
      claimed-held ids (pick locked s.now claim_timeout limit s.rows) until s.now s.rows
        (λ i k. pick-avoids ids until s.now limit i locked s.rows h le k) h)

  relay-Held :
      (limit : ℕ) (locked : ℕ → Bool) (s : Relay B) (f : Option ℕ)
      → s.faults ≡ f
      → s.now ≤ until
      → Held s
      → Held (relay_once writer returning locked claim_timeout limit s).1
  unfolding relay_once
  relay-Held limit locked s none f le h =
      rw f (claim-Held limit locked (record s { faults = none }) le h)
  relay-Held limit locked s (some zero) f le h = rw f h
  relay-Held limit locked s (some (suc n)) f le h =
      rw f (claim-Held limit locked (record s { faults = some n }) le h)

  cycle-Held :
      (limit : ℕ) (p : Pass) (s : Relay B)
      → leb p.now until ≡ true
      → Held s
      → Held (cycle_on writer returning limit p s).1
  unfolding cycle_on
  cycle-Held limit p s le h =
      let early : p.now ≤ until = ground (arith, le) in
      relay-Held limit p.locked (record s { faults = p.faults; now = p.now }) p.faults refl early h

  step-Held :
      (limit : ℕ) (e : Step) (s : Service B)
      → within ids until (e ∷ []) ≡ true
      → Held s.relay
      → Held (step writer returning limit e s).1.relay
  unfolding step
  step-Held limit (cycle p) s w h = cycle-Held limit p s.relay (ground (arith, w)) h
  step-Held limit (count_tick fails) s w h = h
  step-Held limit (purge_tick true now) s w h = h
  step-Held limit (purge_tick false now) s w h =
      purged-held ids until now purge_after s.relay.rows h
  step-Held limit (row_added q) s w h =
      added-held ids until (record q { claimed_at = none; published_at = none }) s.relay.rows
        (ground (arith, w)) h
  step-Held limit (other_cycle p) s w h = cycle-Held limit p s.relay (ground (arith, w)) h

  within-head :
      (e : Step) (rest : List Step)
      → within ids until (e ∷ rest) ≡ true
      → (within ids until (e ∷ []) ≡ true) × (within ids until rest ≡ true)
  within-head (cycle p) rest w = (ground (arith, w), ground (arith, w))
  within-head (other_cycle p) rest w = (ground (arith, w), ground (arith, w))
  within-head (row_added q) rest w = (ground (arith, w), ground (arith, w))
  within-head _ rest w = (refl, w)

  step_on-Held :
      (limit : ℕ) (rest : List Step) (o : Bool × Service B)
      → Held o.1.relay
      → ((s : Service B) → Held s.relay → Held (run_relay writer returning limit rest s).1.relay)
      → Held (step_on writer returning limit (run_relay writer returning limit rest) o).1.relay
  step_on-Held limit rest (true, s) h go = go s h
  step_on-Held limit rest (false, s) h go = h

  run-Held :
      (limit : ℕ) (steps : List Step) (s : Service B)
      → within ids until steps ≡ true
      → Held s.relay
      → Held (run_relay writer returning limit steps s).1.relay
  unfolding run_relay
  run-Held limit [] s w h = h
  run-Held limit (e ∷ rest) s w h =
      let (now, later) = within-head e rest w in
      step_on-Held limit rest (step writer returning limit e s) (step-Held limit e s now h)
        (λ s' h'. run-Held limit rest s' later h')

-- A relay that has claimed rows at the time `now` is alone with them for the length of the timeout:
-- after any steps within it, cycles of other relays among them, a claim within it takes none of
-- these rows, whatever is locked, fails or is answered, if no new row has an id of theirs.
pub run_relay-exclusive :
    {B : Type 0} (writer : Writer B) (returning : Returning) (limit now : ℕ) (ids : List ℕ)
    (l : List OutboxRow) (steps : List Step) (s : Service B) (locked : ℕ → Bool) (t i : ℕ)
    → s.relay.rows ≡ set_claimed now ids l
    → within ids (now + claim_timeout) steps ≡ true
    → t ≤ now + claim_timeout
    → has_id i ids ≡ true
    → has_id i
        (pick locked t claim_timeout limit (run_relay writer returning limit steps s).1.relay.rows)
      ≡ false
run_relay-exclusive writer returning limit now ids l steps s locked t i rows w le k =
    let held : all_held ids (now + claim_timeout) s.relay.rows ≡ true =
      rw rows (claimed-all_held ids now l) in
    pick-avoids ids (now + claim_timeout) t limit i locked _
      (run-Held writer returning ids (now + claim_timeout) limit steps s w held) le k
