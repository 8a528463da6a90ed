-- ===== src/Relay/Drain.antt =====
-- The outbox over cycles of the relay in which nothing fails.
use workers_kafka.Relay.Counts.{
  no_locks, all_free, Covers, count_pending-claimed, count_pending-Covers, published_none,
  picked-counts, all_free-after, all_free-later, pick-In, In-set_claimed, In-ids_of,
}
use workers_kafka.Prelude.{
  ℕ, zero, suc, ◌-◌, ◌≤◌, ◌≡◌, refl, sym, subst, ◌∙◌, List, [], ◌∷◌, Option, none, some, Bool, true,
  false, arith,
}
use workers_kafka.Store.{OutboxRow}
use workers_kafka.Producer.{KafkaMessage, Writer, publish_batch}
use workers_kafka.Relay.{
  Relay, RelayOutcome, Returning, set_claimed, set_published, has_id, ids_of, rows_with, message_of,
  messages_of, mark_entries, publish_entries, claim_entries, relay_once, relay_batch_size, pick,
  count_pending,
}
use workers_kafka.Relay.Service.{
  Pass, Step, cycle, Service, claim_timeout, goes_on, cycle_on, step, run_relay,
}
use workers_kafka.Relay.Updates.{In-rows_with}

relay_batch_size-positive : (setting : Option ℕ) → 1 ≤ relay_batch_size setting
unfolding relay_batch_size
relay_batch_size-positive none = omega arith
relay_batch_size-positive (some n) = ground arith

-- A cycle in which nothing fails and no row is locked, and cycles of that kind one after the other.
abbrev pub clean : ℕ → Pass
clean now = record {
  locked = no_locks;
  faults = none;
  now = now;
  concluded = suc now;
  interrupted = false;
}

abbrev pub clean_cycles : ℕ → ℕ → List Step
clean_cycles now zero = []
clean_cycles now (suc k) = cycle (clean now) ∷ clean_cycles (suc now) k

clean-goes_on : (now : ℕ) (o : RelayOutcome) → goes_on (clean now) o ≡ true
unfolding goes_on
clean-goes_on now (RelayOutcome.relayed zero) = refl
clean-goes_on now (RelayOutcome.relayed (suc n)) = refl
clean-goes_on now _ = refl

module _ {B : Type 0} (writer : Writer B) (returning : Returning)
    (accepts : (ms : List KafkaMessage) (b : B) → (writer.write ms b).0 ≡ true) where
  claimed-Covers :
      (now timeout limit at : ℕ) (l : List OutboxRow)
      → let ids = pick no_locks now timeout limit l in
        Covers (ids_of (returning.arrange (rows_with ids (set_claimed at ids l)))) ids
  claimed-Covers now timeout limit at l i h =
      let ids = pick no_locks now timeout limit l in
      let (r, there, same) = pick-In now timeout limit i l h in
      let (q, here, id) = In-set_claimed at ids l r there in
      subst
        (λ (j : ℕ).
          has_id j (ids_of (returning.arrange (rows_with ids (set_claimed at ids l)))) ≡ true)
        (id ∙ same)
        (In-ids_of _ q (
          returning.arranged q _ (
            In-rows_with ids (set_claimed at ids l) q here
              (subst (λ (j : ℕ). has_id j ids ≡ true) (sym (id ∙ same)) h))))

  published-rows :
      (entries : List OutboxRow) (s : Relay B)
      → s.faults ≡ none
      → ((publish_entries writer returning entries s).1.rows
          ≡ set_published s.now (ids_of entries) s.rows)
        × ((publish_entries writer returning entries s).1.faults ≡ none)
        × ((publish_entries writer returning entries s).1.now ≡ s.now)
  unfolding publish_entries publish_batch messages_of mark_entries ids_of
  published-rows [] s f = (sym (published_none s.now s.rows), f, refl)
  published-rows (e ∷ es) s f =
      rw (accepts (message_of e ∷ messages_of es) s.broker) (rw f (refl, refl, refl))

  -- What a cycle in which nothing fails leaves.
  record Cycled (timeout limit : ℕ) (s s' : Relay B) : Type 0 where
    pub fewer : count_pending s'.rows ≤ count_pending s.rows - limit
    pub free : all_free s.now timeout s'.rows ≡ true
    pub calm : s'.faults ≡ none
    pub now : s'.now ≡ s.now

  claim-Cycled :
      (timeout limit : ℕ) (s : Relay B)
      → s.faults ≡ none
      → all_free s.now timeout s.rows ≡ true
      → Cycled timeout limit s (claim_entries writer returning no_locks timeout limit s).1
  unfolding claim_entries
  claim-Cycled timeout limit s f free =
      let ids = pick no_locks s.now timeout limit s.rows in
      let claimed = set_claimed s.now ids s.rows in
      let entries = returning.arrange (rows_with ids claimed) in
      let (rows, calm, now) = published-rows entries (record s { rows = claimed }) f in
      let covers = claimed-Covers s.now timeout limit s.now s.rows in
      record {
        fewer = rw rows (
            omega (
              arith,
              count_pending-claimed s.now s.now (ids_of entries) ids s.rows,
              count_pending-Covers s.now ids (ids_of entries) s.rows covers,
              picked-counts s.now s.now timeout limit s.rows free,
            ));
        free = rw rows (all_free-after s.now s.now timeout ids (ids_of entries) s.rows free covers);
        calm = calm;
        now = now;
      }

  relay-Cycled :
      (timeout limit : ℕ) (s : Relay B)
      → s.faults ≡ none
      → all_free s.now timeout s.rows ≡ true
      → Cycled timeout limit s (relay_once writer returning no_locks timeout limit s).1
  unfolding relay_once
  relay-Cycled timeout limit s f free =
      rw f (claim-Cycled timeout limit (record s { faults = none }) refl free)

  abbrev Drained : Bool × Service B → Type 0
  Drained o = (o.0 ≡ true) × (count_pending o.1.relay.rows ≡ 0)

  cycles-drain :
      (limit now k : ℕ) (s : Service B)
      → all_free now claim_timeout s.relay.rows ≡ true
      → 1 ≤ limit
      → count_pending s.relay.rows ≤ k
      → Drained (run_relay writer returning limit (clean_cycles now k) s)
  unfolding run_relay step cycle_on
  cycles-drain limit now zero s free one h = (refl, omega (arith, h))
  cycles-drain limit now (suc k) s free one h =
      let start : Relay B = record s.relay { faults = none; now = now } in
      let c = relay-Cycled claim_timeout limit start refl free in
      let (o, r) = relay_once writer returning no_locks claim_timeout limit start in
      let s' : Service B = record s { relay = r; last_activity = suc now } in
      rw (clean-goes_on now o) (
        cycles-drain limit (suc now) k s' (all_free-later now claim_timeout r.rows c.free) one
          (omega (arith, c.fewer, one, h)))

  -- With no lock held by another relay, no database fault, brokers that accept every batch, and every
  -- waiting row free to be claimed: whatever the environment says of the batch size, after as many
  -- cycles as rows wait, or more, the loop still runs and no row waits to be published.
  pub run_relay-drain :
      (setting : Option ℕ) (now k : ℕ) (s : Service B)
      → all_free now claim_timeout s.relay.rows ≡ true
      → count_pending s.relay.rows ≤ k
      → Drained (run_relay writer returning (relay_batch_size setting) (clean_cycles now k) s)
  run_relay-drain setting now k s free h =
      cycles-drain (relay_batch_size setting) now k s free (relay_batch_size-positive setting) h
