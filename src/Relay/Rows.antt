-- ===== src/Relay/Rows.antt =====
-- The rows of the outbox before and after a cycle of the relay and a purge.
use workers_kafka.Prelude.{
  ℕ, zero, suc, ◌≡◌, refl, ◌∙◌, List, [], ◌∷◌, Option, none, some, Bool, true, false, arith,
  if◌then◌else◌,
}
use workers_kafka.Store.{OutboxRow}
use workers_kafka.Producer.{Writer, publish_batch}
use workers_kafka.Relay.{
  Relay, RelayOutcome, Returning, publish_failed, rows_with, ids_of, messages_of, set_claimed,
  set_published, purge_published, count_pending, mark_entries, publish_entries, claim_entries,
  relay_once, pick,
}

-- What a row is about, without the columns of the relay.
abbrev pub bare : OutboxRow → OutboxRow
bare r = record r { claimed_at = none; published_at = none }

abbrev pub bare_rows : List OutboxRow → List OutboxRow
bare_rows [] = []
bare_rows (r ∷ rest) = bare r ∷ bare_rows rest

set_claimed-bare :
    (now : ℕ) (ids : List ℕ) (l : List OutboxRow) → bare_rows (set_claimed now ids l) ≡ bare_rows l
unfolding set_claimed
set_claimed-bare now ids [] = refl
set_claimed-bare now ids (r ∷ rest) = ground (arith, set_claimed-bare now ids rest)

set_published-bare :
    (now : ℕ) (ids : List ℕ) (l : List OutboxRow)
    → bare_rows (set_published now ids l) ≡ bare_rows l
unfolding set_published
set_published-bare now ids [] = refl
set_published-bare now ids (r ∷ rest) = ground (arith, set_published-bare now ids rest)

set_claimed-pending :
    (now : ℕ) (ids : List ℕ) (l : List OutboxRow)
    → count_pending (set_claimed now ids l) ≡ count_pending l
unfolding set_claimed count_pending
set_claimed-pending now ids [] = refl
set_claimed-pending now ids (r ∷ rest) = ground (arith, set_claimed-pending now ids rest)

-- A purge leaves the number of rows that wait to be published as it is.
pub count_pending-purge_published :
    (now age : ℕ) (l : List OutboxRow) → count_pending (purge_published now age l) ≡ count_pending l
unfolding purge_published count_pending
count_pending-purge_published now age [] = refl
count_pending-purge_published now age (r ∷ rest) =
    ground (arith, count_pending-purge_published now age rest)

-- The outcome of a cycle that failed.
abbrev pub is_failed : RelayOutcome → Bool
is_failed (RelayOutcome.relayed n) = false
is_failed _ = true

-- After a cycle: the same messages, and the same number that wait if it failed.
pub record Kept {B : Type 0} (s : Relay B) (o : RelayOutcome × Relay B) : Type 0 where
  pub messages : bare_rows o.1.rows ≡ bare_rows s.rows
  pub waiting :
      (if is_failed o.0 then count_pending o.1.rows else count_pending s.rows)
      ≡ count_pending s.rows

module _ {B : Type 0} (writer : Writer B) (returning : Returning) where
  mark-Kept :
      (entries : List OutboxRow) (s : Relay B) (f : Option ℕ)
      → s.faults ≡ f
      → Kept s (mark_entries writer returning entries s)
  unfolding mark_entries
  mark-Kept entries s none h =
      rw h (record { messages = set_published-bare s.now (ids_of entries) s.rows; waiting = refl })
  mark-Kept entries s (some zero) h = rw h (record { messages = refl; waiting = refl })
  mark-Kept entries s (some (suc n)) h =
      rw h (record { messages = set_published-bare s.now (ids_of entries) s.rows; waiting = refl })

  if-Kept :
      (s : Relay B) (b : Bool) {o p : RelayOutcome × Relay B}
      → Kept s o
      → Kept s p
      → Kept s (if b then o else p)
  if-Kept s true a b = a
  if-Kept s false a b = b

  same-Kept :
      (s s' : Relay B) (o : RelayOutcome × Relay B)
      → bare_rows s'.rows ≡ bare_rows s.rows
      → count_pending s'.rows ≡ count_pending s.rows
      → Kept s' o
      → Kept s o
  same-Kept s s' o m w k = record {
    messages = k.messages ∙ m;
    waiting = ground (arith, k.waiting, w);
  }

  publish-Kept :
      (entries : List OutboxRow) (s : Relay B) → Kept s (publish_entries writer returning entries s)
  unfolding publish_entries
  publish-Kept [] s = record { messages = refl; waiting = refl }
  publish-Kept (r ∷ rest) s =
      let (accepted, broker') = publish_batch writer (messages_of (r ∷ rest)) s.broker in
      let after : Relay B = record s { broker = broker' } in
      if-Kept s accepted {p = (publish_failed, after)}
        (same-Kept s after _ refl refl (mark-Kept (r ∷ rest) after s.faults refl))
        (record { messages = refl; waiting = refl })

  claim-Kept :
      (locked : ℕ → Bool) (timeout limit : ℕ) (s : Relay B)
      → Kept s (claim_entries writer returning locked timeout limit s)
  unfolding claim_entries
  claim-Kept locked timeout limit s =
      let ids = pick locked s.now timeout limit s.rows in
      let claimed = set_claimed s.now ids s.rows in
      same-Kept s (record s { rows = claimed }) _ (set_claimed-bare s.now ids s.rows)
        (set_claimed-pending s.now ids s.rows)
        (publish-Kept (returning.arrange (rows_with ids claimed)) (record s { rows = claimed }))

  relay-Kept :
      (locked : ℕ → Bool) (timeout limit : ℕ) (s : Relay B) (f : Option ℕ)
      → s.faults ≡ f
      → Kept s (relay_once writer returning locked timeout limit s)
  unfolding relay_once
  relay-Kept locked timeout limit s none h =
      rw h
        (same-Kept _ _ _ refl refl (claim-Kept locked timeout limit (record s { faults = none })))
  relay-Kept locked timeout limit s (some zero) h =
      rw h (record { messages = refl; waiting = refl })
  relay-Kept locked timeout limit s (some (suc n)) h =
      rw h
        (same-Kept _ _ _ refl refl (claim-Kept locked timeout limit (record s { faults = some n })))

  -- Whatever the brokers answer, whatever rows are locked and whichever calls of the database fail:
  -- a cycle of the relay removes and changes no message of the outbox, and if it reports a failure,
  -- as many messages wait to be published as before.
  pub relay_once-Kept :
      (locked : ℕ → Bool) (timeout limit : ℕ) (s : Relay B)
      → Kept s (relay_once writer returning locked timeout limit s)
  relay_once-Kept locked timeout limit s = relay-Kept locked timeout limit s s.faults refl
