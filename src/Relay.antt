-- ===== src/Relay.antt =====
-- The outbox relay: relayOnce of cmd/outbox-relay/main.go over the claims, marks and purges of
-- internal/infrastructure/persistence/postgres/outbox_repository.go. The Kafka writer is a
-- parameter, and so are the rows that other relays have locked and the order of RETURNING.
pub mod Rows
pub mod Updates
pub mod Sent
pub mod Service
pub mod Counts
pub mod Drain
pub mod Messages
pub mod Safe
pub mod Claims
pub mod Exclusive
use workers_kafka.Prelude.{
  In, ℕ, zero, suc, ◌+◌, List, [], ◌∷◌, Option, none, some, Bool, true, false, not, ◌&&◌, ltb, ◌==◌,
  length, if◌then◌else◌,
}
use workers_kafka.Store.{OutboxRow}
use workers_kafka.Producer.{KafkaMessage, Writer, publish_batch}

-- The outbox table in the order of its ids, the state of the broker, how many more calls of the
-- database succeed (`none`: all), and the clock.
pub record Relay (B : Type 0) : Type 0 where
  pub rows : List OutboxRow
  pub broker : B
  pub faults : Option ℕ
  pub now : ℕ

pub data RelayOutcome : Type 0 where
  relayed : ℕ → RelayOutcome
  database_failed publish_failed : RelayOutcome

abbrev pub is_pending : OutboxRow → Bool
is_pending r = elim r.published_at [ none ↦ true | some p ↦ false ]

-- `claimed_at IS NULL OR claimed_at < now() - $2`
abbrev pub is_free : ℕ → ℕ → OutboxRow → Bool
is_free now timeout r = elim r.claimed_at [ none ↦ true | some c ↦ ltb (c + timeout) now ]

-- `published_at IS NOT NULL AND published_at < now() - $1`
abbrev pub is_old : ℕ → ℕ → OutboxRow → Bool
is_old now age r = elim r.published_at [ none ↦ false | some p ↦ ltb (p + age) now ]

-- The ids of the first `limit` rows that can be claimed; SKIP LOCKED passes over locked rows.
unfoldable pub pick : (ℕ → Bool) → ℕ → ℕ → ℕ → List OutboxRow → List ℕ
pick locked now timeout limit [] = []
pick locked now timeout zero (r ∷ rest) = []
pick locked now timeout (suc n) (r ∷ rest) =
    let taken = pick locked now timeout n rest in
    let passed = pick locked now timeout (suc n) rest in
    if is_pending r && is_free now timeout r && not (locked r.id) then r.id ∷ taken else passed

unfoldable pub has_id : ℕ → List ℕ → Bool
has_id i [] = false
has_id i (j ∷ rest) = if i == j then true else has_id i rest

-- `UPDATE outbox SET claimed_at = now() WHERE id IN …`
unfoldable pub set_claimed : ℕ → List ℕ → List OutboxRow → List OutboxRow
unfolding has_id
set_claimed now ids [] = []
set_claimed now ids (r ∷ rest) =
    (if has_id r.id ids then record r { claimed_at = some now } else r) ∷ set_claimed now ids rest

-- The rows with one of the ids, in the order of the table.
unfoldable pub rows_with : List ℕ → List OutboxRow → List OutboxRow
unfolding has_id
rows_with ids [] = []
rows_with ids (r ∷ rest) =
    let found = rows_with ids rest in if has_id r.id ids then r ∷ found else found

-- `MarkPublishedBatch`, with `UPDATE outbox SET published_at = now() WHERE id = ANY($1)`
unfoldable pub set_published : ℕ → List ℕ → List OutboxRow → List OutboxRow
unfolding has_id
set_published now ids [] = []
set_published now ids (r ∷ rest) =
    (if has_id r.id ids then record r { published_at = some now } else r)
    ∷ set_published now ids rest

-- `MarkPublished`, of one row.
unfoldable pub mark_published : ℕ → ℕ → List OutboxRow → List OutboxRow
mark_published now id [] = []
mark_published now id (r ∷ rest) =
    (if r.id == id then record r { published_at = some now } else r) ∷ mark_published now id rest

-- `FetchPending`: the first `limit` rows that wait, with no claim.
unfoldable pub fetch_pending : ℕ → List OutboxRow → List OutboxRow
fetch_pending limit [] = []
fetch_pending zero (r ∷ rest) = []
fetch_pending (suc n) (r ∷ rest) =
    let taken = fetch_pending n rest in
    let passed = fetch_pending (suc n) rest in if is_pending r then r ∷ taken else passed

-- The table after `PurgePublished`.
unfoldable pub purge_published : ℕ → ℕ → List OutboxRow → List OutboxRow
purge_published now age [] = []
purge_published now age (r ∷ rest) =
    let kept = purge_published now age rest in if is_old now age r then kept else r ∷ kept

-- `CountPending`
unfoldable pub count_pending : List OutboxRow → ℕ
count_pending [] = 0
count_pending (r ∷ rest) = let n = count_pending rest in if is_pending r then suc n else n

-- `ids[i] = entry.ID`
unfoldable pub ids_of : List OutboxRow → List ℕ
ids_of [] = []
ids_of (r ∷ rest) = r.id ∷ ids_of rest

-- The message of a row: its topic, key and payload, with the trace of the event's producer.
unfoldable pub message_of : OutboxRow → KafkaMessage
message_of r = record {
  topic = r.topic;
  key = r.key;
  value = r.payload;
  traceparent = r.traceparent;
}

unfoldable pub messages_of : List OutboxRow → List KafkaMessage
unfolding message_of
messages_of [] = []
messages_of (r ∷ rest) = message_of r ∷ messages_of rest

-- `OUTBOX_BATCH_SIZE`: `none` where it is empty, malformed or below 0.
unfoldable pub relay_batch_size : Option ℕ → ℕ
relay_batch_size none = 500
relay_batch_size (some n) = if ltb n 1 then 500 else n

-- RETURNING gives back the updated rows in no certain order: the same rows, arranged in some way.
pub record Returning : Type 0 where
  pub arrange : List OutboxRow → List OutboxRow
  pub arranged : (r : OutboxRow) (l : List OutboxRow) → In r l → In r (arrange l)
  pub present : (r : OutboxRow) (l : List OutboxRow) → In r (arrange l) → In r l

module _ {B : Type 0} (writer : Writer B) (returning : Returning) where
  -- The mark of the entries, once the brokers took their messages.
  mark_entries : List OutboxRow → Relay B → RelayOutcome × Relay B
  unfolding set_published ids_of
  mark_entries entries s = elim s.faults [
    | none ↦
        (relayed (length entries), record s { rows = set_published s.now (ids_of entries) s.rows })
    | some zero ↦ (database_failed, s)
    | some (suc n) ↦ (
      relayed (length entries),
      record s { rows = set_published s.now (ids_of entries) s.rows; faults = some n },
    )
  ]

  publish_entries : List OutboxRow → Relay B → RelayOutcome × Relay B
  unfolding messages_of mark_entries publish_batch
  publish_entries [] s = (relayed 0, s)
  publish_entries (r ∷ rest) s =
      let (accepted, broker') = publish_batch writer (messages_of (r ∷ rest)) s.broker in
      if accepted
      then mark_entries (r ∷ rest) (record s { broker = broker' })
      else (publish_failed, record s { broker = broker' })

  claim_entries : (ℕ → Bool) → ℕ → ℕ → Relay B → RelayOutcome × Relay B
  unfolding pick set_claimed rows_with publish_entries
  claim_entries locked timeout limit s =
      let ids = pick locked s.now timeout limit s.rows in
      let claimed = set_claimed s.now ids s.rows in
      publish_entries (returning.arrange (rows_with ids claimed)) (record s { rows = claimed })

  -- `relayOnce`
  unfoldable pub relay_once : (ℕ → Bool) → ℕ → ℕ → Relay B → RelayOutcome × Relay B
  unfolding claim_entries
  relay_once locked timeout limit s = elim s.faults [
    | none ↦ claim_entries locked timeout limit s
    | some zero ↦ (database_failed, s)
    | some (suc n) ↦ claim_entries locked timeout limit (record s { faults = some n })
  ]
