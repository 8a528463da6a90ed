-- ===== src/Relay/Sent.antt =====
-- The marks of the outbox beside what the brokers received.
use workers_kafka.Prelude.{
  ℕ, zero, suc, ◌≡◌, refl, subst, ◌∙◌, ◌⊎◌, inl, inr, List, [], ◌∷◌, In, Option, none, some, Bool,
  true, false, if◌then◌else◌,
}
use workers_kafka.Store.{OutboxRow}
use workers_kafka.Producer.{KafkaMessage, Writer, publish_batch}
use workers_kafka.Relay.{
  Relay, RelayOutcome, Returning, publish_failed, is_pending, set_claimed, set_published, has_id,
  ids_of, rows_with, message_of, messages_of, mark_entries, publish_entries, claim_entries,
  relay_once, pick,
}
use workers_kafka.Relay.Updates.{
  Before, claimed-Before, published-Before, In-rows_with, rows_with-has_id, has_id-ids_of,
  In-messages_of,
}

-- Every row that is marked as published has been received by the brokers.
pub record Sent {B : Type 0} (writer : Writer B) (s : Relay B) : Type 0 where
  pub received :
      (r : OutboxRow) → In r s.rows → is_pending r ≡ false → writer.Received s.broker (message_of r)

module _ {B : Type 0} (writer : Writer B) where
  Received-as :
      (b : B) (q r : OutboxRow)
      → message_of q ≡ message_of r
      → writer.Received b (message_of q)
      → writer.Received b (message_of r)
  Received-as b q r e h = subst (λ (m : KafkaMessage). writer.Received b m) e h

  marked_earlier :
      (l : List OutboxRow) (ids : List ℕ) (r : OutboxRow) (b : Before l ids r)
      → is_pending r ≡ false
      → (is_pending b.row ≡ false) ⊎ (has_id b.row.id ids ≡ true)
  marked_earlier l ids r b h = elim b.marked [ inl same ↦ inl (same ∙ h) | inr m ↦ inr m ]

  claimed-Sent :
      (ids : List ℕ) (s : Relay B)
      → Sent writer s
      → Sent writer (record s { rows = set_claimed s.now ids s.rows })
  unfolding has_id
  claimed-Sent ids s h = record {
    received = λ r i p.
        let b = claimed-Before s.now ids s.rows r i in
        elim (marked_earlier s.rows [] r b p) [
          | inl q ↦ Received-as s.broker b.row r b.message (h.received b.row b.there q)
          | inr m ↦ cc
        ];
  }

  -- Rows are marked that the brokers received.
  published-Sent :
      (ids : List ℕ) (s : Relay B)
      → Sent writer s
      → ((r : OutboxRow)
          → In r s.rows
          → has_id r.id ids ≡ true
          → writer.Received s.broker (message_of r))
      → Sent writer (record s { rows = set_published s.now ids s.rows })
  published-Sent ids s h sent = record {
    received = λ r i p.
        let b = published-Before s.now ids s.rows r i in
        Received-as s.broker b.row r b.message (elim (marked_earlier s.rows ids r b p) [
          | inl q ↦ h.received b.row b.there q
          | inr m ↦ sent b.row b.there m
        ]);
  }

  module _ (returning : Returning) where
    mark-Sent :
        (entries : List OutboxRow) (s : Relay B) (f : Option ℕ)
        → s.faults ≡ f
        → Sent writer s
        → ((r : OutboxRow)
            → In r s.rows
            → has_id r.id (ids_of entries) ≡ true
            → writer.Received s.broker (message_of r))
        → Sent writer (mark_entries writer returning entries s).1
    unfolding mark_entries
    mark-Sent entries s none f h sent =
        rw f (record { received = (published-Sent (ids_of entries) s h sent).received })
    mark-Sent entries s (some zero) f h sent = rw f (record { received = h.received })
    mark-Sent entries s (some (suc n)) f h sent =
        rw f (record { received = (published-Sent (ids_of entries) s h sent).received })

    broker-Sent :
        (entries : List OutboxRow) (s : Relay B)
        → Sent writer s
        → Sent writer
            (record s { broker = (publish_batch writer (messages_of entries) s.broker).1 })
    unfolding publish_batch messages_of
    broker-Sent [] s h = record { received = h.received }
    broker-Sent (e ∷ es) s h = record {
      received = λ r i p. writer.write-keeps _ s.broker (message_of r) (h.received r i p);
    }

    if-Sent :
        (b : Bool) (o p : RelayOutcome × Relay B)
        → (b ≡ true → Sent writer o.1)
        → Sent writer p.1
        → Sent writer (if b then o else p).1
    if-Sent true o p f g = f refl
    if-Sent false o p f g = g

    publish-Sent :
        (entries : List OutboxRow) (s : Relay B)
        → Sent writer s
        → ((r : OutboxRow) → In r s.rows → has_id r.id (ids_of entries) ≡ true → In r entries)
        → Sent writer (publish_entries writer returning entries s).1
    unfolding publish_entries publish_batch messages_of
    publish-Sent [] s h complete = h
    publish-Sent (e ∷ es) s h complete =
        let (accepted, broker') = publish_batch writer (messages_of (e ∷ es)) s.broker in
        let after : Relay B = record s { broker = broker' } in
        if-Sent accepted (mark_entries writer returning (e ∷ es) after) (publish_failed, after)
          (λ yes. mark-Sent (e ∷ es) after s.faults refl (broker-Sent (e ∷ es) s h) (λ r i m.
            writer.write-Received (messages_of (e ∷ es)) s.broker (message_of r) yes
              (In-messages_of (e ∷ es) r (complete r i m))))
          (broker-Sent (e ∷ es) s h)

    arrange_complete :
        (ids : List ℕ) (l : List OutboxRow) (r : OutboxRow)
        → In r l
        → has_id r.id (ids_of (returning.arrange (rows_with ids l))) ≡ true
        → In r (returning.arrange (rows_with ids l))
    arrange_complete ids l r i h =
        let (q, there, same) = has_id-ids_of r.id (returning.arrange (rows_with ids l)) h in
        returning.arranged r (rows_with ids l) (
          In-rows_with ids l r i (
            subst (λ (j : ℕ). has_id j ids ≡ true) same
              (rows_with-has_id ids l q (returning.present q (rows_with ids l) there))))

    claim-Sent :
        (locked : ℕ → Bool) (timeout limit : ℕ) (s : Relay B)
        → Sent writer s
        → Sent writer (claim_entries writer returning locked timeout limit s).1
    unfolding claim_entries
    claim-Sent locked timeout limit s h =
        let ids = pick locked s.now timeout limit s.rows in
        publish-Sent (returning.arrange (rows_with ids (set_claimed s.now ids s.rows)))
          (record s { rows = set_claimed s.now ids s.rows }) (claimed-Sent ids s h)
          (arrange_complete ids (set_claimed s.now ids s.rows))

    relay-Sent :
        (locked : ℕ → Bool) (timeout limit : ℕ) (s : Relay B) (f : Option ℕ)
        → s.faults ≡ f
        → Sent writer s
        → Sent writer (relay_once writer returning locked timeout limit s).1
    unfolding relay_once
    relay-Sent locked timeout limit s none f h = rw f (
        claim-Sent locked timeout limit (record s { faults = none })
          (record { received = h.received }))
    relay-Sent locked timeout limit s (some zero) f h = rw f (record { received = h.received })
    relay-Sent locked timeout limit s (some (suc n)) f h = rw f (
        claim-Sent locked timeout limit (record s { faults = some n })
          (record { received = h.received }))

    -- If every row marked as published has been received by the brokers, the same holds after a
    -- cycle of the relay, whatever rows are locked, whatever the brokers answer, in whatever order
    -- the claim returns its rows, and whichever calls of the database fail.
    pub relay_once-Sent :
        (locked : ℕ → Bool) (timeout limit : ℕ) (s : Relay B)
        → Sent writer s
        → Sent writer (relay_once writer returning locked timeout limit s).1
    relay_once-Sent locked timeout limit s h = relay-Sent locked timeout limit s s.faults refl h
