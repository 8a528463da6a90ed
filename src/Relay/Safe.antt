-- ===== src/Relay/Safe.antt =====
-- No message of the outbox is lost over the life of the relay.
use workers_kafka.Prelude.{
  ℕ, zero, suc, ◌≡◌, refl, sym, subst, ◌∙◌, ◌⊎◌, inl, inr, List, [], ◌∷◌, ◌++◌, In, Option, none,
  some, Bool, true, false, if◌then◌else◌, In-++_left,
}
use workers_kafka.Store.{OutboxRow}
use workers_kafka.Producer.{KafkaMessage, Writer, publish_batch}
use workers_kafka.Relay.{
  Relay, RelayOutcome, Returning, publish_failed, is_pending, message_of, messages_of,
  purge_published, relay_once, mark_entries, publish_entries, claim_entries,
}
use workers_kafka.Relay.Messages.{There, same_messages, purge-In, In-purge, In-cases}
use workers_kafka.Relay.Rows.{relay_once-Kept}
use workers_kafka.Relay.Sent.{Sent, relay_once-Sent}
use workers_kafka.Relay.Service.{
  Pass, Step, cycle, count_tick, purge_tick, row_added, other_cycle, Service, cycle_on, step,
  step_on, run_relay, purge_after, claim_timeout,
}

module _ {B : Type 0} (writer : Writer B) where
  -- The relay has lost no message: the marks are true, what the brokers had they keep, and the
  -- message of each row is still in the outbox or has been received by the brokers.
  pub record Safe (s s' : Relay B) : Type 0 where
    pub sent : Sent writer s'
    pub brokers : (m : KafkaMessage) → writer.Received s.broker m → writer.Received s'.broker m
    pub rows :
        (r : OutboxRow) → In r s.rows → There s'.rows r ⊎ writer.Received s'.broker (message_of r)

  Safe-refl : (s : Relay B) → Sent writer s → Safe s s
  Safe-refl s h = record { sent = h; brokers = λ m r. r; rows = λ r i. inl (r, i, refl) }

  Safe-trans : (s s' s'' : Relay B) → Safe s s' → Safe s' s'' → Safe s s''
  Safe-trans s s' s'' a b = record {
    sent = b.sent;
    brokers = λ m r. b.brokers m (a.brokers m r);
    rows = λ r i. elim (a.rows r i) [
      | inl found ↦
          let (q, at, same) = found in
          elim (b.rows q at) [
            | inl again ↦ let (p, here, alike) = again in inl (p, here, alike ∙ same)
            | inr got ↦ inr (subst (λ (m : KafkaMessage). writer.Received s''.broker m) same got)
          ]
      | inr got ↦ inr (b.brokers (message_of r) got)
    ];
  }

  module _ (returning : Returning) where
    mark-broker :
        (entries : List OutboxRow) (s : Relay B) (f : Option ℕ)
        → s.faults ≡ f
        → (mark_entries writer returning entries s).1.broker ≡ s.broker
    unfolding mark_entries
    mark-broker entries s none h = rw h refl
    mark-broker entries s (some zero) h = rw h refl
    mark-broker entries s (some (suc n)) h = rw h refl

    Grown : B → B → Type 0
    Grown b b' = (m : KafkaMessage) → writer.Received b m → writer.Received b' m

    if-Grown :
        (b : Bool) (g : B) (o p : RelayOutcome × Relay B)
        → Grown g o.1.broker
        → Grown g p.1.broker
        → Grown g (if b then o else p).1.broker
    if-Grown true g o p h k = h
    if-Grown false g o p h k = k

    publish-Grown :
        (entries : List OutboxRow) (s : Relay B)
        → Grown s.broker (publish_entries writer returning entries s).1.broker
    unfolding publish_entries publish_batch messages_of Grown
    publish-Grown [] s = λ m r. r
    publish-Grown (e ∷ es) s =
        let (accepted, broker') = publish_batch writer (messages_of (e ∷ es)) s.broker in
        let after : Relay B = record s { broker = broker' } in
        let kept : Grown s.broker broker' = writer.write-keeps (messages_of (e ∷ es)) s.broker in
        if-Grown accepted s.broker (mark_entries writer returning (e ∷ es) after)
          (publish_failed, after)
          (subst (Grown s.broker) (sym (mark-broker (e ∷ es) after s.faults refl)) kept) kept

    relay-Grown :
        (locked : ℕ → Bool) (timeout limit : ℕ) (s : Relay B) (f : Option ℕ)
        → s.faults ≡ f
        → Grown s.broker (relay_once writer returning locked timeout limit s).1.broker
    unfolding relay_once claim_entries
    relay-Grown locked timeout limit s none h = rw h (publish-Grown _ _)
    relay-Grown locked timeout limit s (some zero) h = rw h (unfold Grown in λ m r. r)
    relay-Grown locked timeout limit s (some (suc n)) h = rw h (publish-Grown _ _)

    cycle-Safe :
        (limit : ℕ) (p : Pass) (s : Relay B)
        → Sent writer s
        → Safe s (cycle_on writer returning limit p s).1
    unfolding cycle_on Grown
    cycle-Safe limit p s h =
        let s' : Relay B = record s { faults = p.faults; now = p.now } in
        record {
          sent =
              relay_once-Sent writer returning p.locked claim_timeout limit s'
                (record { received = h.received });
          brokers = relay-Grown p.locked claim_timeout limit s' s'.faults refl;
          rows = λ r i. inl (
              same_messages s.rows _ r
                (relay_once-Kept writer returning p.locked claim_timeout limit s').messages i);
        }

    -- Rows that are marked leave the outbox.
    purged-Safe :
        (now : ℕ) (s : Relay B)
        → Sent writer s
        → Safe s (record s { rows = purge_published now purge_after s.rows })
    purged-Safe now s h = record {
      sent = record { received = λ r i. h.received r (In-purge now purge_after s.rows r i) };
      brokers = λ m r. r;
      rows = λ r i. elim (purge-In now purge_after s.rows r i) [
        | inl at ↦ inl (r, at, refl)
        | inr p ↦ inr (h.received r i p)
      ];
    }

    added-Safe :
        (q : OutboxRow) (s : Relay B)
        → is_pending q ≡ true
        → Sent writer s
        → Safe s (record s { rows = s.rows ++ (q ∷ []) })
    added-Safe q s p h = record {
      sent = record {
        received = λ r i n. elim (In-cases q s.rows r i) [
          | inl at ↦ h.received r at n
          | inr same ↦ cc (p, n, same)
        ];
      };
      brokers = λ m r. r;
      rows = λ r i. inl (r, In-++_left r s.rows (q ∷ []) i, refl);
    }

    step-Safe :
        (limit : ℕ) (e : Step) (s : Service B)
        → Sent writer s.relay
        → Safe s.relay (step writer returning limit e s).1.relay
    unfolding step
    step-Safe limit (cycle p) s h = cycle-Safe limit p s.relay h
    step-Safe limit (count_tick fails) s h = Safe-refl s.relay h
    step-Safe limit (purge_tick true now) s h = record {
      sent = record { received = h.received };
      brokers = λ m r. r;
      rows = λ r i. inl (r, i, refl);
    }
    step-Safe limit (purge_tick false now) s h = purged-Safe now s.relay h
    step-Safe limit (row_added q) s h =
        added-Safe (record q { claimed_at = none; published_at = none }) s.relay refl h
    step-Safe limit (other_cycle p) s h = cycle-Safe limit p s.relay h

    step_on-Safe :
        (limit : ℕ) (rest : List Step) (s : Service B) (o : Bool × Service B)
        → Safe s.relay o.1.relay
        → ((s' : Service B)
            → Sent writer s'.relay
            → Safe s'.relay (run_relay writer returning limit rest s').1.relay)
        → Safe s.relay
            (step_on writer returning limit (run_relay writer returning limit rest) o).1.relay
    step_on-Safe limit rest s (true, s') a safe = Safe-trans s.relay s'.relay _ a (safe s' a.sent)
    step_on-Safe limit rest s (false, s') a safe = a

    -- If every row marked as published has been received by the brokers, then over any life of the
    -- relay, of cycles of its own and of other relays, counts, purges and rows added by services in
    -- any order, whatever rows are locked, whatever the brokers answer and whichever calls of the
    -- database fail: the marks stay true, the brokers keep what they have received, and the message of
    -- every row is still in the outbox or has been received by the brokers.
    pub run_relay-Safe :
        (limit : ℕ) (steps : List Step) (s : Service B)
        → Sent writer s.relay
        → Safe s.relay (run_relay writer returning limit steps s).1.relay
    unfolding run_relay
    run_relay-Safe limit [] s h = Safe-refl s.relay h
    run_relay-Safe limit (e ∷ rest) s h =
        step_on-Safe limit rest s (step writer returning limit e s) (step-Safe limit e s h)
          (run_relay-Safe limit rest)
