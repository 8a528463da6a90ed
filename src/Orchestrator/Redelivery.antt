-- ===== src/Orchestrator/Redelivery.antt =====
-- The journal after an event, and the event handled again.
use workers_kafka.Prelude.{
  ℕ, ◌≡◌, ◌≢◌, refl, sym, subst, ◌∙◌, inl, inr, Bool, true, false, Option, none, some, ◌||◌, arith,
  Bool-cases, String,
}
use workers_kafka.Domain.{
  Event, EventType, Saga, payment_result, inventory_result, payment_compensate_result,
  notification_result,
}
use workers_kafka.Errors.{ok}
use workers_kafka.Store.{EventLogEntry, WriteDb, has_event, append_entry}
use workers_kafka.Store.Laws.{has_event-append, has_event-append_self}
use workers_kafka.Tx.{World}
use workers_kafka.Tx.Live.{live}
use workers_kafka.Orchestrator.{handle_event, component}
use workers_kafka.Orchestrator.Rules.{is_order_created, is_result}
use workers_kafka.Orchestrator.Spec.{
  Decision, ignore, Effect, unchanged, refused, wrote, effect, effect_of, effect_created,
  effect_result, perform, decide, decide_type, entry_in,
}
use workers_kafka.Orchestrator.Effects.{effect-Written}
use workers_kafka.Orchestrator.Handler.{handle_event-refines}

-- The events that the orchestrator acts on.
abbrev pub is_handled : Event → Bool
is_handled e = is_order_created e.event_type || is_result e.event_type

abbrev pub was_seen : Event → WriteDb → Bool
was_seen e db = has_event e.event_id component db.journal

module _ {G : Type 0} (max : ℕ) (w : World G) (e : Event) where
  -- no effect drops an entry of the journal
  perform-journal :
      (i c : String) (f : Effect)
      → has_event i c w.db.journal ≡ true
      → has_event i c (perform (live w) f).1.db.journal ≡ true
  unfolding perform
  perform-journal i c unchanged h = h
  perform-journal i c (refused r) h = h
  perform-journal i c (wrote entry s m) h =
      has_event-append i c _ _ (has_event-append i c entry w.db.journal h)

  -- Handling an event keeps every journal entry, with any faults.
  pub handle_event-journal :
      (i c : String)
      → has_event i c w.db.journal ≡ true
      → has_event i c (handle_event max e w).1.db.journal ≡ true
  handle_event-journal i c h = elim (handle_event-refines max e w) [
    | inl (_, same) ↦ subst (λ (db : WriteDb). has_event i c db.journal ≡ true) (sym same) h
    | inr (_, same) ↦
        subst (λ (db : WriteDb). has_event i c db.journal ≡ true) (sym same)
          (perform-journal i c (effect max w.db e) h)
  ]

  wrote-seen :
      (f : Effect)
      → effect max w.db e ≡ f
      → (perform (live w) f).0 ≡ ok tt
      → (f ≡ unchanged → was_seen e w.db ≡ true)
      → was_seen e (perform (live w) f).1.db ≡ true
  unfolding perform
  wrote-seen unchanged h o u = u refl
  wrote-seen (refused r) h o u = cc
  wrote-seen (wrote entry s m) h o u =
      let t = (effect-Written max w.db e h).0 in
      has_event-append e.event_id component _ _ (
        subst (λ (i : String). has_event i component (append_entry entry w.db.journal) ≡ true)
          t.entry_id
          (subst
            (λ (c : String). has_event entry.event_id c (append_entry entry w.db.journal) ≡ true)
            t.entry_component (has_event-append_self entry w.db.journal)))

module _ (max : ℕ) (s : Saga) (e : Event) where
  decide_type-ne_ignore : (t : EventType) → is_result t ≡ true → decide_type max s e t ≢ ignore
  unfolding decide_type is_result
  decide_type-ne_ignore payment_result h = ground arith
  decide_type-ne_ignore inventory_result h = ground arith
  decide_type-ne_ignore payment_compensate_result h = ground arith
  decide_type-ne_ignore notification_result h = ground arith
  decide_type-ne_ignore _ h = cc

  decide-ne_ignore : is_result e.event_type ≡ true → decide max s e ≢ ignore
  unfolding decide
  decide-ne_ignore h = decide_type-ne_ignore e.event_type h

effect_of-unchanged :
    (entry : EventLogEntry) (d : Decision) → effect_of entry d ≡ unchanged → d ≡ ignore
effect_of-unchanged entry d h = ground arith

result-unchanged :
    (max : ℕ) (e : Event) (o : Option Saga) (b : Bool)
    → is_result e.event_type ≡ true
    → effect_result max e o b ≡ unchanged
    → b ≡ true
result-unchanged max e none b t h = cc
result-unchanged max e (some s) true t h = refl
result-unchanged max e (some s) false t h =
    absurd (decide-ne_ignore max s e t (effect_of-unchanged (entry_in s e) (decide max s e) h))

created-unchanged :
    (e : Event) (b : Bool) (o : Option Saga) → effect_created e b o ≡ unchanged → b ≡ true
created-unchanged e b o h = ground arith

-- An event of a handled type has no effect and no error only where it was handled before.
pub effect-unchanged :
    (max : ℕ) (db : WriteDb) (e : Event)
    → is_handled e ≡ true
    → effect max db e ≡ unchanged
    → was_seen e db ≡ true
unfolding effect
effect-unchanged max db e t h = elim (Bool-cases (is_order_created e.event_type)) [
  | inl c ↦ created-unchanged e _ _ (rw c at h)
  | inr c ↦ elim (Bool-cases (is_result e.event_type)) [
    | inl r ↦ result-unchanged max e _ _ r (rw (c, r) at h)
    | inr r ↦ ground arith
  ]
]

module _ {G : Type 0} (max : ℕ) (w : World G) (e : Event) where
  -- After an event of a handled type was handled with no error, the journal shows it.
  pub handle_event_seen :
      is_handled e ≡ true
      → (handle_event max e w).0 ≡ ok tt
      → was_seen e (handle_event max e w).1.db ≡ true
  handle_event_seen t h = elim (handle_event-refines max e w) [
    | inl (o, same) ↦ cc
    | inr (o, same) ↦
        subst (λ (db : WriteDb). was_seen e db ≡ true) (sym same)
          (wrote-seen max w e (effect max w.db e) refl (sym o ∙ h) (effect-unchanged max w.db e t))
  ]

  seen-same :
      (f : Effect)
      → effect max w.db e ≡ f
      → was_seen e w.db ≡ true
      → (perform (live w) f).1.db ≡ w.db
  unfolding perform
  seen-same unchanged h b = refl
  seen-same (refused r) h b = refl
  seen-same (wrote entry s m) h b = cc (b, (effect-Written max w.db e h).0.fresh)

  -- An event that the journal shows changes no table when it is handled again.
  pub handle_event-seen_same : was_seen e w.db ≡ true → (handle_event max e w).1.db ≡ w.db
  handle_event-seen_same h = elim (handle_event-refines max e w) [
    | inl (o, same) ↦ same
    | inr (o, same) ↦ same ∙ seen-same (effect max w.db e) refl h
  ]
