-- ===== src/Orchestrator/Runs.antt =====
-- How the stored sagas change when an event is handled, with database faults at any point.
use workers_kafka.Prelude.{
  ℕ, ◌<◌, ◌≡◌, ◌≢◌, refl, sym, subst, ◌∙◌, ◌⊎◌, inl, inr, String, true, false, none, some, List,
  arith, str_eq, eq_iff, Bool-cases,
}
use workers_kafka.Domain.{Event, Saga}
use workers_kafka.Store.{WriteDb, find_saga, upsert_saga}
use workers_kafka.Store.Laws.{
  find_saga-upsert_cases, find_saga-upsert_self, find_saga-upsert_ne, find_saga-order_id,
}
use workers_kafka.Tx.{World}
use workers_kafka.Tx.Live.{live}
use workers_kafka.Orchestrator.{handle_event}
use workers_kafka.Orchestrator.Machine.{can_transition_to}
use workers_kafka.Orchestrator.Spec.{
  Message, Effect, unchanged, refused, wrote, effect, perform, step, decide, begun,
}
use workers_kafka.Orchestrator.Steps.{is_terminal, budget, SagaOk, StepOk, OnStep, decide-StepOk}
use workers_kafka.Orchestrator.Effects.{effect-Written}
use workers_kafka.Orchestrator.Handler.{handle_event-refines}

-- Every saga in the table is in order.
pub record SagasOk (max : ℕ) (db : WriteDb) : Type 0 where
  pub at_order : (k : String) (s : Saga) → find_saga k db.sagas ≡ some s → SagaOk max s

-- One saga before and after: the same, or moved on by a legal step that uses up budget.
pub record MovedOn (max : ℕ) (s s' : Saga) : Type 0 where
  pub active : is_terminal s.current ≡ false
  pub legal : (s'.current ≡ s.current) ⊎ (can_transition_to s.current s'.current ≡ true)
  pub same_order : s'.order_id ≡ s.order_id
  pub decreases : budget max s' < budget max s

begun-SagaOk : (max : ℕ) (id : String) → SagaOk max (begun id)
begun-SagaOk max id = ground arith

pub decided-StepOk :
    (max : ℕ) (s : Saga) (e : Event) {s' : Saga} {m : Message}
    → SagaOk max s
    → decide max s e ≡ step s' m
    → StepOk max s s' m
decided-StepOk max s e {s'} {m} h d = subst (OnStep (StepOk max s)) d (decide-StepOk max s e h)

upsert-SagasOk :
    (max : ℕ) (s' : Saga) (l : List Saga)
    → ((k : String) (s : Saga) → find_saga k l ≡ some s → SagaOk max s)
    → SagaOk max s'
    → (k : String) (s : Saga) → find_saga k (upsert_saga s' l) ≡ some s
    → SagaOk max s
upsert-SagasOk max s' l all new k s h = elim (find_saga-upsert_cases k s' l h) [
  | inl (e, _) ↦ subst (SagaOk max) e new
  | inr (e, _) ↦ all k s e
]

module _ {G : Type 0} (max : ℕ) (w : World G) (e : Event) where
  perform-SagasOk :
      (f : Effect)
      → effect max w.db e ≡ f
      → SagasOk max w.db
      → SagasOk max (perform (live w) f).1.db
  unfolding perform
  perform-SagasOk unchanged h all = all
  perform-SagasOk (refused r) h all = all
  perform-SagasOk (wrote entry s' m) h all = record {
    at_order = upsert-SagasOk max s' w.db.sagas all.at_order (elim (effect-Written max w.db e h).1 [
      | inl b ↦ subst (SagaOk max) (sym b.saga) (begun-SagaOk max e.order_id)
      | inr (s, g) ↦
          let ok = decided-StepOk max s e (all.at_order e.order_id s g.found) g.decided in
          record { stable = ok.stable; bounded = ok.bounded; refundable = ok.refundable }
    ]);
  }

  -- Handling an event, with any faults, keeps every stored saga in order.
  pub handle_event-SagasOk : SagasOk max w.db → SagasOk max (handle_event max e w).1.db
  handle_event-SagasOk all = elim (handle_event-refines max e w) [
    | inl (_, same) ↦ subst (SagasOk max) (sym same) all
    | inr (_, same) ↦ subst (SagasOk max) (sym same) (perform-SagasOk _ refl all)
  ]

moved : (max : ℕ) (s s' : Saga) {m : Message} → StepOk max s s' m → MovedOn max s s'
moved max s s' g = record {
  active = g.active;
  legal = g.legal;
  same_order = g.same_order;
  decreases = g.decreases;
}

-- What a save of `s'` leaves of the lookup of `k`: the saga `t` it found, or one in `R` with it.
abbrev KeptAt : (Saga → Saga → Type 0) → List Saga → Saga → String → Saga → Type 0
KeptAt R l s' k t = (t' : Saga) × (find_saga k (upsert_saga s' l) ≡ some t') × ((t' ≡ t) ⊎ R t t')

module _ (R : Saga → Saga → Type 0) (l : List Saga) (k : String) (t : Saga)
    (h : find_saga k l ≡ some t) where
  other-KeptAt : (s' : Saga) → s'.order_id ≢ k → KeptAt R l s' k t
  other-KeptAt s' ne = (t, find_saga-upsert_ne k s' l ne ∙ h, inl refl)

  same-KeptAt :
      (s s' : Saga)
      → R s s'
      → find_saga s'.order_id l ≡ some s
      → s'.order_id ≡ k
      → KeptAt R l s' k t
  same-KeptAt s s' g found same = (
    s',
    subst (λ (j : String). find_saga j (upsert_saga s' l) ≡ some s') same
        (find_saga-upsert_self s' l),
    inr (subst (λ (x : Saga). R x s') (cc) g),
  )

  step-KeptAt :
      (s s' : Saga) (id : String)
      → R s s'
      → s'.order_id ≡ s.order_id
      → find_saga id l ≡ some s
      → KeptAt R l s' k t
  step-KeptAt s s' id g same_order found =
      let same_id : s'.order_id ≡ id = same_order ∙ find_saga-order_id id l found in
      elim (Bool-cases (str_eq s'.order_id k)) [
        | inl here ↦ same-KeptAt s s' g (rw same_id found) ((eq_iff s'.order_id k).0 here)
        | inr there ↦ other-KeptAt s' (ground (arith, eq_iff s'.order_id k))
      ]

  begin-KeptAt : (id : String) → find_saga id l ≡ none → KeptAt R l (begun id) k t
  begin-KeptAt id absent = other-KeptAt (begun id) (λ same. cc)

-- What every decided step of a saga in order does to it, every handled event does to it, if anything.
module _ {G : Type 0} (max : ℕ) (w : World G) (e : Event) (R : Saga → Saga → Type 0)
    (steps : (s s' : Saga) (m : Message) → SagaOk max s → decide max s e ≡ step s' m → R s s')
    (all : SagasOk max w.db) (k : String) (t : Saga) (found : find_saga k w.db.sagas ≡ some t) where
  perform-relates :
      (f : Effect)
      → effect max w.db e ≡ f
      → (t' : Saga) × (find_saga k (perform (live w) f).1.db.sagas ≡ some t') × ((t' ≡ t) ⊎ R t t')
  unfolding perform
  perform-relates unchanged h = (t, found, inl refl)
  perform-relates (refused r) h = (t, found, inl refl)
  perform-relates (wrote entry s' m) h = elim (effect-Written max w.db e h).1 [
    | inl b ↦
        subst (λ (x : Saga). KeptAt R w.db.sagas x k t) (sym b.saga)
          (begin-KeptAt R w.db.sagas k t found e.order_id b.is_new)
    | inr (s, g) ↦
        let s_ok = all.at_order e.order_id s g.found in
        step-KeptAt R w.db.sagas k t found s s' e.order_id (steps s s' m s_ok g.decided)
          (decided-StepOk max s e s_ok g.decided).same_order g.found
  ]

  pub handle_event-relates :
      (t' : Saga) × (find_saga k (handle_event max e w).1.db.sagas ≡ some t') × ((t' ≡ t) ⊎ R t t')
  handle_event-relates = elim (handle_event-refines max e w) [
    | inl (_, same) ↦ (t, rw same found, inl refl)
    | inr (_, same) ↦ rw same (perform-relates (effect max w.db e) refl)
  ]

-- With every stored saga in order: a stored saga is not lost when an event is handled, at any
-- faults; it is left as it was, or moves on from a status that is not final, by a transition of the
-- table or by staying in its status, and with less of its budget of results.
pub handle_event-MovedOn :
    {G : Type 0} (max : ℕ) (w : World G) (e : Event) (k : String) (s : Saga)
    → SagasOk max w.db
    → find_saga k w.db.sagas ≡ some s
    → (s' : Saga) × (find_saga k (handle_event max e w).1.db.sagas ≡ some s')
      × ((s' ≡ s) ⊎ MovedOn max s s')
handle_event-MovedOn max w e k s all found =
    handle_event-relates max w e (MovedOn max)
      (λ t t' m t_ok d. moved max t t' (decided-StepOk max t e t_ok d)) all k s found
