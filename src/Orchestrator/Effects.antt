-- ===== src/Orchestrator/Effects.antt =====
-- The effect of an event on the tables, taken apart.
use workers_kafka.Prelude.{
  ℕ, ◌≡◌, refl, ◌⊎◌, inl, inr, Bool, true, false, Option, none, some, arith, Bool-cases,
}
use workers_kafka.Domain.{Event, Saga}
use workers_kafka.Store.{WriteDb, EventLogEntry, find_saga, has_event}
use workers_kafka.Orchestrator.{component}
use workers_kafka.Orchestrator.Rules.{is_order_created, is_result}
use workers_kafka.Orchestrator.Spec.{
  Message, Decision, ignore, reject, step, decide, wrote, effect, entry_in, effect_of,
  effect_created, effect_result, first_command, begun,
}

-- A saga begins with its first command.
pub record Begins (db : WriteDb) (e : Event) (s' : Saga) (m : Message) : Type 0 where
  pub is_new : find_saga e.order_id db.sagas ≡ none
  pub saga : s' ≡ begun e.order_id
  pub command : m ≡ first_command

-- A saga that is there goes on as the table decides.
pub record GoesOn (max : ℕ) (db : WriteDb) (e : Event) (s s' : Saga) (m : Message) : Type 0 where
  pub found : find_saga e.order_id db.sagas ≡ some s
  pub decided : decide max s e ≡ step s' m

pub record Taken (db : WriteDb) (e : Event) (entry : EventLogEntry) : Type 0 where
  pub fresh : has_event e.event_id component db.journal ≡ false
  pub entry_id : entry.event_id ≡ e.event_id
  pub entry_component : entry.component ≡ component

abbrev pub Written : ℕ → WriteDb → Event → EventLogEntry → Saga → Message → Type 0
Written max db e entry s' m =
    Taken db e entry × (Begins db e s' m ⊎ ((s : Saga) × GoesOn max db e s s' m))

module _ (max : ℕ) (db : WriteDb) (e : Event) {entry : EventLogEntry} {s' : Saga}
    {m : Message} where
  created-Written :
      (b : Bool) (o : Option Saga)
      → has_event e.event_id component db.journal ≡ b
      → find_saga e.order_id db.sagas ≡ o
      → effect_created e b o ≡ wrote entry s' m
      → Written max db e entry s' m
  created-Written true o hb ho h = cc
  created-Written false (some s) hb ho h = cc
  created-Written false none hb ho h = (ground arith, inl (ground arith))

  decided-Written :
      (s : Saga) (d : Decision)
      → decide max s e ≡ d
      → has_event e.event_id component db.journal ≡ false
      → find_saga e.order_id db.sagas ≡ some s
      → effect_of (entry_in s e) d ≡ wrote entry s' m
      → Written max db e entry s' m
  decided-Written s ignore hd hb ho h = cc
  decided-Written s (reject r) hd hb ho h = cc
  decided-Written s (step t n) hd hb ho h = (ground arith, inr (s, ground arith))

  result-Written :
      (o : Option Saga) (b : Bool)
      → has_event e.event_id component db.journal ≡ b
      → find_saga e.order_id db.sagas ≡ o
      → effect_result max e o b ≡ wrote entry s' m
      → Written max db e entry s' m
  result-Written none b hb ho h = cc
  result-Written (some s) true hb ho h = cc
  result-Written (some s) false hb ho h = decided-Written s (decide max s e) refl hb ho h

  -- An effect that writes comes from an event not handled before, and either begins a saga or takes
  -- one on as decided.
  pub effect-Written : effect max db e ≡ wrote entry s' m → Written max db e entry s' m
  unfolding effect
  effect-Written h = elim (Bool-cases (is_order_created e.event_type)) [
    | inl c ↦ created-Written _ _ refl refl (rw c at h)
    | inr c ↦ elim (Bool-cases (is_result e.event_type)) [
      | inl r ↦ result-Written _ _ refl refl (rw (c, r) at h)
      | inr r ↦ cc (rw (c, r) at h)
    ]
  ]
