-- ===== src/Orchestrator/Reserved.antt =====
-- Orders whose stock is reserved, over everything that happens to them afterwards.
use workers_kafka.Prelude.{ℕ, ◌≡◌, refl, ◌⊎◌, inl, inr, String, some}
use workers_kafka.Domain.{Saga, inventory_reserved, completed}
use workers_kafka.Store.{find_saga}
use workers_kafka.Tx.{World}
use workers_kafka.Orchestrator.Runs.{SagasOk, handle_event-MovedOn}
use workers_kafka.Orchestrator.Special.{reserved-not_failed}
use workers_kafka.Orchestrator.Reach.{
  Reach, here, delivered, beside, with_faults, stays, Reach-SagasOk,
}

-- The saga of the order is INVENTORY_RESERVED or COMPLETED.
abbrev pub Holds : {G : Type 0} → String → World G → Type 0
Holds k w =
    (s : Saga) × (find_saga k w.db.sagas ≡ some s)
    × ((s.current ≡ inventory_reserved) ⊎ (s.current ≡ completed))

module _ {G : Type 0} (max : ℕ) {w : World G} where
  -- With every stored saga in order at the start: once the stock of an order is reserved the order
  -- never fails. Over any deliveries of any events, faults and steps of the other services its saga
  -- stays INVENTORY_RESERVED or is COMPLETED, also when the notification fails or its retries run
  -- out.
  pub Reach-reserved :
      {v : World G} (k : String) (s : Saga)
      → SagasOk max w.db
      → find_saga k w.db.sagas ≡ some s
      → s.current ≡ inventory_reserved
      → Reach max w v
      → Holds k v
  Reach-reserved k s all h c here = (s, h, inl c)
  Reach-reserved k s all h c (beside r b) = rw b.sagas (Reach-reserved k s all h c r)
  Reach-reserved k s all h c (delivered {v} e f r) =
      let before = Reach-SagasOk max all r in
      let ordered : SagasOk max (with_faults f v).db = record { at_order = before.at_order } in
      let (t, found, how) = Reach-reserved k s all h c r in
      elim how [
        | inl reserved ↦ reserved-not_failed max (with_faults f v) e k t ordered found reserved
        | inr over ↦ (
          t,
          stays max _ k t (rw over refl)
              (handle_event-MovedOn max (with_faults f v) e k t ordered found),
          inr over,
        )
      ]
