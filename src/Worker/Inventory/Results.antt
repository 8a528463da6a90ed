-- ===== src/Worker/Inventory/Results.antt =====
-- The inventory worker: the result of a command, and a command delivered again.
use workers_kafka.Prelude.{
  ℕ, suc, String, ◌≡◌, refl, sym, ap, subst, ◌∙◌, inl, inr, Bool, true, false, some, [], ◌∷◌, arith,
}
use workers_kafka.Domain.{Event, payment_approved, inventory_command}
use workers_kafka.Errors.{ok}
use workers_kafka.Store.{WriteDb, has_event, text}
use workers_kafka.Topics.{topic_for_event_type}
use workers_kafka.Tx.{World, with_tx}
use workers_kafka.Tx.Steady.{IsSteady}
use workers_kafka.Tx.Live.{live, settled, with_tx-outcome, with_tx-live}
use workers_kafka.Orchestrator.Rules.{expected_status_for_result, is_valid_result}
use workers_kafka.Worker.{Reply, answer, failure, component_inventory, reply_response, reply_status}
use workers_kafka.Worker.Steady.{worker_rules}
use workers_kafka.Worker.Reports.{Reported, served, served-Reported, Accepts}
use workers_kafka.Worker.Inventory.{
  InventoryGateway, reserve_unseen, reserve, handle, reserve_result,
}

module _ {G : Type 0} (gateway : InventoryGateway G) where
  reserve_unseen-IsSteady : (e : Event) (b : Bool) → IsSteady (reserve_unseen gateway e b)
  unfolding reserve_unseen
  reserve_unseen-IsSteady e true = search worker_rules
  reserve_unseen-IsSteady e false = search worker_rules depth 10

  pub reserve-IsSteady : (e : Event) → IsSteady (reserve gateway e)
  unfolding reserve
  reserve-IsSteady e = search (worker_rules, reserve_unseen-IsSteady)

module _ {G : Type 0} (gateway : InventoryGateway G) (w : World G) (e : Event) where
  abbrev pub reserve_reply : Reply Bool
  reserve_reply = (gateway.reserve e.order_id w.gateway).0

  pub reserve-live :
      has_event e.event_id component_inventory w.db.journal ≡ false
      → reserve gateway e (live w) ≡ (
        ok tt,
        record (live w) {
          db =
              served component_inventory w.traceparent e
                (some (("order_id", text e.order_id) ∷ ("op", text "reserve") ∷ []))
                (reply_response "reserved" reserve_reply)
                "orders.inventory.result"
                (reserve_result e reserve_reply (w.fresh w.drawn) (w.clock (suc w.drawn)))
                w.db;
          gateway = (gateway.reserve e.order_id w.gateway).1;
          drawn = suc w.drawn;
        },
      )
  unfolding reserve
  reserve-live h = rw h refl

  pub reserve-handle :
      e.event_type ≡ inventory_command
      → e.status_atual ≡ payment_approved
      → handle gateway e w ≡ with_tx (reserve gateway e) w
  unfolding handle
  reserve-handle t s = rw t (rw s refl)

  reserve-Reported :
      has_event e.event_id component_inventory w.db.journal ≡ false
      → (with_tx (reserve gateway e) w).0 ≡ ok tt
      → Reported w.db
          (with_tx (reserve gateway e) w).1.db
          component_inventory
          e
          (reserve_result e reserve_reply (w.fresh w.drawn) (w.clock (suc w.drawn)))
        × ((with_tx (reserve gateway e) w).1.gateway ≡ (gateway.reserve e.order_id w.gateway).1)
  reserve-Reported n h = elim (with_tx-outcome (reserve gateway e) w (reserve-IsSteady gateway e)) [
    | inl (o, _) ↦ cc
    | inr (_, after, moved) ↦
        let live_run = reserve-live n in
        (
          subst
              (λ (db : WriteDb).
                Reported w.db db component_inventory e
                  (reserve_result e reserve_reply (w.fresh w.drawn) (w.clock (suc w.drawn))))
              (sym (after ∙ ap (λ o. (settled (live w) o).1.db) live_run))
              (served-Reported component_inventory w.traceparent e _ _ "orders.inventory.result" _
                w.db (unfold topic_for_event_type in refl)),
          moved ∙ ap (λ o. (settled (live w) o).1.gateway) live_run,
        )
  ]

  -- A valid inventory command that the journal does not show, handled with no error: the gateway is
  -- called once for the order. Exactly the result of that call is inserted into the outbox, which
  -- drops it only if its event id is there already, on the results topic and keyed by the order; no
  -- saga is touched, and the journal shows the command.
  pub inventory_command-Reported :
      e.event_type ≡ inventory_command
      → e.status_atual ≡ payment_approved
      → has_event e.event_id component_inventory w.db.journal ≡ false
      → (handle gateway e w).0 ≡ ok tt
      → Reported w.db
          (handle gateway e w).1.db
          component_inventory
          e
          (reserve_result e reserve_reply (w.fresh w.drawn) (w.clock (suc w.drawn)))
        × ((handle gateway e w).1.gateway ≡ (gateway.reserve e.order_id w.gateway).1)
  inventory_command-Reported t s n h =
      let same = reserve-handle t s in rw same (reserve-Reported n (sym (ap (λ o. o.0) same) ∙ h))

  -- A command that the journal shows is dropped: no call of the gateway, no write, no error.
  pub reserve-seen :
      has_event e.event_id component_inventory w.db.journal ≡ true
      → with_tx (reserve gateway e) (live w) ≡ (ok tt, live w)
  unfolding reserve
  reserve-seen h = with_tx-live (reserve gateway e) w (reserve-IsSteady gateway e) ∙ rw h refl

-- Whatever the gateway replies to an inventory command of status PAYMENT_APPROVED, the result has a
-- type that the orchestrator expects in that status, a status valid for the type, and the order of
-- the command.
pub reserve_result-Accepts :
    (e : Event) (reply : Reply Bool) (id : String) (at : ℕ)
    → e.status_atual ≡ payment_approved
    → Accepts e (reserve_result e reply id at)
unfolding reply_status expected_status_for_result is_valid_result
reserve_result-Accepts e (failure x) id at s = ground arith
reserve_result-Accepts e (answer true) id at s = ground arith
reserve_result-Accepts e (answer false) id at s = ground arith
