-- ===== src/Worker/Payment/Again.antt =====
-- Payment commands that are delivered again.
use workers_kafka.Prelude.{ℕ, zero, suc, ◌≤◌, ◌<◌, ◌≡◌, refl, ap, ◌∙◌, false, some, arith}
use workers_kafka.Domain.{Event, payment_pending, payment_command}
use workers_kafka.Errors.{ok, err, database}
use workers_kafka.Store.{has_event}
use workers_kafka.Tx.{World, with_tx}
use workers_kafka.Tx.Live.{live, settled, with_tx-live}
use workers_kafka.Worker.{component_payment}
use workers_kafka.Worker.Payment.{PaymentGateway, process, handle}
use workers_kafka.Worker.Payment.Results.{
  process-IsSteady, process-live, process-handle, process-handle-Reported, process-seen,
}

-- The block of a payment command makes eight calls of the database with the begin and the commit; the
-- gateway is called after the fourth.
module _ {G : Type 0} (gateway : PaymentGateway G) (w : World G) (e : Event) where
  process-interrupted :
      (n : ℕ)
      → has_event e.event_id component_payment w.db.journal ≡ false
      → 4 ≤ n
      → n < 8
      → let o = with_tx (process gateway e) (record w { faults = some n }) in
        (o.0 ≡ err database)
        × (o.1.db ≡ w.db)
        × (o.1.gateway ≡ (gateway.process e.order_id w.gateway).1)
  unfolding process with_tx
  process-interrupted zero h lo hi = absurd (omega arith)
  process-interrupted (suc zero) h lo hi = absurd (omega arith)
  process-interrupted (suc (suc zero)) h lo hi = absurd (omega arith)
  process-interrupted (suc (suc (suc zero))) h lo hi = absurd (omega arith)
  process-interrupted (suc (suc (suc (suc zero)))) h lo hi = rw h (refl, refl, refl)
  process-interrupted (suc (suc (suc (suc (suc zero))))) h lo hi = rw h (refl, refl, refl)
  process-interrupted (suc (suc (suc (suc (suc (suc zero)))))) h lo hi = rw h (refl, refl, refl)
  process-interrupted (suc (suc (suc (suc (suc (suc (suc zero))))))) h lo hi =
      rw h (refl, refl, refl)
  process-interrupted (suc (suc (suc (suc (suc (suc (suc (suc n)))))))) h lo hi =
      absurd (omega arith)

  process-again :
      (v : World G)
      → v.db ≡ w.db
      → has_event e.event_id component_payment w.db.journal ≡ false
      → let o = with_tx (process gateway e) (live v) in
        (o.0 ≡ ok tt) × (o.1.gateway ≡ (gateway.process e.order_id v.gateway).1)
  process-again v same n =
      let run =
        with_tx-live (process gateway e) v (process-IsSteady gateway e)
        ∙ ap (settled (live v)) (process-live gateway v e (rw same n)) in
      (ap (λ o. o.0) run, ap (λ o. o.1.gateway) run)

  -- A payment command that the journal does not show, hit by a database fault at the fifth to the
  -- eighth call of its transaction, fails with every table unchanged; when it is delivered again
  -- with no fault, it succeeds and has called the gateway a second time.
  pub payment_charged_again :
      (n : ℕ)
      → has_event e.event_id component_payment w.db.journal ≡ false
      → 4 ≤ n
      → n < 8
      → let first = with_tx (process gateway e) (record w { faults = some n }) in
        let again = with_tx (process gateway e) (live first.1) in
        (first.0 ≡ err database)
        × (first.1.db ≡ w.db)
        × (again.0 ≡ ok tt)
        × (again.1.gateway
            ≡ (gateway.process e.order_id (gateway.process e.order_id w.gateway).1).1)
  payment_charged_again n h lo hi =
      let (failed, same, moved) = process-interrupted n h lo hi in
      let (done, moved_again) =
        process-again (with_tx (process gateway e) (record w { faults = some n })).1 same h in
      (failed, same, done, moved_again ∙ ap (λ (g : G). (gateway.process e.order_id g).1) moved)

  -- A valid payment command that the journal does not show, handled with no error and then delivered
  -- again with no database fault, is dropped: no second call of the gateway, no write, no error.
  pub payment_command_once :
      e.event_type ≡ payment_command
      → e.status_atual ≡ payment_pending
      → has_event e.event_id component_payment w.db.journal ≡ false
      → (handle gateway e w).0 ≡ ok tt
      → let after = (handle gateway e w).1 in handle gateway e (live after) ≡ (ok tt, live after)
  payment_command_once t s n h =
      let after = (handle gateway e w).1 in
      process-handle gateway (live after) e t s
      ∙ process-seen gateway after e (process-handle-Reported gateway w e t s n h).0.recorded
