-- ===== src/Worker/Payment/Results.antt =====
-- The payment worker: the results of its payment commands, and commands delivered again.
use workers_kafka.Prelude.{
  ℕ, suc, String, ◌≡◌, refl, sym, ap, subst, ◌∙◌, inl, inr, Bool, true, false, some, [], ◌∷◌, arith,
}
use workers_kafka.Domain.{Event, payment_pending, payment_command}
use workers_kafka.Errors.{ok}
use workers_kafka.Store.{WriteDb, has_event, text}
use workers_kafka.Topics.{topic_for_event_type}
use workers_kafka.Tx.{World, with_tx}
use workers_kafka.Tx.Steady.{IsSteady}
use workers_kafka.Tx.Live.{live, settled, with_tx-outcome, with_tx-live}
use workers_kafka.Orchestrator.Rules.{expected_status_for_result, is_valid_result}
use workers_kafka.Worker.{Reply, answer, failure, component_payment}
use workers_kafka.Worker.Steady.{worker_rules}
use workers_kafka.Worker.Reports.{Reported, served, served-Reported, Accepts}
use workers_kafka.Worker.Payment.{
  PaymentGateway, process_unseen, process, handle, dispatch, process_result, process_response,
  process_status,
}

module _ {G : Type 0} (gateway : PaymentGateway G) where
  process_unseen-IsSteady : (e : Event) (b : Bool) → IsSteady (process_unseen gateway e b)
  unfolding process_unseen
  process_unseen-IsSteady e true = search worker_rules
  process_unseen-IsSteady e false = search worker_rules depth 10

  pub process-IsSteady : (e : Event) → IsSteady (process gateway e)
  unfolding process
  process-IsSteady e = search (worker_rules, process_unseen-IsSteady)

module _ {G : Type 0} (gateway : PaymentGateway G) (w : World G) (e : Event) where
  abbrev pub process_reply : Reply (Bool × String)
  process_reply = (gateway.process e.order_id w.gateway).0

  pub process-live :
      has_event e.event_id component_payment w.db.journal ≡ false
      → process gateway e (live w) ≡ (
        ok tt,
        record (live w) {
          db =
              served component_payment w.traceparent e
                (some (("order_id", text e.order_id) ∷ ("op", text "process") ∷ []))
                (process_response process_reply)
                "orders.payment.result"
                (process_result e process_reply (w.fresh w.drawn) (w.clock (suc w.drawn)))
                w.db;
          gateway = (gateway.process e.order_id w.gateway).1;
          drawn = suc w.drawn;
        },
      )
  unfolding process
  process-live h = rw h refl

  pub process-handle :
      e.event_type ≡ payment_command
      → e.status_atual ≡ payment_pending
      → handle gateway e w ≡ with_tx (process gateway e) w
  unfolding handle
  process-handle t s = rw (t, dispatch) (rw s refl)

  process-Reported :
      has_event e.event_id component_payment w.db.journal ≡ false
      → (with_tx (process gateway e) w).0 ≡ ok tt
      → Reported w.db
          (with_tx (process gateway e) w).1.db
          component_payment
          e
          (process_result e process_reply (w.fresh w.drawn) (w.clock (suc w.drawn)))
        × ((with_tx (process gateway e) w).1.gateway ≡ (gateway.process e.order_id w.gateway).1)
  process-Reported n h = elim (with_tx-outcome (process gateway e) w (process-IsSteady gateway e)) [
    | inl (o, _) ↦ cc
    | inr (_, after, moved) ↦
        let live_run = process-live n in
        (
          subst
              (λ (db : WriteDb).
                Reported w.db db component_payment e
                  (process_result e process_reply (w.fresh w.drawn) (w.clock (suc w.drawn))))
              (sym (after ∙ ap (λ o. (settled (live w) o).1.db) live_run))
              (served-Reported component_payment w.traceparent e _ _ "orders.payment.result" _ w.db
                (unfold topic_for_event_type in refl)),
          moved ∙ ap (λ o. (settled (live w) o).1.gateway) live_run,
        )
  ]

  pub process-handle-Reported :
      e.event_type ≡ payment_command
      → e.status_atual ≡ payment_pending
      → has_event e.event_id component_payment w.db.journal ≡ false
      → (handle gateway e w).0 ≡ ok tt
      → Reported w.db
          (handle gateway e w).1.db
          component_payment
          e
          (process_result e process_reply (w.fresh w.drawn) (w.clock (suc w.drawn)))
        × ((handle gateway e w).1.gateway ≡ (gateway.process e.order_id w.gateway).1)
  process-handle-Reported t s n h =
      let same = process-handle t s in rw same (process-Reported n (sym (ap (λ o. o.0) same) ∙ h))

  pub process-seen :
      has_event e.event_id component_payment w.db.journal ≡ true
      → with_tx (process gateway e) (live w) ≡ (ok tt, live w)
  unfolding process
  process-seen h = with_tx-live (process gateway e) w (process-IsSteady gateway e) ∙ rw h refl

-- Whatever the gateway replies to a payment command of status PAYMENT_PENDING, the result has a type
-- that the orchestrator expects in that status, a status valid for the type, and the order of the
-- command.
pub process_result-Accepts :
    (e : Event) (reply : Reply (Bool × String)) (id : String) (at : ℕ)
    → e.status_atual ≡ payment_pending
    → Accepts e (process_result e reply id at)
unfolding process_status expected_status_for_result is_valid_result
process_result-Accepts e (failure x) id at s = ground arith
process_result-Accepts e (answer (true, tx)) id at s = ground arith
process_result-Accepts e (answer (false, tx)) id at s = ground arith
