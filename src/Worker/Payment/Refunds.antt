-- ===== src/Worker/Payment/Refunds.antt =====
-- The payment worker: the results of its refund commands.
use workers_kafka.Prelude.{
  ℕ, suc, String, ◌≡◌, ◌≢◌, refl, Bool, true, false, some, [], ◌∷◌, arith, eq_iff, str_eq,
}
use workers_kafka.Domain.{Event, payment_refund_pending, payment_compensate}
use workers_kafka.Errors.{ok}
use workers_kafka.Store.{has_event, text}
use workers_kafka.Tx.{World, with_tx}
use workers_kafka.Tx.Steady.{IsSteady}
use workers_kafka.Tx.Live.{live}
use workers_kafka.Orchestrator.Rules.{expected_status_for_result, is_valid_result}
use workers_kafka.Worker.{Reply, answer, failure, component_payment, reply_response, reply_status}
use workers_kafka.Worker.Steady.{worker_rules}
use workers_kafka.Worker.Reports.{served, Accepts}
use workers_kafka.Worker.Payment.{
  PaymentGateway, refund_unseen, refund, handle, dispatch, refund_result,
}

module _ {G : Type 0} (gateway : PaymentGateway G) where
  refund_unseen-IsSteady : (e : Event) (b : Bool) → IsSteady (refund_unseen gateway e b)
  unfolding refund_unseen
  refund_unseen-IsSteady e true = search worker_rules
  refund_unseen-IsSteady e false = search worker_rules depth 10

  pub refund-IsSteady : (e : Event) → IsSteady (refund gateway e)
  unfolding refund
  refund-IsSteady e = search (worker_rules, refund_unseen-IsSteady)

module _ {G : Type 0} (gateway : PaymentGateway G) (w : World G) (e : Event) where
  abbrev pub refund_reply : Reply Bool
  refund_reply = (gateway.refund e.order_id e.transaction_id w.gateway).0

  pub refund-live :
      has_event e.event_id component_payment w.db.journal ≡ false
      → refund gateway e (live w) ≡ (
        ok tt,
        record (live w) {
          db =
              served component_payment w.traceparent e
                (some (
                  ("order_id", text e.order_id)
                  ∷ ("op", text "refund")
                  ∷ ("transaction_id", text e.transaction_id)
                  ∷ []))
                (reply_response "refunded" refund_reply)
                "orders.payment.result"
                (refund_result e refund_reply (w.fresh w.drawn) (w.clock (suc w.drawn)))
                w.db;
          gateway = (gateway.refund e.order_id e.transaction_id w.gateway).1;
          drawn = suc w.drawn;
        },
      )
  unfolding refund
  refund-live h = rw h refl

  pub refund-handle :
      e.event_type ≡ payment_compensate
      → e.status_atual ≡ payment_refund_pending
      → e.transaction_id ≢ ""
      → handle gateway e w ≡ with_tx (refund gateway e) w
  unfolding handle
  refund-handle t s x =
      let named : str_eq e.transaction_id "" ≡ false = ground (arith, eq_iff e.transaction_id "") in
      rw (t, dispatch) (rw s (rw named refl))

-- Whatever the gateway replies to a refund command of status PAYMENT_REFUND_PENDING, the result has
-- a type that the orchestrator expects in that status, a status valid for the type, and the order of
-- the command.
pub refund_result-Accepts :
    (e : Event) (reply : Reply Bool) (id : String) (at : ℕ)
    → e.status_atual ≡ payment_refund_pending
    → Accepts e (refund_result e reply id at)
unfolding reply_status expected_status_for_result is_valid_result
refund_result-Accepts e (failure x) id at s = ground arith
refund_result-Accepts e (answer true) id at s = ground arith
refund_result-Accepts e (answer false) id at s = ground arith
