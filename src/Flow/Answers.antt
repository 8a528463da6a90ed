-- ===== src/Flow/Answers.antt =====
-- What a worker makes of the command that a saga waits for, with no database fault.
use workers_kafka.Prelude.{ℕ, suc, ◌≡◌, ◌≢◌, refl, ap, ◌∙◌, String, some, true, false, str_eq}
use workers_kafka.Domain.{
  Event, OrderStatus, Saga, payment_pending, payment_approved, payment_refund_pending,
  inventory_reserved, payment_command, payment_compensate, inventory_command, notification_command,
}
use workers_kafka.Errors.{ok}
use workers_kafka.Store.{Payload, has_event}
use workers_kafka.Topics.{topic_for_event_type}
use workers_kafka.Tx.{World, Tx, with_tx}
use workers_kafka.Tx.Steady.{IsSteady}
use workers_kafka.Tx.Live.{live, settled, with_tx-live}
use workers_kafka.Orchestrator.{component}
use workers_kafka.Orchestrator.Rules.{next_command}
use workers_kafka.Orchestrator.Steps.{SagaOk, is_terminal, is_stable}
use workers_kafka.Worker.{component_payment, component_inventory, component_notification}
use workers_kafka.Worker.Reports.{served, Accepts}
use workers_kafka.Worker.{answer, reply_status}
use workers_kafka.Flow.Decisions.{on_track, granted}
use workers_kafka.Worker.Payment.{process_status, process, refund, process_result, refund_result}
use workers_kafka.Worker.Payment.Results.{
  process-live, process-handle, process-IsSteady, process_reply, process_result-Accepts,
}
use workers_kafka.Worker.Payment.Refunds.{
  refund-live, refund-handle, refund-IsSteady, refund_reply, refund_result-Accepts,
}
use workers_kafka.Worker.Inventory.{reserve, reserve_result}
use workers_kafka.Worker.Inventory.Results.{
  reserve-live, reserve-handle, reserve-IsSteady, reserve_reply, reserve_result-Accepts,
}
use workers_kafka.Worker.Notification.{notify, notify_result}
use workers_kafka.Worker.Notification.Results.{
  notify-live, notify-handle, notify-IsSteady, notify_reply, notify_result-Accepts,
}
use workers_kafka.Flow.{
  Service, payment_worker, inventory_worker, notification_worker, Gateways, serve, subscriber,
}

-- An event is the command that a saga waits for.
pub record Commands (s : Saga) (e : Event) : Type 0 where
  pub next : next_command s.current ≡ ok (s.current, e.event_type)
  pub shown : e.status_atual ≡ s.current
  pub transaction : e.transaction_id ≡ s.transaction_id

-- Gateways that grant whatever an order on its track asks of them.
pub record Approving {G : Type 0} (gateways : Gateways G) : Type 0 where
  pub pays :
      (order_id : String) (g : G)
      → (tx : String) × ((gateways.payments.process order_id g).0 ≡ answer (true, tx))
  pub holds : (order_id : String) (g : G) → (gateways.stock.reserve order_id g).0 ≡ answer true
  pub notifies : (order_id : String) (g : G) → (gateways.messages.notify order_id g).0 ≡ answer true

-- The worker that a command reaches has answered it.
pub record Answer {G : Type 0} (gateways : Gateways G) (max : ℕ) (w : World G) (e : Event)
    : Type 0 where
  pub worker : Service
  pub asked : String
  pub asks : topic_for_event_type e.event_type ≡ some asked
  pub reached : subscriber asked ≡ some worker
  pub name : String
  pub another : str_eq name component ≡ false
  pub request : Payload
  pub response : Payload
  pub topic : String
  pub result : Event
  pub after : G
  pub block : Tx G (Unit {0})
  pub steady : IsSteady block
  pub in_tx : (v : World G) → serve gateways max worker e v ≡ with_tx block v
  pub runs : with_tx block (live w) ≡ (
    ok tt,
    record (live w) {
      db = served name w.traceparent e request response topic result w.db;
      gateway = after;
      drawn = suc w.drawn;
    },
  )
  pub accepts : Accepts e result
  pub routed : topic_for_event_type result.event_type ≡ some topic
  pub id : result.event_id ≡ w.fresh w.drawn
  pub grants :
      Approving gateways
      → on_track e.status_atual ≡ true
      → result.status_atual ≡ granted e.status_atual

-- The command is new to every worker.
abbrev pub NewToWorkers : {G : Type 0} → World G → Event → Type 0
NewToWorkers w e =
    (c : String) → str_eq c component ≡ false → has_event e.event_id c w.db.journal ≡ false

run_tx :
    {G : Type 0} (fn : Tx G (Unit {0})) (w : World G) {w' : World G}
    → IsSteady fn
    → fn (live w) ≡ (ok tt, w')
    → with_tx fn (live w) ≡ (ok tt, w')
run_tx fn w steady h = with_tx-live fn w steady ∙ ap (settled (live w)) h

module _ {G : Type 0} (gateways : Gateways G) (max : ℕ) (w : World G) (e : Event)
    (new : NewToWorkers w e) where
  payment-Answer :
      e.event_type ≡ payment_command → e.status_atual ≡ payment_pending → Answer gateways max w e
  unfolding serve subscriber topic_for_event_type
  payment-Answer t s = record {
    worker = payment_worker;
    asked = "orders.payment.cmd";
    asks = rw t refl;
    reached = refl;
    name = component_payment;
    another = refl;
    request = _;
    response = _;
    topic = "orders.payment.result";
    result =
        process_result e (process_reply gateways.payments w e) (w.fresh w.drawn)
          (w.clock (suc w.drawn));
    after = _;
    block = process gateways.payments e;
    steady = process-IsSteady gateways.payments e;
    in_tx = λ v. process-handle gateways.payments v e t s;
    runs =
        run_tx (process gateways.payments e) w (process-IsSteady gateways.payments e)
          (process-live gateways.payments w e (new component_payment refl));
    accepts = process_result-Accepts e _ _ _ s;
    routed = refl;
    id = refl;
    grants = λ a o.
        let (tx, paid) = a.pays e.order_id w.gateway in
        rw (s, paid) (unfold process_status in refl);
  }

  refund-Answer :
      e.event_type ≡ payment_compensate
      → e.status_atual ≡ payment_refund_pending
      → e.transaction_id ≢ ""
      → Answer gateways max w e
  unfolding serve subscriber topic_for_event_type
  refund-Answer t s x = record {
    worker = payment_worker;
    asked = "orders.payment.cmd";
    asks = rw t refl;
    reached = refl;
    name = component_payment;
    another = refl;
    request = _;
    response = _;
    topic = "orders.payment.result";
    result =
        refund_result e (refund_reply gateways.payments w e) (w.fresh w.drawn)
          (w.clock (suc w.drawn));
    after = _;
    block = refund gateways.payments e;
    steady = refund-IsSteady gateways.payments e;
    in_tx = λ v. refund-handle gateways.payments v e t s x;
    runs =
        run_tx (refund gateways.payments e) w (refund-IsSteady gateways.payments e)
          (refund-live gateways.payments w e (new component_payment refl));
    accepts = refund_result-Accepts e _ _ _ s;
    routed = refl;
    id = refl;
    grants = λ a o. cc (s, o);
  }

  inventory-Answer :
      e.event_type ≡ inventory_command → e.status_atual ≡ payment_approved → Answer gateways max w e
  unfolding serve subscriber topic_for_event_type
  inventory-Answer t s = record {
    worker = inventory_worker;
    asked = "orders.inventory.cmd";
    asks = rw t refl;
    reached = refl;
    name = component_inventory;
    another = refl;
    request = _;
    response = _;
    topic = "orders.inventory.result";
    result =
        reserve_result e (reserve_reply gateways.stock w e) (w.fresh w.drawn)
          (w.clock (suc w.drawn));
    after = _;
    block = reserve gateways.stock e;
    steady = reserve-IsSteady gateways.stock e;
    in_tx = λ v. reserve-handle gateways.stock v e t s;
    runs =
        run_tx (reserve gateways.stock e) w (reserve-IsSteady gateways.stock e)
          (reserve-live gateways.stock w e (new component_inventory refl));
    accepts = reserve_result-Accepts e _ _ _ s;
    routed = refl;
    id = refl;
    grants = λ a o. rw (s, a.holds e.order_id w.gateway) (unfold reply_status in refl);
  }

  notification-Answer :
      e.event_type ≡ notification_command
      → e.status_atual ≡ inventory_reserved
      → Answer gateways max w e
  unfolding serve subscriber topic_for_event_type
  notification-Answer t s = record {
    worker = notification_worker;
    asked = "orders.notification.cmd";
    asks = rw t refl;
    reached = refl;
    name = component_notification;
    another = refl;
    request = _;
    response = _;
    topic = "orders.notification.result";
    result =
        notify_result e (notify_reply gateways.messages w e) (w.fresh w.drawn)
          (w.clock (suc w.drawn));
    after = _;
    block = notify gateways.messages e;
    steady = notify-IsSteady gateways.messages e;
    in_tx = λ v. notify-handle gateways.messages v e t s;
    runs =
        run_tx (notify gateways.messages e) w (notify-IsSteady gateways.messages e)
          (notify-live gateways.messages w e (new component_notification refl));
    accepts = notify_result-Accepts e _ _ _ s;
    routed = refl;
    id = refl;
    grants = λ a o. rw (s, a.notifies e.order_id w.gateway) (unfold reply_status in refl);
  }

  status-Answer :
      (s : Saga) (st : OrderStatus)
      → s.current ≡ st
      → is_stable st ≡ true
      → is_terminal st ≡ false
      → Commands s e
      → (st ≡ payment_refund_pending → s.transaction_id ≢ "")
      → Answer gateways max w e
  unfolding next_command
  status-Answer s payment_pending h a b c r = payment-Answer (cc (rw h at c.next)) (c.shown ∙ h)
  status-Answer s payment_approved h a b c r = inventory-Answer (cc (rw h at c.next)) (c.shown ∙ h)
  status-Answer s payment_refund_pending h a b c r =
      refund-Answer (cc (rw h at c.next)) (c.shown ∙ h) (rw c.transaction (r refl))
  status-Answer s inventory_reserved h a b c r =
      notification-Answer (cc (rw h at c.next)) (c.shown ∙ h)
  status-Answer s _ h a b c r = cc

  -- The command that an active saga waits for, new to the workers, is answered by the worker that
  -- subscribes to its topic, in one run with no error.
  pub command-Answer :
      (s : Saga)
      → SagaOk max s
      → is_terminal s.current ≡ false
      → Commands s e
      → Answer gateways max w e
  command-Answer s fine active c =
      status-Answer s s.current refl fine.stable active c fine.refundable
