-- ===== src/Scenarios/Sagas.antt =====
-- The orchestrator's theorems on the order of the parent module.
use workers_kafka.Prelude.{arith, String, ◌≡◌, ◌≢◌, refl, ◌⊎◌, none, some, true, false}
use workers_kafka.Domain.{
  Saga, failed, retrying, inventory_reserved, completed, payment_refund_pending, payment_approved,
  payment_pending, pending, OrderStatus, payment_compensate, order_failed,
}
use workers_kafka.Errors.{ok, err, database, non_retryable, unknown_saga}
use workers_kafka.Store.{empty_db, find_saga, has_event, upsert_saga, append_entry}
use workers_kafka.Tx.Live.{live}
use workers_kafka.Orchestrator.{handle_event}
use workers_kafka.Orchestrator.Rules.{is_result}
use workers_kafka.Orchestrator.Spec.{Message, effect, perform}
use workers_kafka.Orchestrator.Handler.{handle_event-refines}
use workers_kafka.Orchestrator.Runs.{SagasOk, MovedOn, handle_event-SagasOk, handle_event-MovedOn}
use workers_kafka.Orchestrator.Redelivery.{is_handled, was_seen}
use workers_kafka.Orchestrator.Reach.{
  delivered, here, with_faults, Reach-SagasOk, Reach-terminal, delivered_once,
}
use workers_kafka.Orchestrator.Special.{
  Leaves, inventory_failure-refunds, inventory_exhausted-no_refund,
}
use workers_kafka.Orchestrator.Reserved.{Reach-reserved}
use workers_kafka.Scenarios.{
  start, created, paid, stock_result, waiting_payment, waiting_stock, reserved, closed,
}

abbrev stored : OrderStatus → OrderStatus → String → Saga
stored previous current transaction_id = record {
  order_id = "o1";
  previous = previous;
  current = current;
  retry_count = 0;
  transaction_id = transaction_id;
}

start-SagasOk : SagasOk 0 empty_db
unfolding find_saga
start-SagasOk = record { at_order = λ k s h. absurd (cc h) }

waiting_payment-SagasOk : SagasOk 0 waiting_payment.db
waiting_payment-SagasOk = handle_event-SagasOk 0 start created start-SagasOk

waiting_stock-SagasOk : SagasOk 0 waiting_stock.db
waiting_stock-SagasOk = handle_event-SagasOk 0 waiting_payment paid waiting_payment-SagasOk

reserved-SagasOk : SagasOk 0 reserved.db
reserved-SagasOk =
    handle_event-SagasOk 0 waiting_stock (stock_result inventory_reserved) waiting_stock-SagasOk

closed-SagasOk : SagasOk 0 closed.db
closed-SagasOk = handle_event-SagasOk 0 waiting_stock (stock_result retrying) waiting_stock-SagasOk

created_ok : (handle_event 0 created start).0 ≡ ok tt
unfolding handle_event has_event find_saga upsert_saga append_entry
created_ok = refl

paid_ok : (handle_event 0 paid waiting_payment).0 ≡ ok tt
unfolding handle_event has_event find_saga upsert_saga append_entry
paid_ok = refl

stock_failed_ok : (handle_event 0 (stock_result failed) waiting_stock).0 ≡ ok tt
unfolding handle_event has_event find_saga upsert_saga append_entry
stock_failed_ok = refl

stock_retrying_ok : (handle_event 0 (stock_result retrying) waiting_stock).0 ≡ ok tt
unfolding handle_event has_event find_saga upsert_saga append_entry
stock_retrying_ok = refl

early_result : (handle_event 0 paid start).0 ≡ err (non_retryable unknown_saga)
unfolding handle_event has_event find_saga upsert_saga append_entry
early_result = refl

stock_new : was_seen (stock_result failed) waiting_stock.db ≡ false
unfolding handle_event has_event find_saga upsert_saga append_entry
stock_new = refl

paid_stored :
    find_saga "o1" waiting_stock.db.sagas ≡ some (stored payment_pending payment_approved "tx")
unfolding handle_event has_event find_saga upsert_saga append_entry
paid_stored = refl

waiting_stored : find_saga "o1" waiting_payment.db.sagas ≡ some (stored pending payment_pending "")
unfolding handle_event has_event find_saga upsert_saga append_entry
waiting_stored = refl

reserved_stored :
    find_saga "o1" reserved.db.sagas ≡ some (stored payment_approved inventory_reserved "tx")
unfolding handle_event has_event find_saga upsert_saga append_entry
reserved_stored = refl

closed_stored : find_saga "o1" closed.db.sagas ≡ some (stored payment_approved failed "tx")
unfolding handle_event has_event find_saga upsert_saga append_entry
closed_stored = refl

tx_named : paid.transaction_id ≢ ""
tx_named h = cc h

handled_paid : is_handled paid ≡ true
unfolding is_result
handled_paid = refl

-- The theorems at these worlds.
refines_example :
    (((handle_event 0 paid waiting_payment).0 ≡ err database)
      × ((handle_event 0 paid waiting_payment).1.db ≡ waiting_payment.db))
    ⊎ (((handle_event 0 paid waiting_payment).0
          ≡ (perform (live waiting_payment) (effect 0 waiting_payment.db paid)).0)
        × ((handle_event 0 paid waiting_payment).1.db
            ≡ (perform (live waiting_payment) (effect 0 waiting_payment.db paid)).1.db))
refines_example = handle_event-refines 0 paid waiting_payment

moved_example :
    (s' : Saga) × (find_saga "o1" waiting_stock.db.sagas ≡ some s')
    × ((s' ≡ stored pending payment_pending "") ⊎ MovedOn 0 (stored pending payment_pending "") s')
moved_example =
    handle_event-MovedOn 0 waiting_payment paid "o1" (stored pending payment_pending "")
      waiting_payment-SagasOk waiting_stored

reach_example :
    SagasOk 0
      (handle_event 0 (stock_result inventory_reserved) (with_faults none waiting_stock)).1.db
reach_example =
    Reach-SagasOk 0 {w = waiting_stock} waiting_stock-SagasOk
      (delivered (stock_result inventory_reserved) none here)

once_example : (handle_event 0 paid (with_faults (some 2) waiting_stock)).1.db ≡ waiting_stock.db
once_example = delivered_once 0 waiting_payment paid (some 2) handled_paid paid_ok here

terminal_example :
    find_saga "o1" (handle_event 0 paid (with_faults none closed)).1.db.sagas
    ≡ some (stored payment_approved failed "tx")
terminal_example =
    Reach-terminal 0 {w = closed} "o1" (stored payment_approved failed "tx") closed-SagasOk
      closed_stored refl (delivered paid none here)

refund_example :
    (s' : Saga) × (m : Message) × Leaves waiting_stock
      (handle_event 0 (stock_result failed) waiting_stock).1.db
      "o1"
      s'
      m
    × (s'.current ≡ payment_refund_pending)
    × (s'.transaction_id ≡ "tx")
    × (m.event_type ≡ payment_compensate)
    × (m.transaction_id ≡ "tx")
refund_example =
    inventory_failure-refunds 0 waiting_stock (stock_result failed)
      (stored payment_pending payment_approved "tx") stock_new paid_stored refl refl refl tx_named
      stock_failed_ok

no_refund_example :
    (s' : Saga) × (m : Message) × Leaves waiting_stock closed.db "o1" s' m
    × (s'.current ≡ failed)
    × (s'.transaction_id ≡ "tx")
    × (m.event_type ≡ order_failed)
no_refund_example =
    inventory_exhausted-no_refund 0 waiting_stock (stock_result retrying)
      (stored payment_pending payment_approved "tx") stock_new paid_stored refl refl refl
      (omega arith) stock_retrying_ok

not_failed_example :
    (s : Saga) × (find_saga "o1" (handle_event 0 paid (with_faults (some 3) reserved)).1.db.sagas
      ≡ some s)
    × ((s.current ≡ inventory_reserved) ⊎ (s.current ≡ completed))
not_failed_example =
    Reach-reserved 0 {w = reserved} "o1" (stored payment_approved inventory_reserved "tx")
      reserved-SagasOk reserved_stored refl (delivered paid (some 3) here)
