-- ===== src/Flow.antt =====
-- The services at work on one order: the subscriptions of cmd/orchestrator/main.go and of the
-- workers' main.go, and a message followed from service to service. What one service publishes
-- goes through the outbox and Kafka to the service that subscribes to its topic.
pub mod Journal
pub mod Answers
pub mod Decisions
pub mod Attempts
pub mod Consumed
pub mod Rounds
pub mod Stir
pub mod Deliveries
pub mod ToWorker
pub mod ToOrchestrator
pub mod Ends
pub mod Completes
pub mod Shown
pub mod Wiring
use workers_kafka.Prelude.{
  ℕ, zero, suc, String, List, [], ◌∷◌, Option, none, some, Bool, true, false, str_eq, ◌||◌,
  if◌then◌else◌,
}
use workers_kafka.Domain.{Event}
use workers_kafka.Errors.{Result, ok, err, is_non_retryable}
use workers_kafka.Store.{OutboxRow}
use workers_kafka.Topics.{
  topic_order_created, topic_payment_command, topic_payment_result, topic_inventory_command,
  topic_inventory_result, topic_notification_command, topic_notification_result,
}
use workers_kafka.Tx.{World, Tx}
use workers_kafka.Orchestrator
use workers_kafka.Worker.Payment
use workers_kafka.Worker.Payment.{PaymentGateway}
use workers_kafka.Worker.Inventory
use workers_kafka.Worker.Inventory.{InventoryGateway}
use workers_kafka.Worker.Notification
use workers_kafka.Worker.Notification.{NotificationGateway}

pub data Service : Type 0 where
  orchestrator payment_worker inventory_worker notification_worker : Service

-- The service that acts on the messages of a topic.
unfoldable pub subscriber : String → Option Service
subscriber topic =
    if str_eq topic topic_order_created
      || str_eq topic topic_payment_result
      || str_eq topic topic_inventory_result
      || str_eq topic topic_notification_result
    then some orchestrator
    else if str_eq topic topic_payment_command
    then some payment_worker
    else if str_eq topic topic_inventory_command
    then some inventory_worker
    else if str_eq topic topic_notification_command
    then some notification_worker
    else none

-- The message written last. A service that writes none leaves the one before it as the last.
unfoldable pub last_row : List OutboxRow → Option OutboxRow
last_row [] = none
last_row (r ∷ []) = some r
last_row (r ∷ q ∷ rest) = last_row (q ∷ rest)

-- The gateways of the workers, over the state of the external services.
pub record Gateways (G : Type 0) : Type 0 where
  pub payments : PaymentGateway G
  pub stock : InventoryGateway G
  pub messages : NotificationGateway G

module _ {G : Type 0} where
  -- The last message of the outbox goes on.
  abbrev pub go_on : (OutboxRow → World G → World G) → Option OutboxRow → World G → World G
  go_on next none w = w
  go_on next (some r) w = next r w

  -- A transaction whose database calls fail as `faults` says.
  abbrev pub with_faults : Option ℕ → World G → World G
  with_faults faults w = record w { faults = faults; journaled = true }

  -- A definitive error moves the message to a dead letter topic; any other stops the consumer without
  -- a commit, and the message comes again.
  abbrev pub after_attempt : Result (Unit {0}) → World G → World G → World G
  after_attempt (ok tt) again w = w
  after_attempt (err e) again w = if is_non_retryable e then w else again

  -- The deliveries of one message: with each of the faults in turn, then with none.
  unfoldable pub attempt : Tx G (Unit {0}) → List (Option ℕ) → World G → World G
  attempt handler [] w = (handler (with_faults none w)).1
  attempt handler (f ∷ fs) w =
      let (r, w') = handler (with_faults f w) in
      let again = attempt handler fs w' in after_attempt r again w'

  module _ (gateways : Gateways G) (max : ℕ) where
    unfoldable pub serve : Service → Event → Tx G (Unit {0})
    serve orchestrator event = Orchestrator.handle_event max event
    serve payment_worker event = Payment.handle gateways.payments event
    serve inventory_worker event = Inventory.handle gateways.stock event
    serve notification_worker event = Notification.handle gateways.messages event

    visit :
        (OutboxRow → World G → World G)
        → List (Option ℕ)
        → Option Service
        → Event
        → World G
        → World G
    unfolding serve last_row attempt
    visit next faults none event w = w
    visit next faults (some s) event w =
        let w' = attempt (serve s event) faults w in go_on next (last_row w'.db.outbox) w'

    -- A message and the messages that it leads to, at most `n` of them; `schedule` says what goes
    -- wrong on the way of each.
    unfoldable pub follow : (ℕ → List (Option ℕ)) → ℕ → String → Event → World G → World G
    unfolding subscriber visit
    follow schedule zero topic event w = w
    follow schedule (suc n) topic event w =
        visit (λ r. follow schedule n r.topic r.payload) (schedule n) (subscriber topic) event w
