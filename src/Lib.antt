-- ===== src/Lib.antt =====
-- The order saga of workers-kafka: an orchestrator moves an order through payment, stock and
-- notification by commands to workers and their results, all through Kafka; every service writes
-- its state, its journal and its outgoing messages in one transaction, and a projector builds the
-- read model that users see.
--
-- The parts and their files:
--   Domain, Errors     internal/domain (event.go, saga.go, status.go), internal/application/errors.go.
--                      A status or an event type that the code does not name is `other`, `unknown`.
--   Store              the tables of the write database and the effect of each statement on them:
--                      saga_repository.go, event_log_repository.go and outbox_repository.go of
--                      internal/infrastructure/persistence/postgres; Store.Laws has their lemmas.
--   Topics             internal/infrastructure/kafka/topics.go.
--   Exec, Tx           handlers as functions on a world that return a result and the next world;
--                      WithTx of internal/infrastructure/uow/unit_of_work.go, the repositories, and
--                      Publish of internal/infrastructure/outbox/publisher.go. Tx.Steady compares
--                      runs with and without faults, Tx.Draws follows the ids they draw, and Tx.Live
--                      has transactions without faults.
--   Orchestrator       internal/application/orchestrator/orchestrator.go, function by function, the
--                      table of state_machine.go in Orchestrator.Machine and the pure decisions in
--                      Orchestrator.Rules. Orchestrator.Spec is the abstract decision table: what
--                      saga and message an event leads to. Orchestrator.Refine and
--                      Orchestrator.Handler tie the code to it; Steps, Effects, Runs, Redelivery,
--                      Reach, Outcomes, Special and Reserved derive what holds of an order.
--   Worker             internal/application/worker (log.go, coordinator.go), with one module for
--                      each of payment.go, inventory.go and notification.go and its Results;
--                      Worker.Payment.Refunds has those of refunds, Worker.Payment.Says what a
--                      result says of a reply, and Worker.Payment.Again the commands delivered
--                      twice.
--   Projector          internal/application/projector/projector.go over
--                      postgres_read/order_view_repository.go; Projector.Views,
--                      Projector.Timelines and Projector.Lost have the theorems.
--   Consumer           one goroutine of internal/infrastructure/kafka/consumer.go with the settings of
--                      env.go. A `Turn` holds what kafka-go answers in one pass of the loop, so a
--                      list of turns is a run; Consumer.Settled says what it is to deal with a
--                      message, Consumer.Delivery has the books of commits, Consumer.Outcome
--                      one delivery, Consumer.Channels the channels that stop watchdogs,
--                      Consumer.Passed and Consumer.Passes one pass, Consumer.Loop the runs and
--                      Consumer.Lifetime and Consumer.Ended the start and the end. Consumer.Watchdog is the
--                      watchdog of a reader, tick by tick. Consumer.Group is Consume: its
--                      goroutines over an errgroup, in any interleaving of their passes, and
--                      Close.
--   Producer           internal/infrastructure/kafka/producer.go over any writer of kafka-go;
--                      Producer.Create follows an order from CreateOrder to the brokers.
--   Relay              relayOnce of cmd/outbox-relay/main.go over outbox_repository.go; the Kafka
--                      writer is a parameter, and so is the order in which a claim returns its rows.
--                      Relay.Service is the loop of main beside the goroutines that count and purge,
--                      services that add rows and other relays, as a list of steps. Relay.Rows has
--                      what a cycle keeps of the outbox, Relay.Updates, Relay.Messages and
--                      Relay.Claims lemmas on rows, Relay.Sent what the brokers have received,
--                      Relay.Safe a whole life of the relay, Relay.Exclusive its claims beside other
--                      relays, and Relay.Drain, with Relay.Counts, cycles in a row.
--   External           the simulators of internal/infrastructure/external, with the generator seeded
--                      by the order as a parameter; External.Replies has their replies.
--                      External.Breaker is breaker.go around any gateways, with gobreaker as a
--                      parameter.
--   Flow               the subscriptions of cmd/orchestrator/main.go and of the workers' main.go, and
--                      a message followed from service to service: what a service put last in the
--                      outbox goes to the subscriber of its topic, which gets it again as long as
--                      its handler fails for a reason that may pass; a schedule says which database
--                      call fails on each delivery but the last. Flow.Journal has ids that no table
--                      shows, Flow.Answers the workers, Flow.Decisions the decision table,
--                      Flow.Attempts the deliveries of one message, which Flow.Consumed
--                      compares with those of the consumer, Flow.Stir what failed ones leave as
--                      it was, Flow.Rounds, Flow.Deliveries, Flow.ToWorker and
--                      Flow.ToOrchestrator one command and its result, Flow.Ends the rounds of
--                      them and Flow.Completes the whole order; Flow.Shown looks at the read
--                      model. Flow.Wiring has the consumers as the main functions of the
--                      commands configure them.
--   Environment        the settings of kafka/env.go, postgres/env.go and telemetry.go, and Connect of
--                      postgres.go in Environment.Connection.
--   Logging            internal/interfaces/logging.go and the handler of
--                      internal/infrastructure/logging/logging.go, with lines as values.
--   Health             internal/infrastructure/health/health.go, kafka/health.go and the /healthz
--                      handler of internal/infrastructure/metrics/metrics.go.
--   Autoscaler         cmd/autoscaler/main.go over any readings of the lag.
--   Exporter           cmd/metrics-exporter/main.go: the gauges beside the tables, and in
--                      Exporter.Offsets beside the offsets of Kafka.
--   LoadGenerator      cmd/load-generator/main.go.
--   Scenarios          tests, and the theorems at concrete worlds.
--
-- How state and faults are modelled. A `World` holds the tables, the state of the external
-- service, and `faults`, the number of database calls that still succeed (none: all). A call that
-- fails returns an error and changes nothing; the begin and the commit of a transaction are calls
-- too, and a commit that fails leaves no write. A failure to serialise a row counts as a fault of
-- the call that would write it. `journaled` says that the transaction has an event log, as the
-- code's test of nil does; WithTx always sets it. Ids and the clock are functions of a counter,
-- with no assumption about them but where a theorem states one. Load's ErrSagaNotFound is `none`.
-- The sequence of outbox ids is a counter that a rollback undoes, which no theorem depends on.
-- Gateways are records of functions over any state. Maps are association lists.
-- `Orchestrator.Reach` is the run of the system as the orchestrator sees it: deliveries of any
-- events in any order, repeated, each with faults at any point, and steps of other services. The
-- loops are structural, but for two: `Flow.follow` counts messages, and six for every attempt
-- that the limit of retries allows are enough, with one for the first event, since a round is two
-- messages and takes one of at most three times that many attempts; the outer loop of the load
-- generator counts passes, and one more than orders are left are enough for a batch of one.
--
-- Not modelled: metrics, tracing and the text of logs, which observe the flow; the options handed to
-- libraries; the watchdog beside its goroutine, for which a turn holds as an input whether it
-- cancelled the fetch; how long the relay sleeps; how the commands start their parts, and what
-- create-order and order-status print; the rate limit of the load generator; timestamps that no code
-- reads back (updated_at).
pub mod Prelude
pub mod Domain
pub mod Errors
pub mod Environment
pub mod Logging
pub mod Exec
pub mod Store
pub mod Topics
pub mod Tx
pub mod Orchestrator
pub mod Worker
pub mod Projector
pub mod External
pub mod Consumer
pub mod Producer
pub mod Relay
pub mod Autoscaler
pub mod Health
pub mod Flow
pub mod Exporter
pub mod LoadGenerator
mod Scenarios
