-- ===== src/Tx.antt =====
-- A transaction of the write database (internal/infrastructure/uow/unit_of_work.go) and the
-- operations that run in it: the repositories of internal/infrastructure/persistence/postgres and
-- the outbox publisher (internal/infrastructure/outbox/publisher.go).
pub mod Draws
pub mod Steady
pub mod Live
use workers_kafka.Prelude.{ℕ, zero, suc, String, Bool, true, Option, none, some}
use workers_kafka.Domain.{Event, Saga}
use workers_kafka.Errors.{Result, ok, err, database, no_topic}
use workers_kafka.Exec.{Exec, ◌>>=◌, ◌>>◌}
use workers_kafka.Store.{
  EventLogEntry, WriteDb, find_saga, has_event, save_row, log_row, outbox_row,
}
use workers_kafka.Topics.{topic_for_event_type}

-- What a handler acts on. `gateway` is the state of the external service, which no rollback
-- touches. `faults` is how many more database calls succeed (`none`: all of them). `journaled`
-- says that `tx.EventLog` is not nil. `fresh` and `clock` stand for `rand.Read` and `time.Now`.
pub record World (G : Type 0) : Type 0 where
  pub db : WriteDb
  pub gateway : G
  pub faults : Option ℕ
  pub journaled : Bool
  pub fresh : ℕ → String
  pub drawn : ℕ
  pub clock : ℕ → ℕ
  pub traceparent : String

abbrev pub Tx : Type 0 → Type 0 → Type 0
Tx G A = Exec (World G) A

-- One call of the database: the value that it returns and the tables that it leaves.
pub run_statement : {G A : Type 0} → Option ℕ → A → WriteDb → World G → Result A × World G
run_statement none a db w = (ok a, record w { db = db })
run_statement (some zero) a db w = (err database, w)
run_statement (some (suc n)) a db w = (ok a, record w { db = db; faults = some n })

module _ {G : Type 0} where
  pub exec_sql : (WriteDb → WriteDb) → Tx G (Unit {0})
  unfolding run_statement
  exec_sql f w = run_statement w.faults tt (f w.db) w

  pub query : {A : Type 0} → (WriteDb → A) → Tx G A
  unfolding run_statement
  query f w = run_statement w.faults (f w.db) w.db w

  -- `domain.NewEventID`
  unfoldable pub new_event_id : Tx G String
  new_event_id w = (ok (w.fresh w.drawn), record w { drawn = suc w.drawn })

  -- `SagaRepository.Save`
  unfoldable pub save_saga : Saga → Tx G (Unit {0})
  unfolding exec_sql
  save_saga saga = exec_sql (save_row saga)

  -- `SagaRepository.Load`; `none` is `ErrSagaNotFound`.
  unfoldable pub load_saga : String → Tx G (Option Saga)
  unfolding query
  load_saga order_id = query (λ db. find_saga order_id db.sagas)

  -- `EventLogRepository.Append`
  unfoldable pub append_event : EventLogEntry → Tx G (Unit {0})
  unfolding exec_sql
  append_event entry = exec_sql (log_row entry)

  -- `EventLogRepository.Has`
  unfoldable pub has_processed : String → String → Tx G Bool
  unfolding query
  has_processed event_id component = query (λ db. has_event event_id component db.journal)

  insert_outbox : Option String → Event → Tx G (Unit {0})
  unfolding exec_sql
  insert_outbox none event w = (err (no_topic event.event_type), w)
  insert_outbox (some topic) event w = exec_sql (outbox_row topic w.traceparent event) w

  -- `Publisher.Publish` of the outbox
  unfoldable pub publish : Event → Tx G (Unit {0})
  unfolding insert_outbox topic_for_event_type
  publish event = insert_outbox (topic_for_event_type event.event_type) event

  begin_tx : Tx G (Unit {0})
  unfolding exec_sql
  begin_tx w = exec_sql (λ db. db) (record w { journaled = true })

  commit_tx : Tx G (Unit {0})
  unfolding exec_sql
  commit_tx = exec_sql (λ db. db)

  -- An error undoes the writes to the tables, and nothing else.
  settle : World G → Result (Unit {0}) × World G → Result (Unit {0}) × World G
  settle w (ok tt, w') = (ok tt, w')
  settle w (err e, w') = (err e, record w' { db = w.db })

  -- `PostgresUnitOfWork.WithTx`
  unfoldable pub with_tx : Tx G (Unit {0}) → Tx G (Unit {0})
  unfolding begin_tx commit_tx settle ◌>>=◌
  with_tx fn w = settle w ((do begin_tx; fn; commit_tx) w)
