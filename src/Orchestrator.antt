-- ===== src/Orchestrator.antt =====
-- The orchestrator: internal/application/orchestrator/orchestrator.go. The rules that read no
-- database are in `Rules`, the transition table in `Machine`; the proofs are in the other modules
-- below. Logging by slog is left out.
pub mod Machine
pub mod Rules
pub mod Steady
pub mod Spec
pub mod Refine
pub mod Handler
pub mod Steps
pub mod Effects
pub mod Runs
pub mod Redelivery
pub mod Reach
pub mod Reserved
pub mod Outcomes
pub mod Special
use workers_kafka.Prelude.{
  ℕ, suc, String, List, [], ◌∷◌, Option, none, some, Bool, true, false, not, ◌&&◌, str_eq, ltb,
  if◌then◌else◌,
}
use workers_kafka.Domain.{
  OrderStatus, Event, EventType, Saga, Metadata, pending, payment_pending, payment_approved,
  payment_refund_pending, inventory_reserved, notified, completed, payment_refunded, retrying,
  failed, other, no_status, status_eq, order_created, order_completed, order_failed,
  payment_compensate_result, payment_result, inventory_result, notification_result,
  current_schema_version,
}
use workers_kafka.Errors.{
  Result, ok, err, non_retryable, already_started, unknown_saga, unexpected_status, out_of_order,
  invalid_result,
}
use workers_kafka.Exec.{pure, throw, lift, asks, throw_if, ◌>>=◌, ◌>>◌}
use workers_kafka.Store.{Direction, inward, outward, EventLogEntry}
use workers_kafka.Tx.{
  World, Tx, new_event_id, save_saga, load_saga, append_event, has_processed, publish, with_tx,
}
use Machine.{assert_transition}
use Rules.{
  next_command, expected_status_for_result, is_valid_result, is_result, set_metadata,
  is_payment_result, is_compensate_result, is_inventory_result, is_notification_result,
  is_order_created,
}

abbrev pub component : String
component = "orchestrator"

-- `logEvent` builds this row.
abbrev pub entry_of : Saga → String → EventType → Direction → OrderStatus → Event → EventLogEntry
entry_of saga event_id event_type direction status payload = record {
  order_id = saga.order_id;
  saga_id = saga.order_id;
  event_id = event_id;
  event_type = event_type;
  component = component;
  direction = direction;
  status_anterior = saga.previous;
  status_atual = status;
  payload = payload;
  request_payload = none;
  response_payload = none;
}

-- The saga after a step to `status`.
abbrev pub move_to : OrderStatus → Saga → Saga
move_to status saga = record saga { previous = saga.current; current = status }

-- The checks of `handleResult` on a saga that was loaded.
unfoldable pub check_result : Saga → Event → Result (Unit {0})
unfolding expected_status_for_result is_valid_result
check_result saga event = elim (expected_status_for_result event.event_type) [
  | err e ↦ err e
  | ok expected ↦
      if status_eq saga.current expected
      then if is_valid_result event.event_type event.status_atual
        then ok tt
        else err (non_retryable invalid_result)
      else err (non_retryable out_of_order)
]

-- The saga that `startOrder` begins with.
abbrev pub new_saga : String → Saga
new_saga order_id = record {
  order_id = order_id;
  previous = no_status;
  current = pending;
  retry_count = 0;
  transaction_id = "";
}

module _ {G : Type 0} where
  unfoldable pub log_event :
      Saga → String → EventType → Direction → OrderStatus → Event → Tx G (Unit {0})
  unfolding append_event
  log_event saga event_id event_type direction status payload w =
      if w.journaled
      then append_event (entry_of saga event_id event_type direction status payload) w
      else pure tt w

  unfoldable pub already_processed : String → Tx G Bool
  unfolding has_processed
  already_processed event_id w =
      if w.journaled then has_processed event_id component w else pure false w

  -- Builds the terminal event.
  unfoldable pub terminal_event :
      String → OrderStatus → OrderStatus → EventType → Metadata → Tx G Event
  unfolding new_event_id ◌>>=◌
  terminal_event order_id previous_status current_status event_type metadata = do
    event_id ← new_event_id
    created_at ← asks (λ w. w.clock w.drawn)
    pure (record {
      event_id = event_id;
      order_id = order_id;
      saga_id = order_id;
      transaction_id = "";
      status_atual = current_status;
      status_anterior = previous_status;
      event_type = event_type;
      schema_version = current_schema_version;
      created_at = created_at;
      metadata = metadata;
    })

  -- Builds the command of `dispatchNext`.
  unfoldable pub command_event : Saga → OrderStatus → EventType → Tx G Event
  unfolding new_event_id ◌>>=◌
  command_event saga target_status event_type = do
    event_id ← new_event_id
    created_at ← asks (λ w. w.clock w.drawn)
    pure (record {
      event_id = event_id;
      order_id = saga.order_id;
      saga_id = saga.order_id;
      transaction_id = saga.transaction_id;
      status_atual = target_status;
      status_anterior = saga.previous;
      event_type = event_type;
      schema_version = current_schema_version;
      created_at = created_at;
      metadata = [];
    })

  unfoldable pub dispatch_next : Saga → Tx G (Unit {0})
  unfolding next_command command_event save_saga log_event publish ◌>>=◌
  dispatch_next saga = do
    (target_status, event_type) ← lift (next_command saga.current)
    command ← command_event saga target_status event_type
    let saga' = if status_eq target_status saga.current then saga else move_to target_status saga
    save_saga saga'
    log_event saga' command.event_id event_type outward target_status command
    publish command

  unfoldable pub fail : Saga → Metadata → Tx G (Unit {0})
  unfolding assert_transition terminal_event save_saga log_event publish ◌>>=◌
  fail saga metadata = do
    lift (assert_transition saga.current failed)
    let saga' = record saga { previous = saga.current; current = failed; retry_count = 0 }
    save_saga saga'
    terminal ← terminal_event saga.order_id saga.current failed order_failed metadata
    log_event saga' terminal.event_id order_failed outward failed terminal
    publish terminal

  unfoldable pub complete : Saga → Metadata → Tx G (Unit {0})
  unfolding assert_transition terminal_event save_saga log_event publish ◌>>=◌
  complete saga metadata = do
    lift (assert_transition saga.current notified)
    let saga' = record saga { previous = saga.current; current = notified; retry_count = 0 }
    save_saga saga'
    terminal ← terminal_event saga.order_id notified completed order_completed metadata
    log_event saga' terminal.event_id order_completed outward completed terminal
    publish terminal
    save_saga (record saga' { previous = notified; current = completed })

  unfoldable pub start_compensation : Saga → Tx G (Unit {0})
  unfolding assert_transition save_saga dispatch_next ◌>>=◌
  start_compensation saga = do
    lift (assert_transition saga.current payment_refund_pending)
    let saga' = record saga {
      previous = saga.current;
      current = payment_refund_pending;
      retry_count = 0;
    }
    save_saga saga'
    dispatch_next saga'

  -- What happens once the retry limit is exceeded.
  retry_exhausted : Saga → Tx G (Unit {0})
  unfolding complete fail set_metadata
  retry_exhausted saga =
      let metadata : Metadata = ("motivo", "retry_limit_exceeded") ∷ [] in
      if status_eq saga.current inventory_reserved
      then complete saga (("notification_error", "true") ∷ ("motivo", "retry_limit_exceeded") ∷ [])
      else fail saga (
          if status_eq saga.current payment_refund_pending
          then set_metadata "transaction_id" saga.transaction_id
              (set_metadata "payment_refund_failed" "true" metadata)
          else metadata)

  unfoldable pub retry : ℕ → Saga → Tx G (Unit {0})
  unfolding save_saga retry_exhausted dispatch_next ◌>>=◌
  retry max_retries saga = do
    let saga' = record saga { retry_count = suc saga.retry_count }
    save_saga saga'
    if ltb max_retries saga'.retry_count then retry_exhausted saga' else dispatch_next saga'

  -- The case PAYMENT_APPROVED or INVENTORY_RESERVED of `handleResult`.
  advance : Saga → Event → Tx G (Unit {0})
  unfolding assert_transition save_saga dispatch_next ◌>>=◌
  advance saga event = do
    lift (assert_transition saga.current event.status_atual)
    let saga' = record saga {
      previous = saga.current;
      current = event.status_atual;
      retry_count = 0;
      transaction_id =
          if is_payment_result event.event_type then event.transaction_id else saga.transaction_id;
    }
    save_saga saga'
    dispatch_next saga'

  -- The case FAILED.
  fail_result : Saga → Event → Tx G (Unit {0})
  unfolding complete fail start_compensation set_metadata
  fail_result saga event =
      if is_notification_result event.event_type
      then complete saga (("notification_error", "true") ∷ [])
      else if is_inventory_result event.event_type
          && status_eq saga.current payment_approved
          && not (str_eq saga.transaction_id "")
      then start_compensation saga
      else if is_compensate_result event.event_type
      then fail saga (
          set_metadata "transaction_id" event.transaction_id
            (set_metadata "payment_refund_failed" "true" event.metadata))
      else fail saga event.metadata

  -- The case PAYMENT_REFUNDED.
  refunded_result : Saga → Event → Tx G (Unit {0})
  unfolding fail set_metadata
  refunded_result saga event = fail saga (
      set_metadata "transaction_id" event.transaction_id
        (set_metadata "payment_refunded" "true" event.metadata))

  -- The second `switch` of `handleResult`.
  unfoldable pub apply_result : ℕ → OrderStatus → Saga → Event → Tx G (Unit {0})
  unfolding retry fail_result advance refunded_result complete
  apply_result max_retries retrying saga event = retry max_retries saga
  apply_result max_retries failed saga event = fail_result saga event
  apply_result max_retries payment_approved saga event = advance saga event
  apply_result max_retries inventory_reserved saga event = advance saga event
  apply_result max_retries payment_refunded saga event = refunded_result saga event
  apply_result max_retries notified saga event = complete saga []
  apply_result max_retries _ saga event = throw (non_retryable unexpected_status)

  result_seen : ℕ → Saga → Event → Bool → Tx G (Unit {0})
  unfolding log_event check_result apply_result ◌>>=◌
  result_seen max_retries saga event true = pure tt
  result_seen max_retries saga event false = do
    log_event saga event.event_id event.event_type inward event.status_atual event
    lift (check_result saga event)
    apply_result max_retries event.status_atual saga event

  result_loaded : ℕ → Event → Option Saga → Tx G (Unit {0})
  unfolding already_processed result_seen ◌>>=◌
  result_loaded max_retries event none = throw (non_retryable unknown_saga)
  result_loaded max_retries event (some saga) = do
    seen ← already_processed event.event_id
    result_seen max_retries saga event seen

  -- `handleResult`
  unfoldable pub handle_result_tx : ℕ → Event → Tx G (Unit {0})
  unfolding is_result load_saga result_loaded ◌>>=◌
  handle_result_tx max_retries event =
      if is_result event.event_type
      then load_saga event.order_id >>= result_loaded max_retries event
      else pure tt

  order_absent : Event → Option Saga → Tx G (Unit {0})
  unfolding log_event save_saga dispatch_next ◌>>=◌
  order_absent event (some _) = throw (non_retryable already_started)
  order_absent event none = do
    let saga = new_saga event.order_id
    log_event saga event.event_id order_created inward pending event
    save_saga saga
    dispatch_next saga

  order_seen : Event → Bool → Tx G (Unit {0})
  unfolding load_saga order_absent ◌>>=◌
  order_seen event true = pure tt
  order_seen event false = do found ← load_saga event.order_id; order_absent event found

  -- `startOrder`
  unfoldable pub start_order_tx : Event → Tx G (Unit {0})
  unfolding already_processed order_seen ◌>>=◌
  start_order_tx event = do seen ← already_processed event.event_id; order_seen event seen

  unfoldable pub start_order : Event → Tx G (Unit {0})
  unfolding with_tx start_order_tx
  start_order event = with_tx (start_order_tx event)

  unfoldable pub handle_result : ℕ → Event → Tx G (Unit {0})
  unfolding with_tx handle_result_tx
  handle_result max_retries event = with_tx (handle_result_tx max_retries event)

  unfoldable pub handle_event : ℕ → Event → Tx G (Unit {0})
  unfolding start_order handle_result
  handle_event max_retries event =
      if is_order_created event.event_type
      then start_order event
      else handle_result max_retries event
