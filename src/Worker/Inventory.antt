-- ===== src/Worker/Inventory.antt =====
-- internal/application/worker/inventory.go, and the gateway's interface of
-- internal/application/ports.go.
pub mod Results
use workers_kafka.Prelude.{ℕ, String, [], ◌∷◌, Bool, true, false, none, some, if◌then◌else◌}
use workers_kafka.Domain.{
  Event, EventType, payment_approved, inventory_reserved, inventory_command, inventory_result,
  status_eq,
}
use workers_kafka.Errors.{non_retryable, bad_command}
use workers_kafka.Exec.{pure, throw, asks, ◌>>=◌, ◌>>◌}
use workers_kafka.Store.{text, inward, outward, gateway_request, gateway_response}
use workers_kafka.Tx.{World, Tx, new_event_id, publish, with_tx}
use workers_kafka.Worker.{
  Reply, component_inventory, append_log, already_processed, call, blank_result, reply_status,
  reply_metadata, reply_response,
}

-- `application.InventoryGateway`, over the state of the external service.
pub record InventoryGateway (G : Type 0) : Type 0 where
  pub reserve : String → G → Reply Bool × G

abbrev pub reserve_result : Event → Reply Bool → String → ℕ → Event
reserve_result event reply event_id created_at =
    record (blank_result event inventory_result event_id created_at) {
      status_atual = reply_status inventory_reserved reply;
      metadata = reply_metadata reply;
    }

-- `event.EventType` is the command of this worker.
abbrev is_command : EventType → Bool
is_command inventory_command = true
is_command _ = false

module _ {G : Type 0} (gateway : InventoryGateway G) where
  reserve_unseen : Event → Bool → Tx G (Unit {0})
  unfolding append_log call reply_response reply_status reply_metadata new_event_id publish ◌>>=◌
  reserve_unseen event true = pure tt
  reserve_unseen event false = do
    append_log component_inventory event inward none none
    append_log component_inventory event gateway_request
        (some (("order_id", text event.order_id) ∷ ("op", text "reserve") ∷ [])) none
    reply ← call (gateway.reserve event.order_id)
    append_log component_inventory event gateway_response none (reply_response "reserved" reply)
    event_id ← new_event_id
    created_at ← asks (λ w. w.clock w.drawn)
    let result = reserve_result event reply event_id created_at
    append_log component_inventory result outward none none
    publish result

  unfoldable pub reserve : Event → Tx G (Unit {0})
  unfolding already_processed reserve_unseen ◌>>=◌
  reserve event = do seen ← already_processed component_inventory event; reserve_unseen event seen

  -- `InventoryUseCase.Handle`
  unfoldable pub handle : Event → Tx G (Unit {0})
  unfolding reserve with_tx
  handle event =
      if is_command event.event_type
      then (if status_eq event.status_atual payment_approved
          then with_tx (reserve event)
          else throw (non_retryable bad_command))
      else pure tt
