-- ===== src/Worker/Notification.antt =====
-- internal/application/worker/notification.go, and the gateway's interface of
-- internal/application/ports.go.
pub mod Results
use workers_kafka.Prelude.{ℕ, String, [], ◌∷◌, Bool, true, false, none, some, if◌then◌else◌}
use workers_kafka.Domain.{
  Event, EventType, inventory_reserved, notified, notification_command, notification_result,
  status_eq,
}
use workers_kafka.Errors.{non_retryable, bad_command}
use workers_kafka.Exec.{pure, throw, asks, ◌>>=◌, ◌>>◌}
use workers_kafka.Store.{text, inward, outward, gateway_request, gateway_response}
use workers_kafka.Tx.{World, Tx, new_event_id, publish, with_tx}
use workers_kafka.Worker.{
  Reply, component_notification, append_log, already_processed, call, blank_result, reply_status,
  reply_metadata, reply_response,
}

-- `application.NotificationGateway`, over the state of the external service.
pub record NotificationGateway (G : Type 0) : Type 0 where
  pub notify : String → G → Reply Bool × G

abbrev pub notify_result : Event → Reply Bool → String → ℕ → Event
notify_result event reply event_id created_at =
    record (blank_result event notification_result event_id created_at) {
      status_atual = reply_status notified reply;
      metadata = reply_metadata reply;
    }

-- `event.EventType` is the command of this worker.
abbrev is_command : EventType → Bool
is_command notification_command = true
is_command _ = false

module _ {G : Type 0} (gateway : NotificationGateway G) where
  notify_unseen : Event → Bool → Tx G (Unit {0})
  unfolding append_log call reply_response reply_status reply_metadata new_event_id publish ◌>>=◌
  notify_unseen event true = pure tt
  notify_unseen event false = do
    append_log component_notification event inward none none
    append_log component_notification event gateway_request
        (some (("order_id", text event.order_id) ∷ ("op", text "notify") ∷ [])) none
    reply ← call (gateway.notify event.order_id)
    append_log component_notification event gateway_response none (reply_response "sent" reply)
    event_id ← new_event_id
    created_at ← asks (λ w. w.clock w.drawn)
    let result = notify_result event reply event_id created_at
    append_log component_notification result outward none none
    publish result

  unfoldable pub notify : Event → Tx G (Unit {0})
  unfolding already_processed notify_unseen ◌>>=◌
  notify event = do seen ← already_processed component_notification event; notify_unseen event seen

  -- `NotificationUseCase.Handle`
  unfoldable pub handle : Event → Tx G (Unit {0})
  unfolding notify with_tx
  handle event =
      if is_command event.event_type
      then (if status_eq event.status_atual inventory_reserved
          then with_tx (notify event)
          else throw (non_retryable bad_command))
      else pure tt
