-- ===== src/Worker/Notification/Results.antt =====
-- The notification worker: the result of a command, and a command delivered again.
use workers_kafka.Prelude.{
  ℕ, suc, String, ◌≡◌, refl, sym, ap, subst, ◌∙◌, inl, inr, Bool, true, false, some, [], ◌∷◌, arith,
}
use workers_kafka.Domain.{Event, inventory_reserved, notification_command}
use workers_kafka.Errors.{ok}
use workers_kafka.Store.{WriteDb, has_event, text}
use workers_kafka.Topics.{topic_for_event_type}
use workers_kafka.Tx.{World, with_tx}
use workers_kafka.Tx.Steady.{IsSteady}
use workers_kafka.Tx.Live.{live, settled, with_tx-outcome, with_tx-live}
use workers_kafka.Orchestrator.Rules.{expected_status_for_result, is_valid_result}
use workers_kafka.Worker.{
  Reply, answer, failure, component_notification, reply_response, reply_status,
}
use workers_kafka.Worker.Steady.{worker_rules}
use workers_kafka.Worker.Reports.{Reported, served, served-Reported, Accepts}
use workers_kafka.Worker.Notification.{
  NotificationGateway, notify_unseen, notify, handle, notify_result,
}

module _ {G : Type 0} (gateway : NotificationGateway G) where
  notify_unseen-IsSteady : (e : Event) (b : Bool) → IsSteady (notify_unseen gateway e b)
  unfolding notify_unseen
  notify_unseen-IsSteady e true = search worker_rules
  notify_unseen-IsSteady e false = search worker_rules depth 10

  pub notify-IsSteady : (e : Event) → IsSteady (notify gateway e)
  unfolding notify
  notify-IsSteady e = search (worker_rules, notify_unseen-IsSteady)

module _ {G : Type 0} (gateway : NotificationGateway G) (w : World G) (e : Event) where
  abbrev pub notify_reply : Reply Bool
  notify_reply = (gateway.notify e.order_id w.gateway).0

  pub notify-live :
      has_event e.event_id component_notification w.db.journal ≡ false
      → notify gateway e (live w) ≡ (
        ok tt,
        record (live w) {
          db =
              served component_notification w.traceparent e
                (some (("order_id", text e.order_id) ∷ ("op", text "notify") ∷ []))
                (reply_response "sent" notify_reply)
                "orders.notification.result"
                (notify_result e notify_reply (w.fresh w.drawn) (w.clock (suc w.drawn)))
                w.db;
          gateway = (gateway.notify e.order_id w.gateway).1;
          drawn = suc w.drawn;
        },
      )
  unfolding notify
  notify-live h = rw h refl

  pub notify-handle :
      e.event_type ≡ notification_command
      → e.status_atual ≡ inventory_reserved
      → handle gateway e w ≡ with_tx (notify gateway e) w
  unfolding handle
  notify-handle t s = rw t (rw s refl)

  notify-Reported :
      has_event e.event_id component_notification w.db.journal ≡ false
      → (with_tx (notify gateway e) w).0 ≡ ok tt
      → Reported w.db
          (with_tx (notify gateway e) w).1.db
          component_notification
          e
          (notify_result e notify_reply (w.fresh w.drawn) (w.clock (suc w.drawn)))
        × ((with_tx (notify gateway e) w).1.gateway ≡ (gateway.notify e.order_id w.gateway).1)
  notify-Reported n h = elim (with_tx-outcome (notify gateway e) w (notify-IsSteady gateway e)) [
    | inl (o, _) ↦ cc
    | inr (_, after, moved) ↦
        let live_run = notify-live n in
        (
          subst
              (λ (db : WriteDb).
                Reported w.db db component_notification e
                  (notify_result e notify_reply (w.fresh w.drawn) (w.clock (suc w.drawn))))
              (sym (after ∙ ap (λ o. (settled (live w) o).1.db) live_run))
              (served-Reported component_notification w.traceparent e _ _
                "orders.notification.result" _ w.db (unfold topic_for_event_type in refl)),
          moved ∙ ap (λ o. (settled (live w) o).1.gateway) live_run,
        )
  ]

  -- A valid notification command that the journal does not show, handled with no error: the gateway
  -- is called once for the order. Exactly the result of that call is inserted into the outbox, which
  -- drops it only if its event id is there already, on the results topic and keyed by the order; no
  -- saga is touched, and the journal shows the command.
  pub notification_command-Reported :
      e.event_type ≡ notification_command
      → e.status_atual ≡ inventory_reserved
      → has_event e.event_id component_notification w.db.journal ≡ false
      → (handle gateway e w).0 ≡ ok tt
      → Reported w.db
          (handle gateway e w).1.db
          component_notification
          e
          (notify_result e notify_reply (w.fresh w.drawn) (w.clock (suc w.drawn)))
        × ((handle gateway e w).1.gateway ≡ (gateway.notify e.order_id w.gateway).1)
  notification_command-Reported t s n h =
      let same = notify-handle t s in rw same (notify-Reported n (sym (ap (λ o. o.0) same) ∙ h))

  -- A command that the journal shows is dropped: no call of the gateway, no write, no error.
  pub notify-seen :
      has_event e.event_id component_notification w.db.journal ≡ true
      → with_tx (notify gateway e) (live w) ≡ (ok tt, live w)
  unfolding notify
  notify-seen h = with_tx-live (notify gateway e) w (notify-IsSteady gateway e) ∙ rw h refl

-- Whatever the gateway replies to a notification command of status INVENTORY_RESERVED, the result
-- has a type that the orchestrator expects in that status, a status valid for the type, and the
-- order of the command.
pub notify_result-Accepts :
    (e : Event) (reply : Reply Bool) (id : String) (at : ℕ)
    → e.status_atual ≡ inventory_reserved
    → Accepts e (notify_result e reply id at)
unfolding reply_status expected_status_for_result is_valid_result
notify_result-Accepts e (failure x) id at s = ground arith
notify_result-Accepts e (answer true) id at s = ground arith
notify_result-Accepts e (answer false) id at s = ground arith
