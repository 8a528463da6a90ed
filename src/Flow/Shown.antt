-- ===== src/Flow/Shown.antt =====
-- The end of an order beside the read model, which takes all topics of the flow.
use workers_kafka.Prelude.{
  List, Option, ℕ, ◌≡◌, ◌≢◌, refl, sym, ap, subst, ◌∙◌, String, [], ◌∷◌, none, some, true, false,
  arith, eq_iff, eq_refl,
}
use workers_kafka.Domain.{
  Event, Saga, inventory_reserved, notified, EventType, completed, failed, notification_result,
  order_completed,
}
use workers_kafka.Errors.{ok}
use workers_kafka.Store.{OutboxRow, find_saga, upsert_saga, has_event}
use workers_kafka.Store.Laws.{find_saga-order_id, find_saga-upsert_self}
use workers_kafka.Tx.{World}
use workers_kafka.Tx.Live.{live}
use workers_kafka.Orchestrator.{component}
use workers_kafka.Orchestrator as Orchestrator
use workers_kafka.Orchestrator.Rules.{is_order_created, is_result}
use workers_kafka.Orchestrator.Refine.{handle_event-live}
use workers_kafka.Orchestrator.Spec.{
  decide, close_completed, completed_message, wrote, effect, perform, entry_in, event_of, written,
}
use workers_kafka.Projector.{
  OrderView, ReadDb, handle_event, find_view, contains, is_final, new_view, merge_view,
}
use workers_kafka.Projector.Views.{handle_event-applies, project, project-FrozenAt}
use workers_kafka.Flow.{last_row}
use workers_kafka.Flow.Journal.{has_row, last_row-append}

-- The saga after its notification failed.
abbrev completed_saga : Saga → Saga
completed_saga s = record s { previous = notified; current = completed; retry_count = 0 }

not_created : (t : EventType) → t ≡ notification_result → is_order_created t ≡ false
not_created t h = rw h refl

result_type : (t : EventType) → t ≡ notification_result → is_result t ≡ true
unfolding is_result
result_type t h = rw h refl

still_calm :
    (e : Event) (db : ReadDb)
    → db.faults ≡ none
    → contains e.event_id db.processed ≡ false
    → (handle_event e db).1.faults ≡ none
unfolding handle_event
still_calm e db f new = rw (f, new) refl

-- The view of an order after a new event.
shown_status :
    (e : Event) (db : ReadDb) (v : OrderView)
    → db.faults ≡ none
    → contains e.event_id db.processed ≡ false
    → find_view e.order_id db.views ≡ some v
    → (find_view e.order_id (handle_event e db).1.views ≡ some (merge_view v (new_view e)))
      × ((handle_event e db).1.processed ≡ e.event_id ∷ db.processed)
      × ((handle_event e db).1.faults ≡ none)
shown_status e db v f new found =
    let (done, shown, ids) = handle_event-applies e db e.order_id f new in
    (shown ∙ rw (eq_refl e.order_id, found) refl, ids, still_calm e db f new)

module _ {G : Type 0} (max : ℕ) (w : World G) (s : Saga) (e : Event) where
  -- The notification of a saga that waits for it was refused.
  pub record Refused : Type 0 where
    pub found : find_saga e.order_id w.db.sagas ≡ some s
    pub waiting : s.current ≡ inventory_reserved
    pub result : e.event_type ≡ notification_result
    pub status : e.status_atual ≡ failed
    pub unseen : has_event e.event_id component w.db.journal ≡ false
    pub unsent : has_row (w.fresh w.drawn) w.db.outbox ≡ false

  refused-decide :
      Refused → decide max s e ≡ close_completed s (("notification_error", "true") ∷ [])
  unfolding decide
  refused-decide h = rw (h.result, h.waiting, h.status) refl

  refused-effect :
      Refused
      → effect max w.db e
        ≡ wrote
            (entry_in s e)
            (completed_saga s)
            (completed_message s (("notification_error", "true") ∷ []))
  unfolding effect
  refused-effect h =
      rw
        (
          not_created e.event_type h.result,
          result_type e.event_type h.result,
          h.found,
          h.unseen,
          refused-decide h,
        )
        refl

  abbrev completion : Event
  completion = event_of w s (completed_message s (("notification_error", "true") ∷ []))

  -- The order is completed in the tables, as the last message of the outbox says, and the read model
  -- shows it as failed after both events and after any deliveries that follow.
  pub record Disagree (db : ReadDb) : Type 0 where
    pub row : OutboxRow
    pub view : OrderView
    pub saga : Saga
    pub after : World G
    pub handled : Orchestrator.handle_event max e (live w) ≡ (ok tt, after)
    pub stored : find_saga e.order_id after.db.sagas ≡ some saga
    pub completes : saga.current ≡ completed
    pub last : last_row after.db.outbox ≡ some row
    pub announces : row.payload.event_type ≡ order_completed
    pub shown :
        find_view e.order_id (handle_event row.payload (handle_event e db).1).1.views ≡ some view
    pub fails : view.current_status ≡ failed
    pub for_good :
        (ds : List (Event × Option ℕ))
        → (v' : OrderView) × (find_view e.order_id
              (project ds (handle_event row.payload (handle_event e db).1).1).views
            ≡ some v')
          × (v'.current_status ≡ failed)

  merged_twice :
      (v : OrderView)
      → e.status_atual ≡ failed
      → is_final v.current_status ≡ false
      → (merge_view (merge_view v (new_view e)) (new_view completion)).current_status ≡ failed
  unfolding merge_view new_view
  merged_twice v h n = rw (n, h) refl

  -- With no fault, for a saga that waits for its notification, and a result, not handled before, that
  -- says that the notification was refused: the orchestrator completes the order and announces it. But
  -- if the projector takes the result and then the announcement, both new to it, the view of the
  -- order, which showed no final status before, shows FAILED, and still does after any further
  -- deliveries to the projector, with database faults at any points.
  pub refused-Disagree :
      (db : ReadDb) (v : OrderView)
      → Refused
      → db.faults ≡ none
      → contains e.event_id db.processed ≡ false
      → contains (w.fresh w.drawn) db.processed ≡ false
      → e.event_id ≢ w.fresh w.drawn
      → find_view e.order_id db.views ≡ some v
      → is_final v.current_status ≡ false
      → Disagree db
  unfolding perform written contains
  refused-Disagree db v h f new unknown other found active =
      let same = find_saga-order_id e.order_id w.db.sagas h.found in
      let (shown, ids, calm) = shown_status e db v f new found in
      let db' = (handle_event e db).1 in
      let (again, ids', calm') =
        shown_status completion db' (merge_view v (new_view e)) calm
          (rw ids (ground (arith, eq_iff e.event_id (w.fresh w.drawn), other, unknown)))
          (subst (λ (k : String). find_view k db'.views ≡ some (merge_view v (new_view e)))
            (sym same) shown) in
      let fails = merged_twice v h.status active in
      let last_view : OrderView = merge_view (merge_view v (new_view e)) (new_view completion) in
      let shows =
        subst (λ (k : String). find_view k (handle_event completion db').1.views ≡ some last_view)
          same again in
      record {
        row = _;
        view = last_view;
        saga = completed_saga s;
        after = _;
        handled = handle_event-live max w e ∙ ap (perform (live w)) (refused-effect h);
        stored =
            subst
              (λ (k : String).
                find_saga k (upsert_saga (completed_saga s) w.db.sagas) ≡ some (completed_saga s))
              same (find_saga-upsert_self (completed_saga s) w.db.sagas);
        completes = refl;
        last = last_row-append _ w.db.outbox h.unsent;
        announces = refl;
        shown = shows;
        fails = fails;
        for_good = λ ds.
            let (v', found', frozen) =
              project-FrozenAt e.order_id last_view ds (handle_event completion db').1 shows
                (rw fails refl) in
            (v', found', frozen.status ∙ fails);
      }
