-- ===== src/Projector/Lost.antt =====
-- An event that the read model has lost.
use workers_kafka.Prelude.{
  ℕ, ◌≡◌, refl, String, List, [], ◌∷◌, Option, none, some, true, false, arith, eq_iff,
}
use workers_kafka.Domain.{Event}
use workers_kafka.Errors.{ok, err, database}
use workers_kafka.Projector.{ReadDb, contains, handle_event}
use workers_kafka.Projector.Views.{
  with_faults, project, Delivery, ignored, marked, applied, handle_event-Delivery,
  handle_event-processed,
}

contains-Delivery :
    (k : String) (e : Event) (db db' : ReadDb)
    → Delivery e db db'
    → contains k db.processed ≡ true
    → contains k db'.processed ≡ true
unfolding contains
contains-Delivery k e db db' (ignored _ same) h = rw same h
contains-Delivery k e db db' (marked _ _ more) h = rw more (ground (arith, h))
contains-Delivery k e db db' (applied _ _ more) h = rw more (ground (arith, h))

-- An id that is remembered stays so.
pub project-contains :
    (k : String) (ds : List (Event × Option ℕ)) (db : ReadDb)
    → contains k db.processed ≡ true
    → contains k (project ds db).processed ≡ true
unfolding project
project-contains k [] db h = h
project-contains k ((e, f) ∷ rest) db h =
    project-contains k rest _
      (contains-Delivery k e (with_faults f db) _ (handle_event-Delivery e (with_faults f db)) h)

failed_apply :
    (e : Event) (db : ReadDb)
    → db.faults ≡ some 1
    → contains e.event_id db.processed ≡ false
    → ((handle_event e db).0 ≡ err database)
      × ((handle_event e db).1.views ≡ db.views)
      × (contains e.event_id (handle_event e db).1.processed ≡ true)
unfolding handle_event
failed_apply e db hf hb = rw (hf, hb) (refl, refl, ground (arith, eq_iff e.event_id e.event_id))

handled_again :
    (e : Event) (db : ReadDb)
    → contains e.event_id db.processed ≡ true
    → (handle_event e (with_faults none db)).0 ≡ ok tt
unfolding handle_event
handled_again e db h = rw h refl

-- If the call that applies a new event fails, the event is lost for good: the handler reports a
-- database error and the views are as before, and after any sequence of deliveries of any events,
-- with database faults at any points, a further delivery of this event changes no view, whatever its
-- faults, and succeeds if there are none.
pub handle_event_lost :
    (e : Event) (db : ReadDb) (ds : List (Event × Option ℕ)) (f : Option ℕ)
    → db.faults ≡ some 1
    → contains e.event_id db.processed ≡ false
    → let later = project ds (handle_event e db).1 in
      ((handle_event e db).0 ≡ err database)
      × ((handle_event e db).1.views ≡ db.views)
      × ((handle_event e (with_faults f later)).1.views ≡ later.views)
      × ((handle_event e (with_faults none later)).0 ≡ ok tt)
handle_event_lost e db ds f hf hb =
    let (failed, same, kept) = failed_apply e db hf hb in
    let later = project ds (handle_event e db).1 in
    let known = project-contains e.event_id ds (handle_event e db).1 kept in
    (
      failed,
      same,
      (handle_event-processed e (with_faults f later) known).0,
      handled_again e later known,
    )
