-- ===== src/Projector.antt =====
-- The read model: internal/application/projector/projector.go over
-- internal/infrastructure/persistence/postgres_read/order_view_repository.go, whose two statements
-- each commit on their own.
pub mod Views
pub mod Lost
pub mod Timelines
use workers_kafka.Prelude.{
  ℕ, zero, suc, String, List, [], ◌∷◌, ◌++◌, Option, none, some, Bool, true, false, ◌||◌, str_eq,
  if◌then◌else◌,
}
use workers_kafka.Domain.{OrderStatus, EventType, Event, Metadata, completed, failed}
use workers_kafka.Errors.{Result, ok, err, database}
use workers_kafka.Exec.{Exec, pure, ◌>>=◌}

-- A row of `order_views`. The timeline holds the events that were serialised.
pub record OrderView : Type 0 where
  pub order_id : String
  pub current_status : OrderStatus
  pub last_event_type : EventType
  pub last_event_at : ℕ
  pub transaction_id : String
  pub notification_error : Bool
  pub payment_refund_failed : Bool
  pub timeline : List Event

-- The read database, and how many more calls of it succeed (`none`: all of them).
pub record ReadDb : Type 0 where
  pub views : List OrderView
  pub processed : List String
  pub faults : Option ℕ

-- `metadata[key] == "true"`; a missing key reads as the empty string.
unfoldable pub has_flag : String → Metadata → Bool
has_flag key [] = false
has_flag key ((j, v) ∷ rest) = if str_eq j key then str_eq v "true" else has_flag key rest

abbrev pub is_final : OrderStatus → Bool
is_final completed = true
is_final failed = true
is_final _ = false

-- The row that INSERT would write.
unfoldable pub new_view : Event → OrderView
unfolding has_flag
new_view event = record {
  order_id = event.order_id;
  current_status = event.status_atual;
  last_event_type = event.event_type;
  last_event_at = event.created_at;
  transaction_id = event.transaction_id;
  notification_error = has_flag "notification_error" event.metadata;
  payment_refund_failed = has_flag "payment_refund_failed" event.metadata;
  timeline = event ∷ [];
}

-- `ON CONFLICT (order_id) DO UPDATE SET …`
unfoldable pub merge_view : OrderView → OrderView → OrderView
merge_view old new =
    let kept = is_final old.current_status in
    record old {
      current_status = if kept then old.current_status else new.current_status;
      last_event_type = if kept then old.last_event_type else new.last_event_type;
      last_event_at = if kept then old.last_event_at else new.last_event_at;
      transaction_id =
          if str_eq new.transaction_id "" then old.transaction_id else new.transaction_id;
      notification_error = old.notification_error || new.notification_error;
      payment_refund_failed = old.payment_refund_failed || new.payment_refund_failed;
      timeline = old.timeline ++ new.timeline;
    }

unfoldable pub upsert_view : OrderView → List OrderView → List OrderView
unfolding merge_view
upsert_view new [] = new ∷ []
upsert_view new (old ∷ rest) =
    if str_eq old.order_id new.order_id
    then merge_view old new ∷ rest
    else old ∷ upsert_view new rest

unfoldable pub find_view : String → List OrderView → Option OrderView
find_view k [] = none
find_view k (v ∷ rest) = if str_eq v.order_id k then some v else find_view k rest

unfoldable pub contains : String → List String → Bool
contains k [] = false
contains k (j ∷ rest) = if str_eq j k then true else contains k rest

-- One call of the read database.
run_call : {A : Type 0} → Option ℕ → A → ReadDb → ReadDb → Result A × ReadDb
run_call none a done db = (ok a, done)
run_call (some zero) a done db = (err database, db)
run_call (some (suc n)) a done db = (ok a, record done { faults = some n })

-- `MarkProcessed`: true if the id is new.
unfoldable pub mark_processed : String → Exec ReadDb Bool
unfolding run_call contains
mark_processed event_id db =
    if contains event_id db.processed
    then run_call db.faults false db db
    else run_call db.faults true (record db { processed = event_id ∷ db.processed }) db

-- `ApplyEvent`
unfoldable pub apply_event : Event → Exec ReadDb (Unit {0})
unfolding run_call upsert_view new_view
apply_event event db =
    run_call db.faults tt (record db { views = upsert_view (new_view event) db.views }) db

apply_first : Event → Bool → Exec ReadDb (Unit {0})
unfolding apply_event
apply_first event true = apply_event event
apply_first event false = pure tt

-- `Projector.HandleEvent`
unfoldable pub handle_event : Event → Exec ReadDb (Unit {0})
unfolding mark_processed apply_first ◌>>=◌
handle_event event = do first ← mark_processed event.event_id; apply_first event first
