-- ===== src/Projector/Views.antt =====
-- What the read model shows.
use workers_kafka.Prelude.{
  ℕ, zero, suc, ap, subst, sym, ◌≡◌, refl, String, List, [], ◌∷◌, Option, none, some, Bool, true,
  false, ◌||◌, arith, ◌∙◌, str_eq, eq_iff, if◌then◌else◌,
}
use workers_kafka.Domain.{Event}
use workers_kafka.Errors.{ok}
use workers_kafka.Projector.{
  OrderView, ReadDb, is_final, new_view, merge_view, upsert_view, find_view, contains, handle_event,
}

-- A view after an event of any order.
abbrev pub merged : String → OrderView → Option OrderView → Option OrderView
merged k new none = some new
merged k new (some old) = some (merge_view old new)

pub find_view-upsert :
    (k : String) (new : OrderView) (l : List OrderView)
    → find_view k (upsert_view new l)
      ≡ (if str_eq new.order_id k then merged k new (find_view k l) else find_view k l)
unfolding find_view upsert_view
find_view-upsert k new [] = refl
find_view-upsert k new (old ∷ rest) = ground (
  arith,
  eq_iff old.order_id new.order_id,
  eq_iff old.order_id k,
  eq_iff new.order_id k,
  find_view-upsert k new rest,
)

abbrev pub with_faults : Option ℕ → ReadDb → ReadDb
with_faults f db = record db { faults = f }

-- The deliveries of a consumer, one after the other, each with faults at any point.
unfoldable pub project : List (Event × Option ℕ) → ReadDb → ReadDb
unfolding handle_event
project [] db = db
project ((e, f) ∷ rest) db = project rest (handle_event e (with_faults f db)).1

-- The parts of a view that a final status freezes, and the flags that are never cleared.
pub record Frozen (v v' : OrderView) : Type 0 where
  pub status : v'.current_status ≡ v.current_status
  pub event_type : v'.last_event_type ≡ v.last_event_type
  pub event_at : v'.last_event_at ≡ v.last_event_at
  pub notification_error : (v.notification_error || v'.notification_error) ≡ v'.notification_error
  pub refund_failed :
      (v.payment_refund_failed || v'.payment_refund_failed) ≡ v'.payment_refund_failed

merge_view-Frozen :
    (old new : OrderView) → is_final old.current_status ≡ true → Frozen old (merge_view old new)
unfolding merge_view
merge_view-Frozen old new h = record {
  status = rw h refl;
  event_type = rw h refl;
  event_at = rw h refl;
  notification_error = ground arith;
  refund_failed = ground arith;
}

abbrev FrozenAt : String → OrderView → List OrderView → Type 0
FrozenAt k v l = (v' : OrderView) × (find_view k l ≡ some v') × Frozen v v'

Frozen-refl : (v : OrderView) → Frozen v v
Frozen-refl v = record {
  status = refl;
  event_type = refl;
  event_at = refl;
  notification_error = ground arith;
  refund_failed = ground arith;
}

upsert-FrozenAt :
    (k : String) (v new : OrderView) (l : List OrderView) (b : Bool)
    → str_eq new.order_id k ≡ b
    → find_view k l ≡ some v
    → is_final v.current_status ≡ true
    → FrozenAt k v (upsert_view new l)
upsert-FrozenAt k v new l true hb h t =
    (merge_view v new, find_view-upsert k new l ∙ rw (hb, h) refl, merge_view-Frozen v new t)
upsert-FrozenAt k v new l false hb h t =
    (v, find_view-upsert k new l ∙ rw (hb, h) refl, Frozen-refl v)

-- What one delivery does to the views and to the processed ids: nothing, the id alone, or both.
pub data Delivery (e : Event) (db db' : ReadDb) : Type 0 where
  ignored : db'.views ≡ db.views → db'.processed ≡ db.processed → Delivery e db db'
  marked :
      contains e.event_id db.processed ≡ false
      → db'.views ≡ db.views
      → db'.processed ≡ e.event_id ∷ db.processed
      → Delivery e db db'
  applied :
      contains e.event_id db.processed ≡ false
      → db'.views ≡ upsert_view (new_view e) db.views
      → db'.processed ≡ e.event_id ∷ db.processed
      → Delivery e db db'

handle_event-cases :
    (e : Event) (db : ReadDb) (f : Option ℕ) (b : Bool)
    → db.faults ≡ f
    → contains e.event_id db.processed ≡ b
    → Delivery e db (handle_event e db).1
unfolding handle_event
handle_event-cases e db none true hf hb = rw (hf, hb) (ignored refl refl)
handle_event-cases e db none false hf hb = rw (hf, hb) (applied hb refl refl)
handle_event-cases e db (some zero) true hf hb = rw (hf, hb) (ignored refl refl)
handle_event-cases e db (some zero) false hf hb = rw (hf, hb) (ignored refl refl)
handle_event-cases e db (some (suc zero)) true hf hb = rw (hf, hb) (ignored refl refl)
handle_event-cases e db (some (suc zero)) false hf hb = rw (hf, hb) (marked hb refl refl)
handle_event-cases e db (some (suc (suc n))) true hf hb = rw (hf, hb) (ignored refl refl)
handle_event-cases e db (some (suc (suc n))) false hf hb = rw (hf, hb) (applied hb refl refl)

pub handle_event-Delivery : (e : Event) (db : ReadDb) → Delivery e db (handle_event e db).1
handle_event-Delivery e db =
    handle_event-cases e db db.faults (contains e.event_id db.processed) refl refl

Frozen-trans : (u v w : OrderView) → Frozen u v → Frozen v w → Frozen u w
Frozen-trans u v w a b = record {
  status = b.status ∙ a.status;
  event_type = b.event_type ∙ a.event_type;
  event_at = b.event_at ∙ a.event_at;
  notification_error = ground (arith, a.notification_error, b.notification_error);
  refund_failed = ground (arith, a.refund_failed, b.refund_failed);
}

Delivery-FrozenAt :
    (k : String) (v : OrderView) (e : Event) (db db' : ReadDb)
    → Delivery e db db'
    → find_view k db.views ≡ some v
    → is_final v.current_status ≡ true
    → FrozenAt k v db'.views
Delivery-FrozenAt k v e db db' (ignored same _) h t = (v, ap (find_view k) same ∙ h, Frozen-refl v)
Delivery-FrozenAt k v e db db' (marked _ same _) h t = (v, ap (find_view k) same ∙ h, Frozen-refl v)
Delivery-FrozenAt k v e db db' (applied _ same _) h t =
    subst (FrozenAt k v) (sym same)
      (upsert-FrozenAt k v (new_view e) db.views (str_eq (new_view e).order_id k) refl h t)

-- Once a view shows COMPLETED or FAILED, no sequence of deliveries, with database faults at any
-- points, changes its status, its last event's type or time, or clears its notification error or
-- refund failure.
pub project-FrozenAt :
    (k : String) (v : OrderView) (ds : List (Event × Option ℕ)) (db : ReadDb)
    → find_view k db.views ≡ some v
    → is_final v.current_status ≡ true
    → FrozenAt k v (project ds db).views
unfolding project
project-FrozenAt k v [] db h t = (v, h, Frozen-refl v)
project-FrozenAt k v ((e, f) ∷ rest) db h t =
    let (u, hu, vu) =
      Delivery-FrozenAt k v e (with_faults f db) _ (handle_event-Delivery e (with_faults f db)) h
        t in
    let (u', hu', uu') =
      project-FrozenAt k u rest (handle_event e (with_faults f db)).1 hu
        (ap is_final vu.status ∙ t) in
    (u', hu', Frozen-trans v u u' vu uu')

-- An event whose id was projected before changes neither the views nor the processed ids, at any
-- fault.
pub handle_event-processed :
    (e : Event) (db : ReadDb)
    → contains e.event_id db.processed ≡ true
    → ((handle_event e db).1.views ≡ db.views) × ((handle_event e db).1.processed ≡ db.processed)
handle_event-processed e db h = elim (handle_event-Delivery e db) [
  | ignored a b ↦ (a, b)
  | marked n _ _ ↦ cc
  | applied n _ _ ↦ cc
]

-- A new event with no database fault is put into the view of its order, made or merged, and its id
-- is remembered; the view of every other order stays.
pub handle_event-applies :
    (e : Event) (db : ReadDb) (k : String)
    → db.faults ≡ none
    → contains e.event_id db.processed ≡ false
    → ((handle_event e db).0 ≡ ok tt)
      × (find_view k (handle_event e db).1.views ≡ (
          if str_eq e.order_id k
          then merged k (new_view e) (find_view k db.views)
          else find_view k db.views))
      × ((handle_event e db).1.processed ≡ e.event_id ∷ db.processed)
unfolding handle_event
handle_event-applies e db k hf hb =
    rw (hf, hb) (refl, find_view-upsert k (new_view e) db.views, refl)
