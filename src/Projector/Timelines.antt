-- ===== src/Projector/Timelines.antt =====
-- No event twice in a timeline.
use workers_kafka.Prelude.{
  ℕ, suc, ◌+◌, ◌≤◌, ◌≡◌, refl, String, List, [], ◌∷◌, ◌++◌, Option, false, arith, str_eq, eq_iff,
  if◌then◌else◌,
}
use workers_kafka.Domain.{Event}
use workers_kafka.Projector.{OrderView, ReadDb, new_view, upsert_view, contains, handle_event}
use workers_kafka.Projector.Views.{
  with_faults, project, Delivery, ignored, marked, applied, handle_event-Delivery,
}

-- Events with an id in a timeline, and in the timelines of all views.
unfoldable count_events : String → List Event → ℕ
count_events k [] = 0
count_events k (e ∷ rest) = let n = count_events k rest in if str_eq e.event_id k then suc n else n

unfoldable pub count_shown : String → List OrderView → ℕ
unfolding count_events
count_shown k [] = 0
count_shown k (v ∷ rest) = count_events k v.timeline + count_shown k rest

count_events-++ :
    (k : String) (a b : List Event) → count_events k (a ++ b) ≡ count_events k a + count_events k b
unfolding count_events
count_events-++ k [] b = omega arith
count_events-++ k (e ∷ a) b = ground (arith, count_events-++ k a b)

count_shown-upsert :
    (k : String) (new : OrderView) (l : List OrderView)
    → count_shown k (upsert_view new l) ≡ count_events k new.timeline + count_shown k l
unfolding count_shown upsert_view
count_shown-upsert k new [] = refl
count_shown-upsert k new (old ∷ rest) =
    ground (arith, count_events-++ k old.timeline new.timeline, count_shown-upsert k new rest)

-- The views show no event that was not marked, and each at most once.
abbrev pub Deduplicated : ReadDb → Type 0
Deduplicated db = (k : String) → count_shown k db.views ≤ (if contains k db.processed then 1 else 0)

-- One more id marked, and `n` more events shown.
room_for_one :
    (j k : String) (ids : List String) (n m : ℕ)
    → contains j ids ≡ false
    → n ≤ (if str_eq j k then 1 else 0)
    → m ≤ (if contains k ids then 1 else 0)
    → n + m ≤ (if contains k (j ∷ ids) then 1 else 0)
unfolding contains
room_for_one j k ids n m a b c = ground (arith, eq_iff j k)

room_kept :
    (j k : String) (ids : List String) (m : ℕ)
    → m ≤ (if contains k ids then 1 else 0)
    → m ≤ (if contains k (j ∷ ids) then 1 else 0)
unfolding contains
room_kept j k ids m c = ground (arith, eq_iff j k)

Delivery-Deduplicated :
    (e : Event) (db db' : ReadDb) → Delivery e db db' → Deduplicated db → Deduplicated db'
unfolding new_view count_events
Delivery-Deduplicated e db db' (ignored v p) h k = rw (v, p) (h k)
Delivery-Deduplicated e db db' (marked n v p) h k =
    rw (v, p) (room_kept e.event_id k db.processed _ (h k))
Delivery-Deduplicated e db db' (applied n v p) h k =
    rw (v, p, count_shown-upsert k (new_view e) db.views)
      (room_for_one e.event_id k db.processed _ _ n (ground arith) (h k))

-- Whatever is delivered, repeated and in any order, with database faults at any points: the
-- timelines show each event at most once in all, and only events whose id was remembered.
pub project-Deduplicated :
    (ds : List (Event × Option ℕ)) (db : ReadDb) → Deduplicated db → Deduplicated (project ds db)
unfolding project
project-Deduplicated [] db h = h
project-Deduplicated ((e, f) ∷ rest) db h =
    project-Deduplicated rest (handle_event e (with_faults f db)).1
      (Delivery-Deduplicated e (with_faults f db) _ (handle_event-Delivery e (with_faults f db)) h)
