-- ===== src/Scenarios/Views.antt =====
-- The read model's theorems on the events of an order.
use workers_kafka.Prelude.{
  ℕ, Option, List, String, [], ◌∷◌, ◌≡◌, refl, none, some, true, false, arith,
}
use workers_kafka.Domain.{Event, completed, order_completed}
use workers_kafka.Errors.{ok, err, database}
use workers_kafka.Projector.{
  OrderView, ReadDb, is_final, contains, handle_event, find_view, upsert_view, new_view,
}
use workers_kafka.Projector.Views.{Frozen, with_faults, project, project-FrozenAt}
use workers_kafka.Projector.Lost.{handle_event_lost}
use workers_kafka.Projector.Timelines.{Deduplicated, project-Deduplicated, count_shown}
use workers_kafka.Scenarios.{created, paid}

-- Tests.
abbrev empty_read : ReadDb
empty_read = record { views = []; processed = []; faults = none }

abbrev finished : Event
finished = record created { event_id = "f"; event_type = order_completed; status_atual = completed }

abbrev shown : ReadDb
shown = (handle_event finished empty_read).1

abbrev final_view : OrderView
final_view = new_view finished

final_shown : find_view "o1" shown.views ≡ some final_view
unfolding handle_event find_view upsert_view contains new_view
final_shown = refl

final_status : is_final final_view.current_status ≡ true
unfolding new_view
final_status = refl

finished_marked : contains "f" shown.processed ≡ true
unfolding handle_event contains
finished_marked = refl

nothing_marked : (k : String) → contains k empty_read.processed ≡ false
unfolding contains
nothing_marked k = refl

empty-Deduplicated : Deduplicated empty_read
unfolding count_shown contains
empty-Deduplicated k = omega arith

-- The theorems at these events.
final_example :
    (v' : OrderView) × (find_view "o1" (project ((paid, some 1) ∷ (created, none) ∷ []) shown).views
      ≡ some v')
    × Frozen final_view v'
final_example =
    project-FrozenAt "o1" final_view ((paid, some 1) ∷ (created, none) ∷ []) shown final_shown
      final_status

abbrev losing : ReadDb
losing = with_faults (some 1) empty_read

abbrev afterwards : List (Event × Option ℕ)
afterwards = (paid, none) ∷ (created, some 0) ∷ []

lost_example :
    let later = project afterwards (handle_event created losing).1 in
    ((handle_event created losing).0 ≡ err database)
    × ((handle_event created losing).1.views ≡ losing.views)
    × ((handle_event created (with_faults (some 5) later)).1.views ≡ later.views)
    × ((handle_event created (with_faults none later)).0 ≡ ok tt)
lost_example = handle_event_lost created losing afterwards (some 5) refl (nothing_marked "c")

once_shown_example :
    Deduplicated (project ((created, none) ∷ (paid, some 1) ∷ (created, none) ∷ []) empty_read)
once_shown_example =
    project-Deduplicated ((created, none) ∷ (paid, some 1) ∷ (created, none) ∷ []) empty_read
      empty-Deduplicated
