-- ===== src/Scenarios/Goroutines.antt =====
-- The theorems about a consumer's goroutines, with the handler that refuses the order "later".
use workers_kafka.Prelude.{ℕ, ◌≡◌, arith, refl, List, [], ◌∷◌, none, some, true, false}
use workers_kafka.Consumer.{
  got, fetch_error, other_fetch_error, Turn, Message, Consumer, validate_schema_version, consume,
  consume_worker, leave, turn, new_commit_batcher, CommitBatcher,
}
use workers_kafka.Consumer.Channels.{returned}
use workers_kafka.Consumer.Lifetime.{consume_worker-returned}
use workers_kafka.Consumer.Group.{Group, new_member, start_group, run_group, wait}
use workers_kafka.Consumer.Group.Members.{AllOk}
use workers_kafka.Consumer.Group.Books.{consumer-AllOk}
use workers_kafka.Consumer.Group.Waits.{Anything, Cancelled, run_group-waits}
use workers_kafka.Consumer.Group.Single.{alone, consume_returned, is_panic, run_group-alone}
use workers_kafka.Domain.{Event}
use workers_kafka.Errors.{ok}
use workers_kafka.Tx.{World, Tx}
use workers_kafka.Orchestrator.{component, handle_event}
use workers_kafka.Orchestrator.Redelivery.{
  is_handled, was_seen, handle_event-journal, handle_event_seen,
}
use workers_kafka.Flow.{attempt}
use workers_kafka.Flow.Consumed.{deliveries, deliveries-attempt}
use workers_kafka.Scenarios.{start, created}
use workers_kafka.Scenarios.Deliveries.{
  handler, of_order, passing, ended, new_consumer, new_consumer-Books,
}

-- Tests: a fetch that the watchdog cancelled, and then a message whose handler fails.
abbrev stalled_turns : List Turn
stalled_turns =
    record (passing (fetch_error other_fetch_error)) { stalled = true }
    ∷ passing (got (of_order "later"))
    ∷ []

-- Two goroutines, of which the first returns the error of its handler.
abbrev steps : List (ℕ × Turn)
steps = (0, passing (got (of_order "later"))) ∷ []

abbrev two : Group ℕ
two = start_group 2 (new_commit_batcher 2 200 0) 0

two-Cancelled : Cancelled (run_group true handler steps two)
unfolding run_group start_group leave turn
two-Cancelled = record {
  books =
      consumer-AllOk Anything true handler (λ e n h. tt) (λ e x n h. h) 2
        (new_commit_batcher 2 200 0) 0 steps refl;
  alive = refl;
  cancelled = refl;
  others = refl;
}

-- The theorems at these passes.
returned_example :
    (consume_worker true handler stalled_turns new_consumer).0
    ≡ returned
        (consume true handler stalled_turns new_consumer).1.reconnects
        (consume true handler stalled_turns new_consumer).0
returned_example =
    consume_worker-returned true handler stalled_turns [] new_consumer new_consumer-Books

waits_example :
    (wait (run_group true handler ((1, ended) ∷ (1, ended) ∷ []) (run_group true handler steps two))
      ≡ none)
    × ((run_group true handler
          ((1, ended) ∷ (1, ended) ∷ [])
          (run_group true handler steps two)).crashed
        ≡ false)
waits_example =
    run_group-waits true handler ((1, ended) ∷ (1, ended) ∷ []) (run_group true handler steps two)
      two-Cancelled refl

alone_example :
    let g =
      run_group true handler (alone stalled_turns) (start_group 1 (new_commit_batcher 2 200 0) 0) in
    let r =
      consume_worker true handler stalled_turns
        (new_member (new_commit_batcher 2 200 0) 0).goroutine in
    (g.members ≡ record { goroutine = r.1; result = r.0 } ∷ [])
    × (g.shared ≡ r.1.handled)
    × (wait g ≡ consume_returned r.0)
    × (g.crashed ≡ is_panic r.0)
alone_example =
    run_group-alone true handler 1 (new_commit_batcher 2 200 0) 0 stalled_turns (omega arith)

-- A message of an order that the orchestrator starts: the third database call of its first delivery
-- fails.
abbrev orders : Event → Tx (Unit {0}) (Unit {0})
orders = handle_event 0

abbrev waiting : Consumer (World (Unit {0}))
waiting = record {
  handled = start;
  pending_commits = [];
  batcher = new_commit_batcher 2 200 0;
  committed = [];
  dead = [];
  reconnects = 0;
  stall_stop = 0;
  closed_stops = [];
}

abbrev first_message : Message
first_message = record { topic = "orders.created"; key = "o1"; offset = 0; value = some created }

delivered_example :
    (deliveries orders first_message ((some 2, ended) ∷ []) ended waiting).handled
    ≡ attempt (orders created) (some 2 ∷ []) start
delivered_example =
    deliveries-attempt orders first_message created refl (unfold validate_schema_version in refl)
      ((some 2, ended) ∷ []) ended waiting

-- The orchestrator as the handler: an event of a handled type is done when the journal shows it.
abbrev Journaled : World (Unit {0}) → Event → Type 0
Journaled w e = is_handled e ≡ true → was_seen e w.db ≡ true

establishes :
    (e : Event) (w : World (Unit {0})) → (orders e w).0 ≡ ok tt → Journaled (orders e w).1 e
establishes e w h t = handle_event_seen 0 w e t h

keeps : (e x : Event) (w : World (Unit {0})) → Journaled w x → Journaled (orders e w).1 x
keeps e x w h t = handle_event-journal 0 w e x.event_id component (h t)

abbrev busy : List (ℕ × Turn)
busy = (0, passing (got first_message)) ∷ (1, passing (got (of_order "o2"))) ∷ (1, ended) ∷ []

abbrev both : CommitBatcher
both = new_commit_batcher 1 200 0

group_books_example :
    AllOk Journaled
      (run_group true orders busy (start_group 2 both start)).shared
      (run_group true orders busy (start_group 2 both start)).members
group_books_example = consumer-AllOk Journaled true orders establishes keeps 2 both start busy refl
