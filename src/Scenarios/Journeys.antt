-- ===== src/Scenarios/Journeys.antt =====
-- Orders at their end: one followed there, with gateways that approve what they are asked for, and
-- one whose notification is refused.
use text.Mathlib.TextLemmas.{length-append}
use Prim.Native.String.{◌++◌, count}
use workers_kafka.Prelude.{
  ℕ, zero, suc, ◌+◌, ◌≡◌, refl, ap, String, List, Option, [], ◌∷◌, none, some, true, arith,
}
use workers_kafka.Store.{empty_db, has_event, find_saga, upsert_saga, append_entry, append_outbox}
use workers_kafka.Topics.{topic_order_created, topic_payment_command, topic_for_event_type}
use workers_kafka.Tx.{World}
use workers_kafka.Domain.{
  Event, Saga, completed, payment_compensate, notification_result, inventory_reserved,
  payment_approved, failed,
}
use workers_kafka.Projector.{OrderView, ReadDb, new_view, contains, find_view}
use workers_kafka.Orchestrator.{handle_event}
use workers_kafka.Flow.Shown.{Refused, Disagree, refused-Disagree}
use workers_kafka.Flow.Wiring.{readers, actor, projector, readers-subscriber}
use workers_kafka.Flow.{Gateways, follow, subscriber}
use workers_kafka.Flow.Journal.{Supply, Older, has_row}
use workers_kafka.Flow.Deliveries.{Finished}
use workers_kafka.Flow.Answers.{Approving}
use workers_kafka.Flow.Completes.{follow-Finished, follow-completed}
use workers_kafka.Worker.{answer}
use workers_kafka.Scenarios.{created, reserved}

-- Tests.
abbrev gateways : Gateways (Unit {0})
gateways = record {
  payments = record {
    process = λ order_id g. (answer (true, "tx"), g);
    refund = λ order_id transaction_id g. (answer true, g);
  };
  stock = record { reserve = λ order_id g. (answer true, g) };
  messages = record { notify = λ order_id g. (answer true, g) };
}

numbered : ℕ → String
numbered zero = "id"
numbered (suc n) = "i" ++ numbered n

count-numbered : (n : ℕ) → count (numbered n) ≡ n + 2
unfolding numbered
count-numbered zero = refl
count-numbered (suc n) = omega (arith, length-append "i" (numbered n), count-numbered n)

numbered-distinct : (i j : ℕ) → numbered i ≡ numbered j → i ≡ j
numbered-distinct i j h = omega (arith, count-numbered i, count-numbered j, ap count h)

abbrev empty : World (Unit {0})
empty = record {
  db = empty_db;
  gateway = tt;
  faults = none;
  journaled = true;
  fresh = numbered;
  drawn = 0;
  clock = λ n. n;
  traceparent = "";
}

-- Two deliveries of every message fail on the database: at the third call, and at the first.
abbrev schedule : ℕ → List (Option ℕ)
schedule n = some 2 ∷ some 0 ∷ []

empty-Supply : Supply empty
unfolding has_event has_row
empty-Supply = record {
  distinct = numbered-distinct;
  unlogged = λ i c h. refl;
  unsent = λ i h. refl;
}

created-Older : Older empty created.event_id
created-Older i h same = omega (arith, count-numbered i, ap count same)

-- The theorem at this order.
order_example : Finished (follow gateways 1 schedule 13 topic_order_created created empty) "o1"
unfolding has_event find_saga
order_example =
    follow-Finished gateways 1 schedule 12 empty created empty-Supply created-Older refl refl refl
      (omega arith)

-- An order whose notification was refused.
abbrev refused : Event
refused = record created {
  event_id = "n";
  event_type = notification_result;
  status_anterior = inventory_reserved;
  status_atual = failed;
}

abbrev waiting_saga : Saga
waiting_saga = record {
  order_id = "o1";
  current = inventory_reserved;
  previous = payment_approved;
  retry_count = 0;
  transaction_id = "tx";
}

abbrev view : OrderView
view = record (new_view created) { current_status = inventory_reserved }

abbrev read_db : ReadDb
read_db = record { views = view ∷ []; processed = "c" ∷ []; faults = none }

notice : Refused 0 reserved waiting_saga refused
unfolding handle_event has_event find_saga has_row upsert_saga append_entry append_outbox
notice = record {
  found = refl;
  waiting = refl;
  result = refl;
  status = refl;
  unseen = refl;
  unsent = refl;
}

contradiction_example : Disagree 0 reserved waiting_saga refused read_db
unfolding contains find_view new_view handle_event has_event find_saga upsert_saga append_entry
contradiction_example =
    refused-Disagree 0 reserved waiting_saga refused read_db view notice refl refl refl (λ h. cc h)
      refl refl

order_end : Finished (follow gateways 1 schedule 13 topic_order_created created empty) "o1"
unfolding has_event find_saga
order_end =
    follow-Finished gateways 1 schedule 12 empty created empty-Supply created-Older refl refl refl
      (omega arith)

readers_example :
    readers topic_payment_command ≡ actor (subscriber topic_payment_command) (projector ∷ [])
readers_example =
    readers-subscriber payment_compensate topic_payment_command
      (unfold topic_for_event_type in refl)

approve : Approving gateways
approve = record {
  pays = λ order_id g. ("tx", refl);
  holds = λ order_id g. refl;
  notifies = λ order_id g. refl;
}

completed_example :
    (f : Finished (follow gateways 1 schedule 13 topic_order_created created empty) "o1")
    × (f.saga.current ≡ completed)
unfolding has_event find_saga
completed_example =
    follow-completed gateways 1 schedule 12 empty created approve empty-Supply created-Older refl
      refl refl (omega arith)
