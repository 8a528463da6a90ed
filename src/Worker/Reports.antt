-- ===== src/Worker/Reports.antt =====
-- The tables after a worker has served a command, and results that fit the orchestrator.
use workers_kafka.Prelude.{String, ◌≡◌, refl, true, some, none}
use workers_kafka.Domain.{Event}
use workers_kafka.Errors.{ok}
use workers_kafka.Store.{
  OutboxRow, WriteDb, Payload, append_outbox, has_event, log_row, outbox_row, inward, outward,
  gateway_request, gateway_response,
}
use workers_kafka.Store.Laws.{has_event-append, has_event-append_self}
use workers_kafka.Topics.{topic_for_event_type}
use workers_kafka.Orchestrator.Rules.{expected_status_for_result, is_valid_result}
use workers_kafka.Worker.{log_entry}

pub record Reported (before after : WriteDb) (component : String) (command result : Event)
    : Type 0 where
  pub row : OutboxRow
  pub sent : after.outbox ≡ append_outbox row before.outbox
  pub carries : row.payload ≡ result
  pub keyed : row.key ≡ result.order_id
  pub routed : topic_for_event_type result.event_type ≡ some row.topic
  pub sagas : after.sagas ≡ before.sagas
  pub recorded : has_event command.event_id component after.journal ≡ true

-- The tables after a command was served.
abbrev pub served : String → String → Event → Payload → Payload → String → Event → WriteDb → WriteDb
served component traceparent command request response topic result db =
    outbox_row topic traceparent result (
      log_row (log_entry component result outward none none) (
        log_row (log_entry component command gateway_response none response) (
          log_row (log_entry component command gateway_request request none)
            (log_row (log_entry component command inward none none) db))))

pub served-Reported :
    (component traceparent : String) (command : Event) (request response : Payload) (topic : String)
    (result : Event) (db : WriteDb)
    → topic_for_event_type result.event_type ≡ some topic
    → Reported db
        (served component traceparent command request response topic result db)
        component
        command
        result
served-Reported component traceparent command request response topic result db routed = record {
  row = _;
  sent = refl;
  carries = refl;
  keyed = refl;
  routed = routed;
  sagas = refl;
  recorded = has_event-append _ _ _ _ (
      has_event-append _ _ _ _ (
        has_event-append _ _ _ _
          (has_event-append_self (log_entry component command inward none none) db.journal)));
}

-- The orchestrator, waiting in the status that the command showed, takes the result: its type is
-- expected in that status, and its status is one of those valid for the type.
pub record Accepts (command result : Event) : Type 0 where
  pub expected : expected_status_for_result result.event_type ≡ ok command.status_atual
  pub valid : is_valid_result result.event_type result.status_atual ≡ true
  pub same_order : result.order_id ≡ command.order_id
