-- ===== src/Orchestrator/Steady.antt =====
-- The orchestrator's handlers under database faults.
use workers_kafka.Prelude.{ℕ, String, Bool, true, false, Option, none, some}
use workers_kafka.Domain.{OrderStatus, EventType, Event, Saga, Metadata, retrying, failed}
use workers_kafka.Exec.{pure}
use workers_kafka.Store.{Direction}
use workers_kafka.Tx.Steady.{
  IsSteady, if-IsSteady, journaled-IsSteady, append_event-IsSteady, has_processed-IsSteady,
  pure-IsSteady, with_tx-IsSteady, steady_rules,
}
use workers_kafka.Orchestrator.Rules.{is_order_created}
use workers_kafka.Tx.{append_event, has_processed}
use workers_kafka.Orchestrator.{
  log_event, already_processed, dispatch_next, fail, complete, start_compensation, retry_exhausted,
  retry, advance, fail_result, refunded_result, apply_result, result_seen, result_loaded,
  handle_result_tx, order_absent, order_seen, start_order_tx, handle_event, component, entry_of,
}

module _ {G : Type 0} where
  log_event-IsSteady :
      (s : Saga) (i : String) (t : EventType) (d : Direction) (st : OrderStatus) (e : Event)
      → IsSteady {G = G} (log_event s i t d st e)
  unfolding log_event
  log_event-IsSteady s i t d st e = record {
    at = λ w.
        (journaled-IsSteady (append_event (entry_of s i t d st e)) (pure tt)
            (append_event-IsSteady _) (pure-IsSteady tt)).at
          w;
    draws = λ w.
        (journaled-IsSteady (append_event (entry_of s i t d st e)) (pure tt)
            (append_event-IsSteady _) (pure-IsSteady tt)).draws
          w;
  }

  already_processed-IsSteady : (i : String) → IsSteady {G = G} (already_processed i)
  unfolding already_processed
  already_processed-IsSteady i = record {
    at = λ w.
        (journaled-IsSteady (has_processed i component) (pure false)
            (has_processed-IsSteady i component) (pure-IsSteady false)).at
          w;
    draws = λ w.
        (journaled-IsSteady (has_processed i component) (pure false)
            (has_processed-IsSteady i component) (pure-IsSteady false)).draws
          w;
  }

ruleset log_rules = (steady_rules, log_event-IsSteady, already_processed-IsSteady)

module _ {G : Type 0} where
  dispatch_next-IsSteady : (s : Saga) → IsSteady {G = G} (dispatch_next s)
  unfolding dispatch_next
  dispatch_next-IsSteady s = search log_rules

  fail-IsSteady : (s : Saga) (md : Metadata) → IsSteady {G = G} (fail s md)
  unfolding fail
  fail-IsSteady s md = search log_rules depth 8

  complete-IsSteady : (s : Saga) (md : Metadata) → IsSteady {G = G} (complete s md)
  unfolding complete
  complete-IsSteady s md = search log_rules depth 8

  start_compensation-IsSteady : (s : Saga) → IsSteady {G = G} (start_compensation s)
  unfolding start_compensation
  start_compensation-IsSteady s = search (log_rules, dispatch_next-IsSteady)

  retry_exhausted-IsSteady : (s : Saga) → IsSteady {G = G} (retry_exhausted s)
  unfolding retry_exhausted
  retry_exhausted-IsSteady s = search (log_rules, complete-IsSteady, fail-IsSteady)

  retry-IsSteady : (max : ℕ) (s : Saga) → IsSteady {G = G} (retry max s)
  unfolding retry
  retry-IsSteady max s = search (log_rules, retry_exhausted-IsSteady, dispatch_next-IsSteady)

  advance-IsSteady : (s : Saga) (e : Event) → IsSteady {G = G} (advance s e)
  unfolding advance
  advance-IsSteady s e = search (log_rules, dispatch_next-IsSteady)

  fail_result-IsSteady : (s : Saga) (e : Event) → IsSteady {G = G} (fail_result s e)
  unfolding fail_result
  fail_result-IsSteady s e =
      search (log_rules, complete-IsSteady, fail-IsSteady, start_compensation-IsSteady)

  refunded_result-IsSteady : (s : Saga) (e : Event) → IsSteady {G = G} (refunded_result s e)
  unfolding refunded_result
  refunded_result-IsSteady s e = search fail-IsSteady

ruleset result_rules = (
  log_rules, retry-IsSteady, fail_result-IsSteady, advance-IsSteady, refunded_result-IsSteady,
  complete-IsSteady,
)

module _ {G : Type 0} where
  apply_result-IsSteady :
      (max : ℕ) (st : OrderStatus) (s : Saga) (e : Event)
      → IsSteady {G = G} (apply_result max st s e)
  unfolding apply_result
  apply_result-IsSteady max retrying s e = search result_rules
  apply_result-IsSteady max failed s e = search result_rules
  apply_result-IsSteady max _ s e = search result_rules

  result_seen-IsSteady :
      (max : ℕ) (s : Saga) (e : Event) (b : Bool) → IsSteady {G = G} (result_seen max s e b)
  unfolding result_seen
  result_seen-IsSteady max s e true = search log_rules
  result_seen-IsSteady max s e false = search (log_rules, apply_result-IsSteady)

  result_loaded-IsSteady :
      (max : ℕ) (e : Event) (o : Option Saga) → IsSteady {G = G} (result_loaded max e o)
  unfolding result_loaded
  result_loaded-IsSteady max e none = search log_rules
  result_loaded-IsSteady max e (some s) = search (log_rules, result_seen-IsSteady)

  pub handle_result_tx-IsSteady : (max : ℕ) (e : Event) → IsSteady {G = G} (handle_result_tx max e)
  unfolding handle_result_tx
  handle_result_tx-IsSteady max e = search (log_rules, result_loaded-IsSteady)

  order_absent-IsSteady : (e : Event) (o : Option Saga) → IsSteady {G = G} (order_absent e o)
  unfolding order_absent
  order_absent-IsSteady e none = search (log_rules, dispatch_next-IsSteady)
  order_absent-IsSteady e (some s) = search log_rules

  order_seen-IsSteady : (e : Event) (b : Bool) → IsSteady {G = G} (order_seen e b)
  unfolding order_seen
  order_seen-IsSteady e true = search log_rules
  order_seen-IsSteady e false = search (log_rules, order_absent-IsSteady)

  pub start_order_tx-IsSteady : (e : Event) → IsSteady {G = G} (start_order_tx e)
  unfolding start_order_tx
  start_order_tx-IsSteady e = search (log_rules, order_seen-IsSteady)

  -- Whatever database call fails while an event is handled, the handler either returns the database
  -- error or does exactly what it does when no call fails.
  pub handle_event-IsSteady : (max : ℕ) (e : Event) → IsSteady {G = G} (handle_event max e)
  unfolding handle_event
  handle_event-IsSteady max e =
      if-IsSteady (is_order_created e.event_type) _ _
        (with_tx-IsSteady _ (start_order_tx-IsSteady e))
        (with_tx-IsSteady _ (handle_result_tx-IsSteady max e))
