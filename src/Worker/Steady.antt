-- ===== src/Worker/Steady.antt =====
-- The operations of the workers under database faults.
use workers_kafka.Prelude.{String, false, inr, refl, arith}
use workers_kafka.Domain.{Event}
use workers_kafka.Exec.{pure}
use workers_kafka.Store.{Direction, Payload}
use workers_kafka.Tx.{append_event, has_processed}
use workers_kafka.Tx.Steady.{
  IsSteady, journaled-IsSteady, append_event-IsSteady, has_processed-IsSteady, pure-IsSteady,
  steady_rules,
}
use workers_kafka.Worker.{Reply, append_log, already_processed, call, log_entry}

module _ {G : Type 0} where
  pub append_log-IsSteady :
      (c : String) (e : Event) (d : Direction) (p q : Payload)
      → IsSteady {G = G} (append_log c e d p q)
  unfolding append_log
  append_log-IsSteady c e d p q = record {
    at = λ w.
        (journaled-IsSteady (append_event (log_entry c e d p q)) (pure tt) (append_event-IsSteady _)
            (pure-IsSteady tt)).at
          w;
    draws = λ w.
        (journaled-IsSteady (append_event (log_entry c e d p q)) (pure tt) (append_event-IsSteady _)
            (pure-IsSteady tt)).draws
          w;
  }

  pub already_processed-IsSteady :
      (c : String) (e : Event) → IsSteady {G = G} (already_processed c e)
  unfolding already_processed
  already_processed-IsSteady c e = record {
    at = λ w.
        (journaled-IsSteady (has_processed e.event_id c) (pure false)
            (has_processed-IsSteady e.event_id c) (pure-IsSteady false)).at
          w;
    draws = λ w.
        (journaled-IsSteady (has_processed e.event_id c) (pure false)
            (has_processed-IsSteady e.event_id c) (pure-IsSteady false)).draws
          w;
  }

  pub call-IsSteady : {A : Type 0} (f : G → Reply A × G) → IsSteady (call f)
  unfolding call
  call-IsSteady f = record {
    at = λ w. inr refl;
    draws = λ w. record { fresh = refl; more = omega arith };
  }

pub ruleset worker_rules =
    (steady_rules, append_log-IsSteady, already_processed-IsSteady, call-IsSteady)
