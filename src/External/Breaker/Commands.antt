-- ===== src/External/Breaker/Commands.antt =====
-- The workers behind a breaker, and its settings.
use workers_kafka.Prelude.{ℕ, ◌≤◌, ◌<◌, ◌≡◌, ◌⊎◌, Option, none, some, Bool, arith, leb}
use workers_kafka.Domain.{Event, retrying}
use workers_kafka.Tx.{World}
use workers_kafka.Worker.{component_payment}
use workers_kafka.Worker.Reports.{Reported}
use workers_kafka.Worker.Payment.{PaymentGateway, process_status}
use workers_kafka.External.Breaker.{
  CircuitBreaker, BreakerConfig, Counts, breaker_config_from_env, ready_to_trip,
  with_payment_breaker,
}

-- Whatever the environment holds, a breaker's limit of failures is at least one and its timeout is
-- positive; and it is ready to trip just when the consecutive failures reach the limit, as long as
-- these are not more than the requests counted.
pub ready_to_trip_iff :
    (enabled : Option Bool) (failures timeout : Option ℕ) (counts : Counts)
    → counts.consecutive_failures ≤ counts.requests
    → let c = breaker_config_from_env enabled failures timeout in
      (1 ≤ c.max_failures)
      × (0 < c.timeout)
      × (ready_to_trip c counts ≡ leb c.max_failures counts.consecutive_failures)
unfolding breaker_config_from_env ready_to_trip
ready_to_trip_iff enabled none none counts h = ground (arith, h)
ready_to_trip_iff enabled none (some d) counts h = ground (arith, h)
ready_to_trip_iff enabled (some n) none counts h = ground (arith, h)
ready_to_trip_iff enabled (some n) (some d) counts h = ground (arith, h)

-- The service behind a breaker after a payment command, and the result that went out.
pub record Guarded {C G : Type 0} (inner : PaymentGateway G) (w w' : World (C × G)) (e : Event)
    : Type 0 where
  pub result : Event
  pub reported : Reported w.db w'.db component_payment e result
  pub called :
      ((w'.gateway.1 ≡ w.gateway.1) × (result.status_atual ≡ retrying))
      ⊎ ((w'.gateway.1 ≡ (inner.process e.order_id w.gateway.1).1)
          × (result.status_atual ≡ process_status (inner.process e.order_id w.gateway.1).0))

module _ {C G : Type 0} (breaker : CircuitBreaker C G) (inner : PaymentGateway G)
    (c : BreakerConfig) (w : World (C × G)) (e : Event) where
  abbrev guarded : PaymentGateway (C × G)
  guarded = with_payment_breaker breaker inner c
