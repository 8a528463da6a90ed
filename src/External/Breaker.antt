-- ===== src/External/Breaker.antt =====
-- The circuit breakers around the gateways: internal/infrastructure/external/breaker.go. The library
-- gobreaker is a parameter: `CircuitBreaker` states what its documentation says of `Execute`, that a
-- call either runs the request once and returns what it returned, or is rejected with an error and
-- runs nothing.
pub mod Commands
use workers_kafka.Prelude.{
  ℕ, String, Option, none, some, Bool, true, false, ◌≡◌, ◌⊎◌, ◌&&◌, ltb, leb, if◌then◌else◌,
}
use workers_kafka.Worker.{Reply, failure}
use workers_kafka.Worker.Payment.{PaymentGateway}
use workers_kafka.Worker.Inventory.{InventoryGateway}
use workers_kafka.Worker.Notification.{NotificationGateway}

-- The breakers with states in `C`, around services with states in `G`.
pub record CircuitBreaker (C G : Type 0) : Type 1 where
  pub execute : {A : Type 0} → (G → Reply A × G) → C × G → Reply A × (C × G)
  pub execute-cases :
      {A : Type 0} (request : G → Reply A × G) (s : C × G)
      → ((e : String) × ((execute request s).0 ≡ failure e) × ((execute request s).1.1 ≡ s.1))
        ⊎ (((execute request s).0 ≡ (request s.1).0) × ((execute request s).1.1 ≡ (request s.1).1))

-- `breakerConfig`; the timeout is in nanoseconds.
pub record BreakerConfig : Type 0 where
  pub enabled : Bool
  pub max_failures : ℕ
  pub timeout : ℕ

-- What the three variables parse to: `none` where one is empty or malformed, or below 0.
unfoldable pub breaker_config_from_env : Option Bool → Option ℕ → Option ℕ → BreakerConfig
breaker_config_from_env enabled failures timeout = record {
  enabled = elim enabled [ none ↦ true | some b ↦ b ];
  max_failures = elim failures [ none ↦ 5 | some n ↦ if leb 1 n then n else 5 ];
  timeout = elim timeout [ none ↦ 10_000_000_000 | some d ↦ if ltb 0 d then d else 10_000_000_000 ];
}

-- The numbers of gobreaker's `Counts` that the settings read.
pub record Counts : Type 0 where
  pub requests : ℕ
  pub consecutive_failures : ℕ

-- `ReadyToTrip` of `settings`
unfoldable pub ready_to_trip : BreakerConfig → Counts → Bool
ready_to_trip c counts =
    leb c.max_failures counts.requests && leb c.max_failures counts.consecutive_failures

module _ {C G : Type 0} (breaker : CircuitBreaker C G) where
  -- A call of the service alone, past the breaker.
  abbrev pub past : {A : Type 0} → (G → Reply A × G) → C × G → Reply A × (C × G)
  past request (c, g) = let (reply, g') = request g in (reply, (c, g'))

  -- `withPaymentBreaker`, with `Process` and `Refund` of `paymentGatewayBreaker`
  abbrev pub with_payment_breaker : PaymentGateway G → BreakerConfig → PaymentGateway (C × G)
  with_payment_breaker inner config = record {
    process = λ order_id.
        if config.enabled
        then breaker.execute (inner.process order_id)
        else past (inner.process order_id);
    refund = λ order_id transaction_id.
        if config.enabled
        then breaker.execute (inner.refund order_id transaction_id)
        else past (inner.refund order_id transaction_id);
  }

  abbrev pub with_inventory_breaker : InventoryGateway G → BreakerConfig → InventoryGateway (C × G)
  with_inventory_breaker inner config = record {
    reserve = λ order_id.
        if config.enabled
        then breaker.execute (inner.reserve order_id)
        else past (inner.reserve order_id);
  }

  abbrev pub with_notification_breaker :
      NotificationGateway G → BreakerConfig → NotificationGateway (C × G)
  with_notification_breaker inner config = record {
    notify = λ order_id.
        if config.enabled
        then breaker.execute (inner.notify order_id)
        else past (inner.notify order_id);
  }
