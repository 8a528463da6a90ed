-- ===== src/Scenarios/Operations.antt =====
-- The theorems on the watchdog, the autoscaler, the breakers and the health checks, at readings of
-- them.
use workers_kafka.Prelude.{
  ℕ, suc, ◌*◌, ◌≡◌, refl, String, List, [], ◌∷◌, Option, none, some, true, false, arith, inr, inl,
  if◌then◌else◌, str_eq,
}
use workers_kafka.Domain.{Event, payment_pending, payment_command}
use workers_kafka.Store.{empty_db}
use workers_kafka.Tx.{World}
use workers_kafka.Consumer.Watchdog.{Watchdog, Check, watch, check_after, watch-steady}
use workers_kafka.Autoscaler.{Settings, new_scaler, run_scaler, total_lag}
use workers_kafka.External.Breaker.{CircuitBreaker, BreakerConfig, breaker_config_from_env}
use workers_kafka.Worker.{answer, failure}
use workers_kafka.Worker.Payment.{PaymentGateway}
use workers_kafka.Health.{Network}
use workers_kafka.Scenarios.{start, created}

-- Tests.
abbrev unstarted : Watchdog
unstarted = record { last_fetches = none; last_progress = 0 }

abbrev busy : List Check
busy = check_after 0 1 10 ∷ check_after 0 2 20 ∷ []

abbrev limits : Settings
limits = record {
  min_replicas = 1;
  max_replicas = 5;
  high_lag = 1000;
  idle_duration = 60;
  scale_step = 3;
}

abbrev readings : List (ℕ × Option ℕ)
readings = (10, some 2000) ∷ (20, some 2000) ∷ (30, none) ∷ (40, some 2000) ∷ (50, some 2000) ∷ []

scaled_up :
    (run_scaler limits readings (new_scaler limits)).0 ≡ none ∷ some 4 ∷ none ∷ none ∷ some 5 ∷ []
unfolding run_scaler
scaled_up = refl

abbrev digits : String → Option ℕ
digits s = if str_eq s "7" then some 7 else none

lag_of_group :
    total_lag digits "projector" "orders.status" (
      ("projector" ∷ "orders.status" ∷ "0" ∷ "1" ∷ "8" ∷ "7" ∷ [])
      ∷ ("projector" ∷ "orders.status" ∷ "1" ∷ "-" ∷ "8" ∷ "-" ∷ [])
      ∷ ("other" ∷ "orders.status" ∷ "0" ∷ "1" ∷ "8" ∷ "7" ∷ [])
      ∷ ("GROUP" ∷ "TOPIC" ∷ [])
      ∷ [])
    ≡ 7
unfolding total_lag
lag_of_group = refl

-- A breaker that counts its calls and rejects none, or all.
abbrev closed : CircuitBreaker ℕ ℕ
closed = record {
  execute = λ request (c, g). let (reply, g') = request g in (reply, (suc c, g'));
  execute-cases = λ request s. inr (refl, refl);
}

abbrev open_breaker : CircuitBreaker ℕ ℕ
open_breaker = record {
  execute = λ request s. (failure "circuit breaker is open", s);
  execute-cases = λ request s. inl ("circuit breaker is open", refl, refl);
}

abbrev service : PaymentGateway ℕ
service = record {
  process = λ order_id n. (answer (true, "tx"), suc n);
  refund = λ order_id transaction_id n. (answer true, suc n);
}

abbrev protected : World (ℕ × ℕ)
protected = record {
  db = empty_db;
  gateway = (0, 0);
  faults = none;
  journaled = true;
  fresh = start.fresh;
  drawn = 0;
  clock = start.clock;
  traceparent = "";
}

abbrev charge : Event
charge = record created { event_type = payment_command; status_atual = payment_pending }

abbrev defaults : BreakerConfig
defaults = breaker_config_from_env none none none

abbrev nodes : Network
nodes = record { is_reachable = λ b. str_eq b "b" }

-- The theorems at these readings.

steady_example :
    watch
      (check_after 0 1 5 ∷ check_after 0 2 5 ∷ check_after 0 3 5 ∷ check_after 0 4 5 ∷ [])
      unstarted
    ≡ false ∷ false ∷ false ∷ true ∷ []
steady_example = watch-steady (λ k. k * 5) 5 0 unstarted (λ k. omega arith) refl
