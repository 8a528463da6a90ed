-- ===== src/External.antt =====
-- The simulators of the external services: scenario.go, rand.go, payment.go, inventory.go and
-- notification.go of internal/infrastructure/external.
pub mod Replies
pub mod Breaker
use Prim.Native.String.{◌++◌ as text_append, len, find}
use workers_kafka.Prelude.{
  ℕ, zero, suc, String, List, [], ◌∷◌, Bool, true, false, leb, ◌==◌, str_eq, if◌then◌else◌,
}
use workers_kafka.Worker.{Reply, answer, failure}
use workers_kafka.Worker.Payment.{PaymentGateway}
use workers_kafka.Worker.Inventory.{InventoryGateway}
use workers_kafka.Worker.Notification.{NotificationGateway}

-- `scenarioMode`
pub data ScenarioMode : Type 0 where
  scenario_none scenario_fail scenario_retry_once scenario_retry : ScenarioMode

-- `strings.Contains`
abbrev pub contains_text : String → String → Bool
contains_text s t = leb (find s t) (len s)

unfoldable pub match_scenario : String → String → ScenarioMode
match_scenario order_id stage =
    if contains_text order_id (text_append stage "-fail")
    then scenario_fail
    else if contains_text order_id (text_append stage "-retry-once")
    then scenario_retry_once
    else if contains_text order_id (text_append stage "-retry")
    then scenario_retry
    else scenario_none

-- A counter of each order's attempts; a missing key reads as 0.
unfoldable pub attempts_of : String → List (String × ℕ) → ℕ
attempts_of k [] = 0
attempts_of k ((j, n) ∷ rest) = if str_eq j k then n else attempts_of k rest

-- `attempts[orderID]++`
unfoldable pub count_attempt : String → List (String × ℕ) → List (String × ℕ)
count_attempt k [] = (k, 1) ∷ []
count_attempt k ((j, n) ∷ rest) =
    if str_eq j k then (j, suc n) ∷ rest else (j, n) ∷ count_attempt k rest

pub record PaymentSimulator : Type 0 where
  pub attempts : List (String × ℕ)
  pub refund_attempts : List (String × ℕ)
  pub ticks : ℕ

pub record InventorySimulator : Type 0 where
  pub reserve_attempts : List (String × ℕ)

pub record NotificationSimulator : Type 0 where
  pub notify_attempts : List (String × ℕ)

-- `decimal` is the verb %d of `fmt`, and `nanoseconds` the clock. `is_lucky order_id` is
-- `randForOrder(orderID).Float64() < rate` for the rate of a simulator: the generator is seeded by
-- a hash of the order alone.
module _ (decimal : ℕ → String) where
  unfoldable pub retry_error : String → ℕ → String
  retry_error stage attempt =
      text_append "debug scenario for "
        (text_append stage (text_append ": temporary failure on attempt " (decimal attempt)))

  -- The replies of a stage that answers yes or no.
  unfoldable pub respond : String → ℕ → Bool → ScenarioMode → Reply Bool
  unfolding retry_error
  respond stage attempt lucky scenario_fail = answer false
  respond stage attempt lucky scenario_retry = failure (retry_error stage attempt)
  respond stage attempt lucky scenario_retry_once =
      if attempt == 1 then failure (retry_error stage attempt) else answer true
  respond stage attempt lucky scenario_none = answer lucky

  module _ (is_lucky : String → Bool) where
    -- `InventorySimulator.Reserve`
    unfoldable pub simulate_reserve : String → InventorySimulator → Reply Bool × InventorySimulator
    unfolding count_attempt attempts_of respond match_scenario
    simulate_reserve order_id s =
        let attempts' = count_attempt order_id s.reserve_attempts in
        (
          respond "inventory" (attempts_of order_id attempts') (is_lucky order_id)
              (match_scenario order_id "inventory"),
          record { reserve_attempts = attempts' },
        )

    -- `NotificationSimulator.Notify`
    unfoldable pub simulate_notify :
        String → NotificationSimulator → Reply Bool × NotificationSimulator
    unfolding count_attempt attempts_of respond match_scenario
    simulate_notify order_id s =
        let attempts' = count_attempt order_id s.notify_attempts in
        (
          respond "notification" (attempts_of order_id attempts') (is_lucky order_id)
              (match_scenario order_id "notification"),
          record { notify_attempts = attempts' },
        )

    -- `PaymentSimulator.Refund`, which matches the scenarios of the payment
    unfoldable pub simulate_refund :
        String → String → PaymentSimulator → Reply Bool × PaymentSimulator
    unfolding count_attempt attempts_of respond match_scenario
    simulate_refund order_id transaction_id s =
        let attempts' = count_attempt order_id s.refund_attempts in
        (
          respond "refund" (attempts_of order_id attempts') (is_lucky order_id)
              (match_scenario order_id "payment"),
          record s { refund_attempts = attempts' },
        )

    module _ (nanoseconds : ℕ → ℕ) where
      unfoldable pub with_transaction : String → ℕ → Reply Bool → Reply (Bool × String)
      with_transaction order_id now (failure e) = failure e
      with_transaction order_id now (answer false) = answer (false, "")
      with_transaction order_id now (answer true) = answer (
        true,
        text_append "tx-" (text_append order_id (text_append "-" (decimal (nanoseconds now)))),
      )

      -- `PaymentSimulator.Process`
      unfoldable pub simulate_process :
          String → PaymentSimulator → Reply (Bool × String) × PaymentSimulator
      unfolding count_attempt attempts_of respond match_scenario with_transaction
      simulate_process order_id s =
          let attempts' = count_attempt order_id s.attempts in
          (
            with_transaction order_id s.ticks (
                respond "payment" (attempts_of order_id attempts') (is_lucky order_id)
                  (match_scenario order_id "payment")),
            record s { attempts = attempts'; ticks = suc s.ticks },
          )

      abbrev pub payment_simulator : PaymentGateway PaymentSimulator
      payment_simulator = record { process = simulate_process; refund = simulate_refund }

    abbrev pub inventory_simulator : InventoryGateway InventorySimulator
    inventory_simulator = record { reserve = simulate_reserve }

    abbrev pub notification_simulator : NotificationGateway NotificationSimulator
    notification_simulator = record { notify = simulate_notify }
