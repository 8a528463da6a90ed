-- ===== src/Scenarios/Simulators.antt =====
-- The simulators' theorems on the orders of the debug scenarios.
use workers_kafka.Prelude.{ℕ, suc, ◌≡◌, ◌≢◌, refl, String, [], ◌∷◌, Bool, true}
use workers_kafka.External.{
  scenario_retry_once, match_scenario, attempts_of, InventorySimulator, PaymentSimulator,
  simulate_notify,
}
use workers_kafka.External.Replies.{verdict, expected_verdict, verdict-simulate_notify}

-- Tests.
abbrev decimal : ℕ → String
decimal n = "n"

abbrev is_lucky : String → Bool
is_lucky order_id = true

abbrev slow : String
slow = "o1-inventory-retry-once"

abbrev once_called : InventorySimulator
once_called = record { reserve_attempts = (slow, 1) ∷ [] }

slow_scenario : match_scenario slow "inventory" ≡ scenario_retry_once
unfolding match_scenario
slow_scenario = refl

plain_scenario : match_scenario "o1" "inventory" ≢ scenario_retry_once
unfolding match_scenario
plain_scenario h = cc h

-- The theorems at these orders.

notify_verdict_example :
    (verdict (simulate_notify decimal is_lucky slow (record { notify_attempts = [] })).0
      ≡ expected_verdict (match_scenario slow "notification") true (attempts_of slow []))
    × (attempts_of slow
          (simulate_notify decimal is_lucky slow
            (record { notify_attempts = [] })).1.notify_attempts
        ≡ suc (attempts_of slow []))
notify_verdict_example =
    verdict-simulate_notify decimal is_lucky slow (record { notify_attempts = [] })

abbrev no_payments : PaymentSimulator
no_payments = record { attempts = []; refund_attempts = []; ticks = 0 }
