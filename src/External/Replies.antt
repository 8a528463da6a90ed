-- ===== src/External/Replies.antt =====
-- What the simulators reply, and when.
use workers_kafka.Prelude.{
  ℕ, zero, suc, ◌≡◌, ◌≢◌, refl, sym, String, List, [], ◌∷◌, Option, none, some, Bool, true, false,
  arith, str_eq, eq_iff, if◌then◌else◌, ◌∙◌,
}
use workers_kafka.Worker.{Reply, answer, failure}
use workers_kafka.External.{
  ScenarioMode, scenario_none, scenario_fail, scenario_retry_once, scenario_retry, match_scenario,
  attempts_of, count_attempt, InventorySimulator, NotificationSimulator, PaymentSimulator, respond,
  simulate_reserve, simulate_notify, simulate_refund,
}

-- A call counts for its order and for no other.
pub attempts_of-count_attempt :
    (k j : String) (l : List (String × ℕ))
    → attempts_of k (count_attempt j l)
      ≡ (if str_eq j k then suc (attempts_of j l) else attempts_of k l)
unfolding attempts_of count_attempt
attempts_of-count_attempt k j [] = ground (arith, eq_iff j k)
attempts_of-count_attempt k j ((i, n) ∷ rest) =
    ground (arith, eq_iff i j, eq_iff i k, eq_iff j k, attempts_of-count_attempt k j rest)

attempts_of-count_attempt_self :
    (k : String) (l : List (String × ℕ)) → attempts_of k (count_attempt k l) ≡ suc (attempts_of k l)
attempts_of-count_attempt_self k l = attempts_of-count_attempt k k l ∙ ground (arith, eq_iff k k)

-- The answer, where there is one; a temporary failure has none.
abbrev pub verdict : Reply Bool → Option Bool
verdict (answer b) = some b
verdict (failure e) = none

-- The verdict of the reply to an order, by its scenario, its luck and the attempts before.
abbrev pub expected_verdict : ScenarioMode → Bool → ℕ → Option Bool
expected_verdict scenario_fail lucky before = some false
expected_verdict scenario_retry lucky before = none
expected_verdict scenario_retry_once lucky zero = none
expected_verdict scenario_retry_once lucky (suc n) = some true
expected_verdict scenario_none lucky before = some lucky

verdict-respond :
    (decimal : ℕ → String) (stage : String) (before : ℕ) (lucky : Bool) (mode : ScenarioMode)
    → verdict (respond decimal stage (suc before) lucky mode) ≡ expected_verdict mode lucky before
unfolding respond
verdict-respond decimal stage before lucky scenario_fail = refl
verdict-respond decimal stage before lucky scenario_retry = refl
verdict-respond decimal stage zero lucky scenario_retry_once = refl
verdict-respond decimal stage (suc n) lucky scenario_retry_once = ground arith
verdict-respond decimal stage before lucky scenario_none = refl

module _ (decimal : ℕ → String) (is_lucky : String → Bool) (order_id : String) where
  -- The inventory simulator refuses an order of the scenario fail, reports a temporary failure on
  -- every call for one of the scenario retry and on the first call alone for one of retry-once,
  -- which it then accepts, and otherwise decides by the luck of the order; the call is counted.
  pub verdict-simulate_reserve :
      (s : InventorySimulator)
      → let after = simulate_reserve decimal is_lucky order_id s in
        (verdict after.0
          ≡ expected_verdict
              (match_scenario order_id "inventory")
              (is_lucky order_id)
              (attempts_of order_id s.reserve_attempts))
        × (attempts_of order_id after.1.reserve_attempts
            ≡ suc (attempts_of order_id s.reserve_attempts))
  unfolding simulate_reserve
  verdict-simulate_reserve s =
      let counted = attempts_of-count_attempt_self order_id s.reserve_attempts in
      (rw counted (verdict-respond decimal "inventory" _ _ _), counted)

  -- The notification simulator replies by the scenario of its own stage in the same way.
  pub verdict-simulate_notify :
      (s : NotificationSimulator)
      → let after = simulate_notify decimal is_lucky order_id s in
        (verdict after.0
          ≡ expected_verdict
              (match_scenario order_id "notification")
              (is_lucky order_id)
              (attempts_of order_id s.notify_attempts))
        × (attempts_of order_id after.1.notify_attempts
            ≡ suc (attempts_of order_id s.notify_attempts))
  unfolding simulate_notify
  verdict-simulate_notify s =
      let counted = attempts_of-count_attempt_self order_id s.notify_attempts in
      (rw counted (verdict-respond decimal "notification" _ _ _), counted)

  -- The simulated refund replies by the scenario of the payment and the attempts to refund, in the
  -- same way, and leaves the attempts to pay as they are.
  pub verdict-simulate_refund :
      (transaction_id : String) (s : PaymentSimulator)
      → let after = simulate_refund decimal is_lucky order_id transaction_id s in
        (verdict after.0
          ≡ expected_verdict
              (match_scenario order_id "payment")
              (is_lucky order_id)
              (attempts_of order_id s.refund_attempts))
        × (after.1.attempts ≡ s.attempts)
  unfolding simulate_refund
  verdict-simulate_refund transaction_id s =
      let counted = attempts_of-count_attempt_self order_id s.refund_attempts in
      (rw counted (verdict-respond decimal "refund" _ _ _), refl)

expected_verdict-same :
    (mode : ScenarioMode) (lucky : Bool) (m n : ℕ)
    → mode ≢ scenario_retry_once
    → expected_verdict mode lucky m ≡ expected_verdict mode lucky n
expected_verdict-same scenario_none lucky m n h = refl
expected_verdict-same scenario_fail lucky m n h = refl
expected_verdict-same scenario_retry lucky m n h = refl
expected_verdict-same scenario_retry_once lucky m n h = absurd (h refl)

-- Two instances of the inventory worker, whatever calls each has had, give an order the same
-- verdict, unless it is of the scenario retry-once.
pub simulate_reserve-same :
    (decimal : ℕ → String) (is_lucky : String → Bool) (order_id : String)
    (s s' : InventorySimulator)
    → match_scenario order_id "inventory" ≢ scenario_retry_once
    → verdict (simulate_reserve decimal is_lucky order_id s).0
      ≡ verdict (simulate_reserve decimal is_lucky order_id s').0
simulate_reserve-same decimal is_lucky order_id s s' h =
    (verdict-simulate_reserve decimal is_lucky order_id s).0
    ∙ expected_verdict-same _ _ _ _ h
    ∙ sym (verdict-simulate_reserve decimal is_lucky order_id s').0
