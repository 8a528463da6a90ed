-- ===== src/Flow/Ends.antt =====
-- The rounds of an order until it has ended.
use workers_kafka.Prelude.{
  ℕ, zero, suc, ◌+◌, ◌-◌, ◌*◌, ◌≤◌, ◌<◌, ◌≡◌, refl, sym, subst, true, false, arith, String, List,
  Option,
}
use workers_kafka.Domain.{
  Event, OrderStatus, Saga, payment_pending, payment_approved, payment_refund_pending,
  inventory_reserved,
}
use workers_kafka.Tx.{World}
use workers_kafka.Orchestrator.Steps.{is_stable, is_terminal, stages, budget}
use workers_kafka.Flow.{Gateways, follow}
use workers_kafka.Flow.Deliveries.{Finished, Waits}
use workers_kafka.Flow.ToWorker.{serves}
use workers_kafka.Flow.ToOrchestrator.{Ruled, over, on, rules}
use workers_kafka.Domain.{completed}
use workers_kafka.Flow.Answers.{Approving}
use workers_kafka.Flow.Decisions.{on_track, granted as granted_status, reached}

active_budget :
    (max r : ℕ) (st : OrderStatus)
    → is_stable st ≡ true
    → is_terminal st ≡ false
    → r ≤ max
    → 1 ≤ stages st * (max + 1) - r
active_budget max r payment_pending h a b = omega arith
active_budget max r payment_approved h a b = omega arith
active_budget max r payment_refund_pending h a b = omega arith
active_budget max r inventory_reserved h a b = omega arith
active_budget max r _ h a b = cc

completed_at :
    (st now : OrderStatus)
    → on_track st ≡ true
    → is_terminal now ≡ true
    → now ≡ reached st
    → now ≡ completed
completed_at payment_pending now o t h = cc (rw h at t)
completed_at payment_approved now o t h = cc (rw h at t)
completed_at inventory_reserved now o t h = h
completed_at _ now o t h = cc

still_on_track :
    (st now : OrderStatus)
    → on_track st ≡ true
    → is_terminal now ≡ false
    → now ≡ reached st
    → on_track now ≡ true
still_on_track payment_pending now o t h = rw h refl
still_on_track payment_approved now o t h = rw h refl
still_on_track inventory_reserved now o t h = cc (rw h at t)
still_on_track _ now o t h = cc

-- The order has ended, and completed if it was on its track and the gateways grant everything.
pub record Ended {G : Type 0} (gateways : Gateways G) (st : OrderStatus) (w : World G)
    (order_id : String) : Type 0 where
  pub finished : Finished w order_id
  pub granted : Approving gateways → on_track st ≡ true → finished.saga.current ≡ completed

module _ {G : Type 0} (gateways : Gateways G) (max : ℕ) (schedule : ℕ → List (Option ℕ)) where
  returns-Ended :
      (n : ℕ) (w : World G) (topic k : String) (s : Saga) (e : Event)
      → Ruled gateways max schedule n w topic k s e
      → (Approving gateways → on_track s.current ≡ true → e.status_atual ≡ granted_status s.current)
      → ((w' : World G) (topic' : String) (s' : Saga) (e' : Event)
          → Waits max w' topic' k s' e'
          → budget max s' < budget max s
          → Ended gateways s'.current (follow gateways max schedule n topic' e' w') k)
      → Ended gateways s.current (follow gateways max schedule (suc n) topic e w) k
  returns-Ended n w topic k s e (over w' stops f next) grants go =
      subst (λ (x : World G). Ended gateways s.current x k) (sym stops)
        (record {
          finished = f;
          granted = λ a o. completed_at s.current f.saga.current o f.terminal (next o (grants a o));
        })
  returns-Ended n w topic k s e (on w' topic' s' e' runs waits less next) grants go =
      let rest = go w' topic' s' e' waits less in
      subst (λ (x : World G). Ended gateways s.current x k) (sym runs)
        (record {
          finished = rest.finished;
          granted = λ a o.
              rest.granted a
                (still_on_track s.current s'.current o waits.flight.active (next o (grants a o)));
        })

  pub rounds-Ended :
      (b n : ℕ) (w : World G) (topic k : String) (s : Saga) (e : Event)
      → Waits max w topic k s e
      → budget max s ≤ b
      → 2 * b ≤ n
      → Ended gateways s.current (follow gateways max schedule n topic e w) k
  rounds-Ended zero n w topic k s e h below fuel =
      let f = h.flight in
      let spent : ⊥ = omega (
        arith,
        below,
        active_budget max s.retry_count s.current f.fine.stable f.active f.fine.bounded,
      ) in
      elim spent [ ]
  rounds-Ended (suc b) zero w topic k s e h below fuel =
      let short : ⊥ = omega (arith, fuel) in elim short [ ]
  rounds-Ended (suc b) (suc zero) w topic k s e h below fuel =
      let short : ⊥ = omega (arith, fuel) in elim short [ ]
  rounds-Ended (suc b) (suc (suc n)) w topic k s e h below fuel =
      let v = serves gateways max schedule (suc n) w topic k s e h in
      subst (λ (x : World G). Ended gateways s.current x k) (sym v.runs)
        (returns-Ended n v.world v.back k s v.result
          (rules gateways max schedule n v.world v.back k s v.result v.returns) v.grants
          (λ w' topic' s' e' waits less.
            rounds-Ended b n w' topic' k s' e' waits (omega (arith, less, below))
              (omega (arith, fuel))))
