-- ===== src/Orchestrator/Machine.antt =====
-- The table of transitions: internal/application/orchestrator/state_machine.go.
use workers_kafka.Prelude.{List, [], ◌∷◌, Bool, true, false, if◌then◌else◌}
use workers_kafka.Domain.{
  OrderStatus, pending, payment_pending, payment_approved, payment_refund_pending,
  inventory_reserved, notified, completed, failed, status_eq,
}
use workers_kafka.Errors.{Result, ok, err, invalid_transition}

unfoldable pub valid_transitions : OrderStatus → List OrderStatus
valid_transitions pending = payment_pending ∷ []
valid_transitions payment_pending = payment_approved ∷ failed ∷ []
valid_transitions payment_approved = inventory_reserved ∷ payment_refund_pending ∷ failed ∷ []
valid_transitions payment_refund_pending = failed ∷ []
valid_transitions inventory_reserved = notified ∷ completed ∷ failed ∷ []
valid_transitions notified = completed ∷ []
valid_transitions _ = []

any_eq : OrderStatus → List OrderStatus → Bool
any_eq to [] = false
any_eq to (next ∷ rest) = if status_eq next to then true else any_eq to rest

unfoldable pub can_transition_to : OrderStatus → OrderStatus → Bool
unfolding any_eq valid_transitions
can_transition_to from to = any_eq to (valid_transitions from)

unfoldable pub assert_transition : OrderStatus → OrderStatus → Result (Unit {0})
unfolding can_transition_to
assert_transition from to =
    if can_transition_to from to then ok tt else err (invalid_transition from to)
