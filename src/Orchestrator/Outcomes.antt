-- ===== src/Orchestrator/Outcomes.antt =====
-- The errors of the handler, and the message that goes with an accepted event.
use workers_kafka.Prelude.{ℕ, ◌≡◌, sym, ◌∙◌, ◌⊎◌, inl, inr, String, none, some, arith}
use workers_kafka.Domain.{Event, Saga}
use workers_kafka.Errors.{Error, Reason, err, database, non_retryable}
use workers_kafka.Store.{WriteDb, OutboxRow, find_saga, append_outbox}
use workers_kafka.Topics.{topic_for_event_type}
use workers_kafka.Tx.{World}
use workers_kafka.Tx.Live.{live}
use workers_kafka.Orchestrator.{handle_event}
use workers_kafka.Orchestrator.Spec.{Effect, unchanged, refused, wrote, effect, perform}
use workers_kafka.Orchestrator.Handler.{handle_event-refines}

abbrev pub IsReported : Error → Type 0
IsReported x = (x ≡ database) ⊎ ((r : Reason) × (x ≡ non_retryable r))

module _ {G : Type 0} (max : ℕ) (w : World G) (e : Event) where
  perform-error : (f : Effect) {x : Error} → (perform (live w) f).0 ≡ err x → IsReported x
  unfolding perform
  perform-error unchanged h = cc
  perform-error (refused r) h = inr (r, ground arith)
  perform-error (wrote entry s m) h = cc

  -- The handler reports an error of the database or a definitive error, and no other: no result
  -- meets a forbidden transition, a status with no next step or an event type with no topic.
  pub handle_event-error : {x : Error} → (handle_event max e w).0 ≡ err x → IsReported x
  handle_event-error {x} h = elim (handle_event-refines max e w) [
    | inl (o, same) ↦ inl (ground arith)
    | inr (o, same) ↦ perform-error (effect max w.db e) (sym o ∙ h)
  ]

-- The tables after an accepted event: the saga `s` under its order, and one more message, about it.
pub record Published (before after : WriteDb) (id : String) : Type 0 where
  pub saga : Saga
  pub row : OutboxRow
  pub stored : find_saga id after.sagas ≡ some saga
  pub sent : after.outbox ≡ append_outbox row before.outbox
  pub keyed : row.key ≡ id
  pub about : row.payload.order_id ≡ id
  pub routed : topic_for_event_type row.payload.event_type ≡ some row.topic
  pub waiting : (row.claimed_at ≡ none) × (row.published_at ≡ none)
