-- ===== src/Orchestrator/Handler.antt =====
-- What `HandleEvent` does to the tables, with faults of the database at any point.
use workers_kafka.Prelude.{ℕ, ◌≡◌, ap, sym, ◌∙◌, ◌⊎◌, inl, inr, Bool, true, false, if◌then◌else◌}
use workers_kafka.Domain.{Event}
use workers_kafka.Errors.{Error, err, database}
use workers_kafka.Tx.{World}
use workers_kafka.Tx.Steady.{SameAt, calm}
use workers_kafka.Tx.Live.{live, with_tx-journaled, with_tx_atomic}
use workers_kafka.Orchestrator.{
  start_order, handle_result, start_order_tx, handle_result_tx, handle_event,
}
use workers_kafka.Orchestrator.Rules.{is_order_created}
use workers_kafka.Orchestrator.Spec.{effect, perform}
use workers_kafka.Orchestrator.Steady.{handle_event-IsSteady}
use workers_kafka.Orchestrator.Refine.{handle_event-live}

module _ {G : Type 0} (max : ℕ) (e : Event) (w : World G) where
  either-journaled :
      (b : Bool)
      → (if b then start_order e else handle_result max e) (calm w)
        ≡ (if b then start_order e else handle_result max e) (live w)
  unfolding start_order handle_result
  either-journaled true = with_tx-journaled (start_order_tx e) w
  either-journaled false = with_tx-journaled (handle_result_tx max e) w

  handle_event-journaled : handle_event max e (calm w) ≡ handle_event max e (live w)
  unfolding handle_event
  handle_event-journaled = either-journaled (is_order_created e.event_type)

  either-atomic :
      (b : Bool) {x : Error}
      → ((if b then start_order e else handle_result max e) w).0 ≡ err x
      → ((if b then start_order e else handle_result max e) w).1.db ≡ w.db
  unfolding start_order handle_result
  either-atomic true h = with_tx_atomic (start_order_tx e) w h
  either-atomic false h = with_tx_atomic (handle_result_tx max e) w h

  -- An event whose handling returns an error leaves the saga, the journal and the outbox tables as
  -- they were.
  pub handle_event_atomic :
      {x : Error} → (handle_event max e w).0 ≡ err x → (handle_event max e w).1.db ≡ w.db
  unfolding handle_event
  handle_event_atomic h = either-atomic (is_order_created e.event_type) h

  outcome-cases :
      SameAt (handle_event max e) w
      → (((handle_event max e w).0 ≡ err database) × ((handle_event max e w).1.db ≡ w.db))
        ⊎ (((handle_event max e w).0 ≡ (perform (live w) (effect max w.db e)).0)
            × ((handle_event max e w).1.db ≡ (perform (live w) (effect max w.db e)).1.db))
  outcome-cases (inl h) = inl (h, handle_event_atomic h)
  outcome-cases (inr h) =
      let same = sym h ∙ handle_event-journaled ∙ handle_event-live max w e in
      inr (ap (λ o. o.0) same, ap (λ o. o.1.db) same)

  -- Whatever database calls fail: the handler returns the database error and changes no table, or
  -- its outcome and the tables are those of the specification.
  pub handle_event-refines :
      (((handle_event max e w).0 ≡ err database) × ((handle_event max e w).1.db ≡ w.db))
      ⊎ (((handle_event max e w).0 ≡ (perform (live w) (effect max w.db e)).0)
          × ((handle_event max e w).1.db ≡ (perform (live w) (effect max w.db e)).1.db))
  handle_event-refines = outcome-cases ((handle_event-IsSteady max e).at w)
