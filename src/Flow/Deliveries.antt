-- ===== src/Flow/Deliveries.antt =====
-- A command followed to its worker, and a result to the orchestrator, whatever database calls fail on the
-- deliveries before the last.
use workers_kafka.Prelude.{
  ℕ, zero, suc, ◌≡◌, refl, sym, ap, subst, ◌∙◌, String, some-injective, some, true, false, List,
  Option, Bool, if◌then◌else◌,
}
use workers_kafka.Domain.{
  Event, EventType, OrderStatus, Saga, payment_result, payment_compensate_result, inventory_result,
  notification_result,
}
use workers_kafka.Errors.{ok}
use workers_kafka.Store.{OutboxRow, EventLogEntry, find_saga}
use workers_kafka.Topics.{topic_for_event_type, topic_order_status}
use workers_kafka.Tx.{World, Tx, with_tx}
use workers_kafka.Tx.Steady.{IsSteady, if-IsSteady, calm}
use workers_kafka.Tx.Live.{live}
use workers_kafka.Orchestrator.{
  start_order_tx, handle_result_tx, start_order, handle_result, handle_event,
}
use workers_kafka.Orchestrator.Rules.{expected_status_for_result, is_order_created}
use workers_kafka.Orchestrator.Refine.{handle_event-live}
use workers_kafka.Orchestrator.Steady.{start_order_tx-IsSteady, handle_result_tx-IsSteady}
use workers_kafka.Orchestrator.Spec.{Message, perform, effect, wrote}
use workers_kafka.Orchestrator.Steps.{is_terminal}
use workers_kafka.Flow.{
  Service, orchestrator, Gateways, last_row, serve, visit, follow, subscriber, attempt,
}
use workers_kafka.Flow.Attempts.{Stirred, Handled, attempt-Handled}
use workers_kafka.Flow.Rounds.{InFlight, Answered, after_writing}

-- The saga of an order is in a terminal status, which the last message of the outbox announces.
pub record Finished {G : Type 0} (w : World G) (order_id : String) : Type 0 where
  pub saga : Saga
  pub found : find_saga order_id w.db.sagas ≡ some saga
  pub terminal : is_terminal saga.current ≡ true
  pub row : OutboxRow
  pub last : last_row w.db.outbox ≡ some row
  pub announced : row.topic ≡ topic_order_status
  pub status : row.payload.status_atual ≡ saga.current
  pub order : row.payload.order_id ≡ order_id

module _ {G : Type 0} (max : ℕ) where
  -- A command on its way to its worker.
  pub record Waits (w : World G) (topic order_id : String) (s : Saga) (e : Event) : Type 0 where
    pub flight : InFlight max w s e
    pub sent : topic_for_event_type e.event_type ≡ some topic
    pub order : e.order_id ≡ order_id

  -- A result on its way to the orchestrator.
  pub record Returns (w : World G) (topic order_id : String) (s : Saga) (e : Event) : Type 0 where
    pub answered : Answered max w s e
    pub sent : topic_for_event_type e.event_type ≡ some topic
    pub order : e.order_id ≡ order_id

module _ {G : Type 0} (gateways : Gateways G) (max : ℕ) (schedule : ℕ → List (Option ℕ)) where
  pub follow-step :
      (n : ℕ) (topic : String) (e : Event) (svc : Service) (row : OutboxRow) (w : World G)
      → subscriber topic ≡ some svc
      → last_row (attempt (serve gateways max svc e) (schedule n) w).db.outbox ≡ some row
      → follow gateways max schedule (suc n) topic e w
        ≡ follow gateways max schedule n row.topic row.payload
            (attempt (serve gateways max svc e) (schedule n) w)
  unfolding follow visit
  follow-step n topic e svc row w r l = rw (r, l) refl

  pub follow-stop :
      (n : ℕ) (topic : String) (e : Event) (w : World G)
      → topic ≡ topic_order_status
      → follow gateways max schedule n topic e w ≡ w
  unfolding follow visit subscriber
  follow-stop zero topic e w h = refl
  follow-stop (suc n) topic e w h = rw h refl

  pub result_topic :
      (t : EventType) (topic : String) (st : OrderStatus)
      → expected_status_for_result t ≡ ok st
      → topic_for_event_type t ≡ some topic
      → subscriber topic ≡ some orchestrator
  unfolding expected_status_for_result topic_for_event_type subscriber
  result_topic payment_result topic st x h =
      subst (λ (x : String). subscriber x ≡ some orchestrator) (some-injective _ _ h) refl
  result_topic payment_compensate_result topic st x h =
      subst (λ (x : String). subscriber x ≡ some orchestrator) (some-injective _ _ h) refl
  result_topic inventory_result topic st x h =
      subst (λ (x : String). subscriber x ≡ some orchestrator) (some-injective _ _ h) refl
  result_topic notification_result topic st x h =
      subst (λ (x : String). subscriber x ≡ some orchestrator) (some-injective _ _ h) refl
  result_topic _ topic st x h = cc

  event_block : Event → Tx G (Unit {0})
  event_block e = if is_order_created e.event_type then start_order_tx e else handle_result_tx max e

  event_block-IsSteady : (e : Event) → IsSteady (event_block e)
  unfolding event_block
  event_block-IsSteady e =
      if-IsSteady (is_order_created e.event_type) _ _ (start_order_tx-IsSteady e)
        (handle_result_tx-IsSteady max e)

  choice_in_tx :
      (b : Bool) (x y : Tx G (Unit {0})) (v : World G)
      → (if b then with_tx x else with_tx y) v ≡ with_tx (if b then x else y) v
  choice_in_tx true x y v = refl
  choice_in_tx false x y v = refl

  serve_in_tx :
      (e : Event) (v : World G) → serve gateways max orchestrator e v ≡ with_tx (event_block e) v
  unfolding serve handle_event start_order handle_result event_block
  serve_in_tx e v =
      choice_in_tx (is_order_created e.event_type) (start_order_tx e) (handle_result_tx max e) v

  -- The orchestrator has taken a message, with the decision of the table, in a stirred world.
  pub orchestrator-Handled :
      (fs : List (Option ℕ)) (w : World G) (e : Event) (entry : EventLogEntry) (s : Saga)
      (m : Message)
      → ((v : World G) → Stirred w v → effect max v.db e ≡ wrote entry s m)
      → Handled w
          (attempt (serve gateways max orchestrator e) fs w)
          (λ v st. after_writing (live v) entry s m)
  orchestrator-Handled fs w e entry s m gives =
      attempt-Handled (serve gateways max orchestrator e) (event_block e) (event_block-IsSteady e)
        (serve_in_tx e) fs w (λ v st. after_writing (live v) entry s m)
        (λ v st.
          unfold serve after_writing in
          handle_event-live max v e ∙ ap (perform (live v)) (gives v st) ∙ (unfold perform in refl))

  -- A row that the world after a delivery shows as its last.
  abbrev pub Last : World G → String → Event → Type 0
  Last w topic e =
      (row : OutboxRow) × (last_row w.db.outbox ≡ some row)
      × (row.topic ≡ topic)
      × (row.payload ≡ e)

  pub calm-Last :
      (w after : World G) (topic : String) (e : Event)
      → calm w ≡ after
      → Last after topic e
      → Last w topic e
  calm-Last w after topic e same l = subst (λ (x : World G). Last x topic e) (sym same) l

  pub follow-Last :
      (n : ℕ) (topic next : String) (e e' : Event) (svc : Service) (w : World G)
      → subscriber topic ≡ some svc
      → Last (attempt (serve gateways max svc e) (schedule n) w) next e'
      → follow gateways max schedule (suc n) topic e w
        ≡ follow gateways max schedule n next e' (attempt (serve gateways max svc e) (schedule n) w)
  follow-Last n topic next e e' svc w r (row, last, at, holds) =
      follow-step n topic e svc row w r last ∙ rw (at, holds) refl
