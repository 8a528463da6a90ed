-- ===== src/Flow/ToWorker.antt =====
-- A command followed to its worker.
use workers_kafka.Prelude.{
  ℕ, suc, ◌≡◌, refl, sym, ap, subst, ◌∙◌, String, some-injective, some, true, List, Option,
}
use workers_kafka.Domain.{Event, Saga}
use workers_kafka.Errors.{ok}
use workers_kafka.Tx.{World}
use workers_kafka.Tx.Draws.{Draws-refl}
use workers_kafka.Tx.Steady.{calm}
use workers_kafka.Tx.Live.{live}
use workers_kafka.Worker.Reports.{served}
use workers_kafka.Flow.{Service, Gateways, serve, follow, subscriber, attempt}
use workers_kafka.Flow.Deliveries.{Waits, Returns, calm-Last, follow-Last}
use workers_kafka.Flow.Attempts.{Stirred, Handled, attempt-Handled}
use workers_kafka.Flow.Stir.{live-Stirred, calm-Stirred, InFlight-stirred, Answered-stirred}
use workers_kafka.Domain.{OrderStatus}
use workers_kafka.Flow.Decisions.{on_track, granted}
use workers_kafka.Flow.Answers.{Answer, Approving, command-Answer}
use workers_kafka.Flow.Rounds.{InFlight, Answered, worker-Answered, served-last}

module _ {G : Type 0} (gateways : Gateways G) (max : ℕ) (schedule : ℕ → List (Option ℕ)) where
  -- The worker has answered.
  pub record Served (n : ℕ) (w : World G) (topic order_id : String) (s : Saga) (e : Event)
      : Type 0 where
    pub world : World G
    pub back : String
    pub result : Event
    pub runs :
        follow gateways max schedule (suc n) topic e w
        ≡ follow gateways max schedule n back result world
    pub returns : Returns max world back order_id s result
    pub grants :
        Approving gateways → on_track s.current ≡ true → result.status_atual ≡ granted s.current

  module _ (n : ℕ) (w : World G) (topic k : String) (s : Saga) (e : Event)
      (h : Waits max w topic k s e) where
    flight_at : (v : World G) → Stirred w v → InFlight max (live v) s e
    flight_at v st = InFlight-stirred w (live v) (live-Stirred w v st) max s e h.flight

    answer_at : (v : World G) → Stirred w v → Answer gateways max (live v) e
    answer_at v st =
        let f = flight_at v st in
        command-Answer gateways max (live v) e f.new s f.fine f.active f.command

    same : Stirred w w
    same = record { tables = refl; draws = Draws-refl w }

    answer-reached :
        (a : World G) (st : Stirred w a) → subscriber topic ≡ some (answer_at a st).worker
    answer-reached v st =
        let a = answer_at v st in
        ap subscriber (some-injective _ _ (sym h.sent ∙ a.asks)) ∙ a.reached

    after_answer : (v : World G) → Stirred w v → World G
    after_answer v st =
        let a = answer_at v st in
        record (live v) {
          db = served a.name v.traceparent e a.request a.response a.topic a.result v.db;
          gateway = a.after;
          drawn = suc v.drawn;
        }

    answer-gives :
        (v : World G) (st : Stirred w v)
        → serve gateways max (answer_at w same).worker e (live v) ≡ (ok tt, after_answer v st)
    unfolding after_answer
    answer-gives v st =
        let a = answer_at v st in
        ap (λ (x : Service). serve gateways max x e (live v))
          (some-injective _ _ (sym (answer-reached w same) ∙ answer-reached v st))
        ∙ a.in_tx (live v)
        ∙ a.runs

    abbrev answered : World G
    answered = attempt (serve gateways max (answer_at w same).worker e) (schedule n) w

    worker-Handled : Handled w answered after_answer
    worker-Handled =
        let a = answer_at w same in
        attempt-Handled (serve gateways max a.worker e) a.block a.steady a.in_tx (schedule n) w
          after_answer answer-gives

    pub serves : Served n w topic k s e
    unfolding after_answer
    serves =
        let d = worker-Handled in
        let a = answer_at d.from d.stirred in
        let f = flight_at d.from d.stirred in
        record {
          world = answered;
          back = a.topic;
          result = a.result;
          runs =
              follow-Last gateways max schedule n topic a.topic e a.result (answer_at w same).worker
                w (answer-reached w same)
                (calm-Last gateways max schedule answered (after_answer d.from d.stirred) a.topic
                  a.result d.same
                  (served-last (live d.from) f.supply a.name e a.request a.response a.topic a.result
                    a.id));
          returns = record {
            answered =
                Answered-stirred (calm answered) answered (calm-Stirred answered) max s a.result (
                  subst (λ (x : World G). Answered max x s a.result) (sym d.same)
                    (worker-Answered gateways max (live d.from) s e f a));
            sent = a.routed;
            order = a.accepts.same_order ∙ h.order;
          };
          grants = λ ap_all o.
              subst (λ (st : OrderStatus). a.result.status_atual ≡ granted st) f.command.shown
                (a.grants ap_all
                  (subst (λ (st : OrderStatus). on_track st ≡ true) (sym f.command.shown) o));
        }
