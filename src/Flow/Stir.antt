-- ===== src/Flow/Stir.antt =====
-- What holds of an order on its way holds as well after deliveries that have failed.
use workers_kafka.Prelude.{ℕ, refl, String, arith}
use workers_kafka.Domain.{Event, Saga}
use workers_kafka.Tx.{World}
use workers_kafka.Tx.Steady.{calm}
use workers_kafka.Tx.Live.{live}
use workers_kafka.Flow.Attempts.{Stirred}
use workers_kafka.Flow.Journal.{Supply, Older}
use workers_kafka.Flow.Answers.{NewToWorkers}
use workers_kafka.Flow.Rounds.{InFlight, Answered}

module _ {G : Type 0} where
  pub live-Stirred : (w v : World G) → Stirred w v → Stirred w (live v)
  live-Stirred w v h = record {
    tables = h.tables;
    draws = record { fresh = h.draws.fresh; more = h.draws.more };
  }

  pub calm-Stirred : (w : World G) → Stirred (calm w) w
  calm-Stirred w = record { tables = refl; draws = record { fresh = refl; more = omega arith } }

  module _ (w v : World G) (h : Stirred w v) where
    pub Older-stirred : (i : String) → Older w i → Older v i
    Older-stirred i o = λ j le. rw h.draws.fresh (o j (omega (arith, le, h.draws.more)))

    pub Supply-stirred : Supply w → Supply v
    Supply-stirred u = record {
      distinct = rw h.draws.fresh u.distinct;
      unlogged =
          λ i c le. rw (h.tables, h.draws.fresh) (u.unlogged i c (omega (arith, le, h.draws.more)));
      unsent = λ i le. rw (h.tables, h.draws.fresh) (u.unsent i (omega (arith, le, h.draws.more)));
    }

    pub NewToWorkers-stirred : (e : Event) → NewToWorkers w e → NewToWorkers v e
    NewToWorkers-stirred e n = rw h.tables n

    module _ (max : ℕ) (s : Saga) (e : Event) where
      pub InFlight-stirred : InFlight max w s e → InFlight max v s e
      InFlight-stirred f = record {
        found = rw h.tables f.found;
        fine = f.fine;
        active = f.active;
        command = f.command;
        new = NewToWorkers-stirred e f.new;
        supply = Supply-stirred f.supply;
        older = Older-stirred e.event_id f.older;
      }

      pub Answered-stirred : Answered max w s e → Answered max v s e
      Answered-stirred a = record {
        found = rw h.tables a.found;
        fine = a.fine;
        active = a.active;
        expected = a.expected;
        valid = a.valid;
        unseen = rw h.tables a.unseen;
        supply = Supply-stirred a.supply;
        older = Older-stirred e.event_id a.older;
      }
