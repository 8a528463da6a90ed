-- ===== src/Tx/Steady.antt =====
-- Runs of a handler with and without database faults, compared.
use workers_kafka.Prelude.{
  ℕ, zero, suc, String, ◌≡◌, refl, ◌⊎◌, inl, inr, Bool, true, false, Option, none, some,
  if◌then◌else◌, arith,
}
use workers_kafka.Domain.{Event, Saga}
use workers_kafka.Errors.{Error, Result, ok, err, database}
use workers_kafka.Exec.{pure, throw, lift, asks, continue, ◌>>=◌}
use workers_kafka.Store.{EventLogEntry, WriteDb, outbox_row}
use workers_kafka.Topics.{topic_for_event_type}
use workers_kafka.Tx.Draws.{Draws, Draws-refl, Draws-trans, run_statement-Draws, if-Draws}
use workers_kafka.Tx.{
  World, Tx, run_statement, exec_sql, query, new_event_id, save_saga, load_saga, append_event,
  has_processed, insert_outbox, publish, begin_tx, commit_tx, settle, with_tx,
}

abbrev pub calm : {G : Type 0} → World G → World G
calm w = record w { faults = none }

-- At `w` the action fails on the database, or does what it does without faults.
abbrev pub SameAt : {G A : Type 0} → Tx G A → World G → Type 0
SameAt m w = ((m w).0 ≡ err database) ⊎ (m (calm w) ≡ ((m w).0, calm (m w).1))

pub record IsSteady {G A : Type 0} (m : Tx G A) : Type 0 where
  pub at : (w : World G) → SameAt m w
  pub draws : (w : World G) → Draws w (m w).1

module _ {G A : Type 0} where
  statement-same :
      (o : Option ℕ) (a : A) (db : WriteDb) (w : World G)
      → (run_statement o a db w).0 ≡ err database
        ⊎ (run_statement none a db (calm w)
            ≡ ((run_statement o a db w).0, calm (run_statement o a db w).1))
  unfolding run_statement
  statement-same none a db w = inr refl
  statement-same (some zero) a db w = inl refl
  statement-same (some (suc n)) a db w = inr refl

  pub query-IsSteady : (f : WriteDb → A) → IsSteady {G = G} (query f)
  unfolding query
  query-IsSteady f = record {
    at = λ w. statement-same w.faults (f w.db) w.db w;
    draws = λ w. run_statement-Draws w.faults (f w.db) w.db w;
  }

  pub pure-IsSteady : (a : A) → IsSteady {G = G} (pure a)
  pure-IsSteady a = record { at = λ w. inr refl; draws = λ w. Draws-refl w }

  pub throw-IsSteady : (e : Error) → IsSteady {G = G} {A = A} (throw e)
  throw-IsSteady e = record { at = λ w. inr refl; draws = λ w. Draws-refl w }

  pub lift-IsSteady : (r : Result A) → IsSteady {G = G} (lift r)
  lift-IsSteady r = record { at = λ w. inr refl; draws = λ w. Draws-refl w }

  pub if-IsSteady :
      (b : Bool) (m n : Tx G A) → IsSteady m → IsSteady n → IsSteady (if b then m else n)
  if-IsSteady true m n hm hn = hm
  if-IsSteady false m n hm hn = hn

module _ {G A : Type 0} (m n : Tx G A) where
  journal-same :
      (b : Bool) (w : World G)
      → IsSteady m
      → IsSteady n
      → (if b then m w else n w).0 ≡ err database
        ⊎ ((if b then m (calm w) else n (calm w))
            ≡ ((if b then m w else n w).0, calm (if b then m w else n w).1))
  journal-same true w hm hn = hm.at w
  journal-same false w hm hn = hn.at w

  -- A choice by whether there is a journal.
  pub journaled-IsSteady :
      IsSteady m → IsSteady n → IsSteady (λ w. if w.journaled then m w else n w)
  journaled-IsSteady hm hn = record {
    at = λ w. journal-same w.journaled w hm hn;
    draws = λ w. if-Draws w.journaled w (m w) (n w) (hm.draws w) (hn.draws w);
  }

module _ {G A B : Type 0} where
  continue-same :
      (f : A → Tx G B)
      → ((a : A) → IsSteady (f a))
      → (r : Result A) (w : World G)
      → (continue f r w).0 ≡ err database
        ⊎ (continue f r (calm w) ≡ ((continue f r w).0, calm (continue f r w).1))
  continue-same f hf (ok a) w = (hf a).at w
  continue-same f hf (err e) w = inr refl

  bind-same :
      (m : Tx G A) (f : A → Tx G B)
      → ((a : A) → IsSteady (f a))
      → (w : World G) → SameAt m w
      → SameAt (m >>= f) w
  unfolding ◌>>=◌
  bind-same m f hf w (inl e) = inl (rw e refl)
  bind-same m f hf w (inr e) = rw e (continue-same f hf (m w).0 (m w).1)

  continue-Draws :
      (f : A → Tx G B)
      → ((a : A) → IsSteady (f a))
      → (r : Result A) (w : World G) → Draws w (continue f r w).1
  continue-Draws f hf (ok a) w = (hf a).draws w
  continue-Draws f hf (err e) w = Draws-refl w

  pub bind-IsSteady :
      (m : Tx G A) (f : A → Tx G B) → IsSteady m → ((a : A) → IsSteady (f a)) → IsSteady (m >>= f)
  unfolding ◌>>=◌
  bind-IsSteady m f hm hf = record {
    at = λ w. bind-same m f hf w (hm.at w);
    draws = λ w.
        Draws-trans w (m w).1 ((m >>= f) w).1 (hm.draws w) (continue-Draws f hf (m w).0 (m w).1);
  }

module _ {G : Type 0} where
  pub exec_sql-IsSteady : (f : WriteDb → WriteDb) → IsSteady {G = G} (exec_sql f)
  unfolding exec_sql
  exec_sql-IsSteady f = record {
    at = λ w. statement-same w.faults tt (f w.db) w;
    draws = λ w. run_statement-Draws w.faults tt (f w.db) w;
  }

  pub new_event_id-IsSteady : IsSteady {G = G} new_event_id
  unfolding new_event_id
  new_event_id-IsSteady = record {
    at = λ w. inr refl;
    draws = λ w. record { fresh = refl; more = omega arith };
  }

  pub now-IsSteady : IsSteady {G = G} (asks (λ w. w.clock w.drawn))
  now-IsSteady = record { at = λ w. inr refl; draws = λ w. Draws-refl w }

  pub save_saga-IsSteady : (s : Saga) → IsSteady {G = G} (save_saga s)
  unfolding save_saga
  save_saga-IsSteady s = exec_sql-IsSteady _

  pub load_saga-IsSteady : (k : String) → IsSteady {G = G} (load_saga k)
  unfolding load_saga
  load_saga-IsSteady k = query-IsSteady _

  pub append_event-IsSteady : (e : EventLogEntry) → IsSteady {G = G} (append_event e)
  unfolding append_event
  append_event-IsSteady e = exec_sql-IsSteady _

  pub has_processed-IsSteady : (i c : String) → IsSteady {G = G} (has_processed i c)
  unfolding has_processed
  has_processed-IsSteady i c = query-IsSteady _

  insert_outbox-IsSteady : (t : Option String) (e : Event) → IsSteady {G = G} (insert_outbox t e)
  unfolding insert_outbox
  insert_outbox-IsSteady none e = record { at = λ w. inr refl; draws = λ w. Draws-refl w }
  insert_outbox-IsSteady (some t) e = record {
    at = λ w. (exec_sql-IsSteady (outbox_row t w.traceparent e)).at w;
    draws = λ w. (exec_sql-IsSteady (outbox_row t w.traceparent e)).draws w;
  }

  pub publish-IsSteady : (e : Event) → IsSteady {G = G} (publish e)
  unfolding publish
  publish-IsSteady e = insert_outbox-IsSteady (topic_for_event_type e.event_type) e

  begin_tx-IsSteady : IsSteady {G = G} begin_tx
  unfolding begin_tx
  begin_tx-IsSteady = record {
    at = λ w. (exec_sql-IsSteady (λ db. db)).at (record w { journaled = true });
    draws = λ w. record {
      fresh = ((exec_sql-IsSteady (λ db. db)).draws (record w { journaled = true })).fresh;
      more = ((exec_sql-IsSteady (λ db. db)).draws (record w { journaled = true })).more;
    };
  }

  commit_tx-IsSteady : IsSteady {G = G} commit_tx
  unfolding commit_tx
  commit_tx-IsSteady = exec_sql-IsSteady _

  settle-calm :
      (w : World G) (r : Result (Unit {0})) (w' : World G)
      → settle (calm w) (r, calm w') ≡ ((settle w (r, w')).0, calm (settle w (r, w')).1)
  unfolding settle
  settle-calm w (ok tt) w' = refl
  settle-calm w (err e) w' = refl

  settle-database :
      (w : World G) (r : Result (Unit {0})) (w' : World G)
      → r ≡ err database
      → (settle w (r, w')).0 ≡ err database
  unfolding settle
  settle-database w (ok tt) w' e = e
  settle-database w (err x) w' e = e

  settle-same : (m : Tx G (Unit {0})) (w : World G) → SameAt m w → SameAt (λ v. settle v (m v)) w
  settle-same m w (inl e) = inl (settle-database w (m w).0 (m w).1 e)
  settle-same m w (inr e) = inr (rw e (settle-calm w (m w).0 (m w).1))

  settle-Draws :
      (w : World G) (r : Result (Unit {0})) (w' : World G)
      → Draws w w'
      → Draws w (settle w (r, w')).1
  unfolding settle
  settle-Draws w (ok tt) w' h = h
  settle-Draws w (err e) w' h = record { fresh = h.fresh; more = h.more }

  block-IsSteady :
      (fn : Tx G (Unit {0})) → IsSteady fn → IsSteady (begin_tx >>= λ _. (fn >>= λ _. commit_tx))
  block-IsSteady fn h =
      bind-IsSteady _ _ begin_tx-IsSteady (λ _. bind-IsSteady _ _ h (λ _. commit_tx-IsSteady))

  pub with_tx-IsSteady : (fn : Tx G (Unit {0})) → IsSteady fn → IsSteady (with_tx fn)
  unfolding with_tx
  with_tx-IsSteady fn h = record {
    at =
        λ w. settle-same (begin_tx >>= λ _. (fn >>= λ _. commit_tx)) w ((block-IsSteady fn h).at w);
    draws = λ w. settle-Draws w _ _ ((block-IsSteady fn h).draws w);
  }

pub ruleset steady_rules = (
  pure-IsSteady, throw-IsSteady, lift-IsSteady, if-IsSteady, bind-IsSteady, new_event_id-IsSteady,
  now-IsSteady, save_saga-IsSteady, load_saga-IsSteady, publish-IsSteady,
)
