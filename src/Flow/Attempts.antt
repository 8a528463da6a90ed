-- ===== src/Flow/Attempts.antt =====
-- The deliveries of one message, of which all but the last may fail on the database.
use workers_kafka.Prelude.{ℕ, ◌≡◌, refl, sym, ap, ◌∙◌, inl, inr, List, [], ◌∷◌, Option, none}
use workers_kafka.Errors.{Error, Result, ok, err}
use workers_kafka.Tx.{World, Tx, with_tx}
use workers_kafka.Tx.Draws.{Draws, Draws-refl, Draws-trans}
use workers_kafka.Tx.Steady.{IsSteady, SameAt, calm, with_tx-IsSteady}
use workers_kafka.Tx.Live.{live, with_tx_atomic}
use workers_kafka.Flow.{attempt, with_faults}

-- A world in which failed deliveries have changed nothing but the gateway and the ids drawn.
pub record Stirred {G : Type 0} (w v : World G) : Type 0 where
  pub tables : v.db ≡ w.db
  pub draws : Draws w v

-- The deliveries come to one run with no fault, in a stirred world.
pub record Ran {G : Type 0} (handler : Tx G (Unit {0})) (w w' : World G) : Type 0 where
  pub from : World G
  pub stirred : Stirred w from
  pub run : handler (live from) ≡ (ok tt, calm w')

-- The handler returns no error in a stirred world without faults.
abbrev pub Succeeds : {G : Type 0} → Tx G (Unit {0}) → World G → Type 0
Succeeds handler w = (v : World _) → Stirred w v → (handler (live v)).0 ≡ ok tt

module _ {G : Type 0} (handler block : Tx G (Unit {0})) (steady : IsSteady block)
    (in_tx : (v : World G) → handler v ≡ with_tx block v) where
  Stirred-trans : (u v w : World G) → Stirred u v → Stirred v w → Stirred u w
  Stirred-trans u v w a b = record {
    tables = b.tables ∙ a.tables;
    draws = Draws-trans u v w a.draws b.draws;
  }

  failed-Stirred :
      (f : Option ℕ) (w : World G) {x : Error}
      → (handler (with_faults f w)).0 ≡ err x
      → Stirred w (handler (with_faults f w)).1
  failed-Stirred f w h =
      let same = in_tx (with_faults f w) in
      let d = (with_tx-IsSteady block steady).draws (with_faults f w) in
      record {
        tables =
            ap (λ (o : Result (Unit {0}) × World G). o.1.db) same
            ∙ with_tx_atomic block (with_faults f w)
                (sym (ap (λ (o : Result (Unit {0}) × World G). o.0) same) ∙ h);
        draws = rw same (record { fresh = d.fresh; more = d.more });
      }

  handler-same : (w : World G) → SameAt handler w
  handler-same w = rw (in_tx w, in_tx (calm w)) ((with_tx-IsSteady block steady).at w)

  calm_run :
      (f : Option ℕ) (w : World G)
      → (handler (live w)).0 ≡ ok tt
      → handler (live w) ≡ ((handler (with_faults f w)).0, calm (handler (with_faults f w)).1)
      → Ran handler w (handler (with_faults f w)).1 × ((handler (with_faults f w)).0 ≡ ok tt)
  calm_run f w fine e =
      let good : (handler (with_faults f w)).0 ≡ ok tt =
        sym (ap (λ (o : Result (Unit {0}) × World G). o.0) e) ∙ fine in
      (
        record {
          from = w;
          stirred = record { tables = refl; draws = Draws-refl w };
          run = e ∙ ap (λ (r : Result (Unit {0})). (r, calm (handler (with_faults f w)).1)) good;
        },
        good,
      )

  last-Ran : (w : World G) → Succeeds handler w → Ran handler w (handler (live w)).1
  last-Ran w s =
      let fine = s w (record { tables = refl; draws = Draws-refl w }) in
      elim (handler-same (live w)) [ inl e ↦ cc | inr e ↦ (calm_run none w fine e).0 ]

  later-Ran : (w u v : World G) → Stirred w u → Ran handler u v → Ran handler w v
  later-Ran w u v s r = record {
    from = r.from;
    stirred = Stirred-trans w u r.from s r.stirred;
    run = r.run;
  }

  -- However the deliveries before the last fail on the database, the message is handled once, by a run
  -- without faults.
  pub attempt-Ran :
      (fs : List (Option ℕ)) (w : World G)
      → Succeeds handler w
      → Ran handler w (attempt handler fs w)
  unfolding attempt
  attempt-Ran [] w s = last-Ran w s
  attempt-Ran (f ∷ fs) w s =
      let w' = (handler (with_faults f w)).1 in
      elim (handler-same (with_faults f w)) [
        | inl e ↦
            let stirred = failed-Stirred f w e in
            rw e (
              later-Ran w w' (attempt handler fs w') stirred
                (attempt-Ran fs w' (λ v t. s v (Stirred-trans w w' v stirred t))))
        | inr e ↦
            let (ran, good) =
              calm_run f w (s w (record { tables = refl; draws = Draws-refl w })) e in
            rw good ran
      ]

-- The message has been handled in a stirred world, and this is what is left.
pub record Handled {G : Type 0} (w w' : World G) (after : (v : World G) → Stirred w v → World G)
    : Type 0 where
  pub from : World G
  pub stirred : Stirred w from
  pub same : calm w' ≡ after from stirred

module _ {G : Type 0} (handler block : Tx G (Unit {0})) (steady : IsSteady block)
    (in_tx : (v : World G) → handler v ≡ with_tx block v) where
  -- A handler that runs in every stirred world without faults has run in one of them.
  pub attempt-Handled :
      (fs : List (Option ℕ)) (w : World G) (after : (v : World G) → Stirred w v → World G)
      → ((v : World G) (s : Stirred w v) → handler (live v) ≡ (ok tt, after v s))
      → Handled w (attempt handler fs w) after
  attempt-Handled fs w after gives =
      let r =
        attempt-Ran handler block steady in_tx fs w
          (λ v s. ap (λ (o : Result (Unit {0}) × World G). o.0) (gives v s)) in
      record {
        from = r.from;
        stirred = r.stirred;
        same = ap (λ (o : Result (Unit {0}) × World G). o.1) (sym r.run ∙ gives r.from r.stirred);
      }
