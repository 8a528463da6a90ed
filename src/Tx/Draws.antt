-- ===== src/Tx/Draws.antt =====
-- What every action does with the generator of ids: it draws from it, and never resets it.
use workers_kafka.Prelude.{
  ℕ, zero, suc, ◌≤◌, ◌≡◌, refl, ◌∙◌, Option, none, some, arith, Bool, true, false, if◌then◌else◌,
}
use workers_kafka.Errors.{Result}
use workers_kafka.Store.{WriteDb}
use workers_kafka.Tx.{World, run_statement}

-- The world `w'` comes after `w`.
pub record Draws {G : Type 0} (w w' : World G) : Type 0 where
  pub fresh : w'.fresh ≡ w.fresh
  pub more : w.drawn ≤ w'.drawn

module _ {G : Type 0} where
  pub Draws-refl : (w : World G) → Draws w w
  Draws-refl w = record { fresh = refl; more = omega arith }

  pub Draws-trans : (u v w : World G) → Draws u v → Draws v w → Draws u w
  Draws-trans u v w a b = record { fresh = b.fresh ∙ a.fresh; more = omega (arith, a.more, b.more) }

  pub run_statement-Draws :
      {A : Type 0} (o : Option ℕ) (a : A) (db : WriteDb) (w : World G)
      → Draws w (run_statement o a db w).1
  unfolding run_statement
  run_statement-Draws none a db w = record { fresh = refl; more = omega arith }
  run_statement-Draws (some zero) a db w = record { fresh = refl; more = omega arith }
  run_statement-Draws (some (suc n)) a db w = record { fresh = refl; more = omega arith }

  pub if-Draws :
      {A : Type 0} (b : Bool) (w : World G) (m n : Result A × World G)
      → Draws w m.1
      → Draws w n.1
      → Draws w (if b then m else n).1
  if-Draws true w m n h k = h
  if-Draws false w m n h k = k
