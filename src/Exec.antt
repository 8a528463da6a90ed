-- ===== src/Exec.antt =====
-- Actions on a state `S` that may return an error. What an action wrote before it failed stays
-- written until something undoes it, so the state comes back beside the error too.
use workers_kafka.Prelude.{Bool, true, false}
use workers_kafka.Errors.{Error, Result, ok, err}

abbrev pub Exec : Type 0 → Type 0 → Type 0
Exec S A = S → Result A × S

module _ {S A : Type 0} where
  abbrev pub pure : A → Exec S A
  pure a s = (ok a, s)

  abbrev pub throw : Error → Exec S A
  throw e s = (err e, s)

-- Reads from the state.
abbrev pub asks : {S A : Type 0} → (S → A) → Exec S A
asks f s = (ok (f s), s)

module _ {S A B : Type 0} where
  abbrev pub continue : (A → Exec S B) → Result A → S → Result B × S
  continue f (ok a) s = f a s
  continue f (err e) s = (err e, s)

  infixl 10 ◌>>=◌
  unfoldable pub ◌>>=◌ : Exec S A → (A → Exec S B) → Exec S B
  ◌>>=◌ m f s = let (r, s') = m s in continue f r s'

infixl 10 ◌>>◌
abbrev pub ◌>>◌ : {S B : Type 0} → Exec S (Unit {0}) → Exec S B → Exec S B
m >> n = m >>= λ _. n

-- An early `return err` guarded by a test.
abbrev pub throw_if : {S : Type 0} → Bool → Error → Exec S (Unit {0})
throw_if true e = throw e
throw_if false e = pure tt

-- A call that touches no state.
abbrev pub lift : {S A : Type 0} → Result A → Exec S A
lift r s = (r, s)
