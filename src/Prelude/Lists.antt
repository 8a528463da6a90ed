-- ===== src/Prelude/Lists.antt =====
-- Lists measured by native numbers.
use Prim.Native.Nat.{ℕ, suc, ◌+◌}
use mathlib.Core.Path.{◌≡◌, refl, ap}
use mathlib.Core.List.{List, [], ◌∷◌, ◌++◌}
use native.Mathlib.Omega.{arith}

module _ {ℓ} {A : Type ℓ} where
  abbrev pub length : List A → ℕ
  length [] = 0
  length (x ∷ xs) = suc (length xs)

  pub length-append : (xs ys : List A) → length (xs ++ ys) ≡ length xs + length ys
  length-append [] ys = omega arith
  length-append (x ∷ xs) ys = omega (arith, length-append xs ys)

-- A list has an element.
pub data In {ℓ} {A : Type ℓ} (x : A) : List A → Type ℓ where
  first : {l : List A} → In x (x ∷ l)
  later : {y : A} {l : List A} → In x l → In x (y ∷ l)

module _ {ℓ} {A : Type ℓ} where
  pub In-nil : (x : A) (l : List A) → In x [] → In x l
  In-nil x l i = elim i [ ]

  pub In-++_left : (x : A) (a b : List A) → In x a → In x (a ++ b)
  In-++_left x _ b first = first
  In-++_left x _ b (later i) = later (In-++_left x _ b i)

  pub In-++_right : (x : A) (a b : List A) → In x b → In x (a ++ b)
  In-++_right x [] b i = i
  In-++_right x (y ∷ a) b i = later (In-++_right x a b i)

  pub append_nil : (l : List A) → l ++ [] ≡ l
  append_nil [] = refl
  append_nil (x ∷ l) = ap (λ r. x ∷ r) (append_nil l)

  pub append_assoc : (a b c : List A) → (a ++ b) ++ c ≡ a ++ (b ++ c)
  append_assoc [] b c = refl
  append_assoc (x ∷ a) b c = ap (λ r. x ∷ r) (append_assoc a b c)
