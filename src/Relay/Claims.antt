-- ===== src/Relay/Claims.antt =====
-- Rows of the outbox that are claimed, and what claims, marks and purges make of them: ClaimPending of
-- outbox_repository.go.
use workers_kafka.Prelude.{
  ℕ, zero, suc, ◌+◌, ◌≤◌, ◌≡◌, refl, subst, sym, List, [], ◌∷◌, ◌++◌, Option, none, some, Bool,
  true, false, arith, Bool-cases, inl, inr, not, ◌&&◌, ◌||◌, ◌==◌,
}
use workers_kafka.Store.{OutboxRow}
use workers_kafka.Relay.{
  is_pending, is_free, has_id, pick, set_claimed, set_published, purge_published,
}
use workers_kafka.Relay.Service.{claim_timeout}

-- No row with one of the ids can be claimed at the time `until`.
unfoldable pub all_held : List ℕ → ℕ → List OutboxRow → Bool
all_held ids until [] = true
all_held ids until (r ∷ l) =
    (not (has_id r.id ids) || not (is_pending r && is_free until claim_timeout r))
    && all_held ids until l

free_later :
    (r : OutboxRow) (c : Option ℕ) (t until : ℕ)
    → r.claimed_at ≡ c
    → t ≤ until
    → is_free t claim_timeout r ≡ true
    → is_free until claim_timeout r ≡ true
free_later r none t until h le f = rw h refl
free_later r (some c) t until h le f = rw h (ground (arith, le, rw h at f))

pub claimed-all_held :
    (ids : List ℕ) (now : ℕ) (l : List OutboxRow)
    → all_held ids (now + claim_timeout) (set_claimed now ids l) ≡ true
unfolding all_held set_claimed
claimed-all_held ids now [] = refl
claimed-all_held ids now (r ∷ l) = ground (arith, claimed-all_held ids now l)

not_held :
    (ids : List ℕ) (until t i : ℕ) (r : OutboxRow) (l : List OutboxRow)
    → all_held ids until (r ∷ l) ≡ true
    → t ≤ until
    → has_id i ids ≡ true
    → (is_pending r && is_free t claim_timeout r) ≡ true
    → (r.id == i) ≡ false
unfolding all_held
not_held ids until t i r l h le k taken = elim (Bool-cases (r.id == i)) [
  | inl same ↦
      let equal : r.id ≡ i = ground (arith, same) in
      let ours : has_id r.id ids ≡ true = subst (λ (j : ℕ). has_id j ids ≡ true) (sym equal) k in
      ground (arith, ours, h, taken, free_later r r.claimed_at t until refl le)
  | inr other ↦ other
]

pub pick-avoids :
    (ids : List ℕ) (until t limit i : ℕ) (locked : ℕ → Bool) (l : List OutboxRow)
    → all_held ids until l ≡ true
    → t ≤ until
    → has_id i ids ≡ true
    → has_id i (pick locked t claim_timeout limit l) ≡ false
unfolding all_held pick has_id
pick-avoids ids until t limit i locked [] h le k = refl
pick-avoids ids until t zero i locked (r ∷ l) h le k = refl
pick-avoids ids until t (suc n) i locked (r ∷ l) h le k =
    let rest : all_held ids until l ≡ true = ground (arith, h) in
    elim (Bool-cases (is_pending r && is_free t claim_timeout r && not (locked r.id))) [
      | inl taken ↦
          let free : (is_pending r && is_free t claim_timeout r) ≡ true = ground (arith, taken) in
          let other = not_held ids until t i r l h le k free in
          rw taken (ground (arith, other, pick-avoids ids until t n i locked l rest le k))
      | inr passed ↦ rw passed (pick-avoids ids until t (suc n) i locked l rest le k)
    ]

-- Ids of which none is one of ours.
abbrev pub Avoids : List ℕ → List ℕ → Type 0
Avoids ids js = (i : ℕ) → has_id i ids ≡ true → has_id i js ≡ false

pub claimed-held :
    (ids js : List ℕ) (until now : ℕ) (l : List OutboxRow)
    → Avoids ids js
    → all_held ids until l ≡ true
    → all_held ids until (set_claimed now js l) ≡ true
unfolding all_held set_claimed
claimed-held ids js until now [] a h = refl
claimed-held ids js until now (r ∷ l) a h =
    ground (arith, h, a r.id, claimed-held ids js until now l a)

pub published-held :
    (ids js : List ℕ) (until now : ℕ) (l : List OutboxRow)
    → all_held ids until l ≡ true
    → all_held ids until (set_published now js l) ≡ true
unfolding all_held set_published
published-held ids js until now [] h = refl
published-held ids js until now (r ∷ l) h = ground (arith, h, published-held ids js until now l)

pub purged-held :
    (ids : List ℕ) (until now age : ℕ) (l : List OutboxRow)
    → all_held ids until l ≡ true
    → all_held ids until (purge_published now age l) ≡ true
unfolding all_held purge_published
purged-held ids until now age [] h = refl
purged-held ids until now age (r ∷ l) h = ground (arith, h, purged-held ids until now age l)

pub added-held :
    (ids : List ℕ) (until : ℕ) (q : OutboxRow) (l : List OutboxRow)
    → has_id q.id ids ≡ false
    → all_held ids until l ≡ true
    → all_held ids until (l ++ (q ∷ [])) ≡ true
unfolding all_held
added-held ids until q [] n h = ground (arith, n)
added-held ids until q (r ∷ l) n h = ground (arith, h, added-held ids until q l n)
