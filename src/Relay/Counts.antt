-- ===== src/Relay/Counts.antt =====
-- The rows of the outbox that wait, counted over claims and marks.
use workers_kafka.Prelude.{
  ℕ, zero, suc, ◌-◌, ◌≤◌, ◌≡◌, refl, ap, inl, inr, List, [], ◌∷◌, In, first, later, some, Bool,
  true, false, arith, Bool-cases, ◌==◌, not, ◌||◌, ◌&&◌,
}
use workers_kafka.Store.{OutboxRow}
use workers_kafka.Relay.{
  mark_published, fetch_pending, is_pending, is_free, set_claimed, set_published, has_id, ids_of,
  pick, count_pending,
}

-- No row is locked by another relay.
abbrev pub no_locks : ℕ → Bool
no_locks i = false

-- Every row that waits can be claimed.
unfoldable pub all_free : ℕ → ℕ → List OutboxRow → Bool
all_free now timeout [] = true
all_free now timeout (r ∷ rest) =
    (not (is_pending r) || is_free now timeout r) && all_free now timeout rest

abbrev pub Covers : List ℕ → List ℕ → Type 0
Covers b a = (i : ℕ) → has_id i a ≡ true → has_id i b ≡ true

pub count_pending-claimed :
    (now at : ℕ) (ids js : List ℕ) (l : List OutboxRow)
    → count_pending (set_published now ids (set_claimed at js l))
      ≡ count_pending (set_published now ids l)
unfolding count_pending set_published set_claimed
count_pending-claimed now at ids js [] = refl
count_pending-claimed now at ids js (r ∷ l) = ground (arith, count_pending-claimed now at ids js l)

pub count_pending-Covers :
    (now : ℕ) (a b : List ℕ) (l : List OutboxRow)
    → Covers b a
    → count_pending (set_published now b l) ≤ count_pending (set_published now a l)
unfolding count_pending set_published
count_pending-Covers now a b [] h = omega arith
count_pending-Covers now a b (r ∷ l) h = ground (arith, h r.id, count_pending-Covers now a b l h)

count_pending-none :
    (now : ℕ) (l : List OutboxRow) → count_pending (set_published now [] l) ≡ count_pending l
unfolding count_pending set_published has_id
count_pending-none now [] = refl
count_pending-none now (r ∷ l) = ground (arith, count_pending-none now l)

pub published_none : (now : ℕ) (l : List OutboxRow) → set_published now [] l ≡ l
unfolding set_published has_id
published_none now [] = refl
published_none now (r ∷ l) = ap (λ (x : List OutboxRow). r ∷ x) (published_none now l)

has_id-later : (i j : ℕ) (l : List ℕ) → has_id i l ≡ true → has_id i (j ∷ l) ≡ true
unfolding has_id
has_id-later i j l h = ground (arith, h)

has_id-first : (i : ℕ) (l : List ℕ) → has_id i (i ∷ l) ≡ true
unfolding has_id
has_id-first i l = ground arith

-- What is picked covers the first rows that wait.
pub picked-counts :
    (now at timeout limit : ℕ) (l : List OutboxRow)
    → all_free now timeout l ≡ true
    → count_pending (set_published at (pick no_locks now timeout limit l) l)
      ≤ count_pending l - limit
unfolding all_free pick count_pending set_published
picked-counts now at timeout limit [] h = omega arith
picked-counts now at timeout zero (r ∷ l) h = omega (arith, count_pending-none at (r ∷ l))
picked-counts now at timeout (suc n) (r ∷ l) h = ground (
  arith,
  has_id-first r.id (pick no_locks now timeout n l),
  count_pending-Covers at (pick no_locks now timeout n l) (r.id ∷ pick no_locks now timeout n l) l
      (λ i. has_id-later i r.id (pick no_locks now timeout n l)),
  picked-counts now at timeout n l,
  picked-counts now at timeout (suc n) l,
  h,
)

-- The rows that wait after a cycle can be claimed again.
pub all_free-after :
    (now at timeout : ℕ) (a b : List ℕ) (l : List OutboxRow)
    → all_free now timeout l ≡ true
    → Covers b a
    → all_free now timeout (set_published at b (set_claimed at a l)) ≡ true
unfolding all_free set_published set_claimed
all_free-after now at timeout a b [] h c = refl
all_free-after now at timeout a b (r ∷ l) h c =
    ground (arith, h, c r.id, all_free-after now at timeout a b l)

pub all_free-later :
    (now timeout : ℕ) (l : List OutboxRow)
    → all_free now timeout l ≡ true
    → all_free (suc now) timeout l ≡ true
unfolding all_free
all_free-later now timeout [] h = refl
all_free-later now timeout (r ∷ l) h = ground (arith, h, all_free-later now timeout l)

pub pick-In :
    (now timeout limit i : ℕ) (l : List OutboxRow)
    → has_id i (pick no_locks now timeout limit l) ≡ true
    → (r : OutboxRow) × In r l × (r.id ≡ i)
unfolding pick has_id
pick-In now timeout limit i [] h = cc
pick-In now timeout zero i (r ∷ l) h = cc
pick-In now timeout (suc n) i (r ∷ l) h =
    elim (Bool-cases (is_pending r && is_free now timeout r && not false)) [
      | inl taken ↦ elim (Bool-cases (i == r.id)) [
        | inl same ↦ (r, first, ground (arith, same))
        | inr other ↦
            let (q, at, e) = pick-In now timeout n i l (rw (taken, other) at h) in (q, later at, e)
      ]
      | inr passed ↦
          let (q, at, e) = pick-In now timeout (suc n) i l (rw passed at h) in (q, later at, e)
    ]

pub In-set_claimed :
    (at : ℕ) (ids : List ℕ) (l : List OutboxRow) (r : OutboxRow)
    → In r l
    → (q : OutboxRow) × In q (set_claimed at ids l) × (q.id ≡ r.id)
unfolding set_claimed
In-set_claimed at ids [] r i = elim i [ ]
In-set_claimed at ids (x ∷ l) _ first = elim (Bool-cases (has_id x.id ids)) [
  | inl y ↦ (record x { claimed_at = some at }, rw y first, refl)
  | inr n ↦ (x, rw n first, refl)
]
In-set_claimed at ids (x ∷ l) r (later i) =
    let (q, there, same) = In-set_claimed at ids l r i in (q, later there, same)

pub In-ids_of : (l : List OutboxRow) (r : OutboxRow) → In r l → has_id r.id (ids_of l) ≡ true
unfolding ids_of
In-ids_of [] r i = elim i [ ]
In-ids_of (x ∷ l) _ first = has_id-first x.id (ids_of l)
In-ids_of (x ∷ l) r (later i) = has_id-later r.id x.id (ids_of l) (In-ids_of l r i)

-- With every waiting row free and none locked, a claim takes the rows that `FetchPending` returns.
pick-fetch_pending :
    (now timeout limit : ℕ) (l : List OutboxRow)
    → all_free now timeout l ≡ true
    → pick no_locks now timeout limit l ≡ ids_of (fetch_pending limit l)
unfolding pick fetch_pending ids_of all_free
pick-fetch_pending now timeout limit [] h = refl
pick-fetch_pending now timeout zero (r ∷ l) h = refl
pick-fetch_pending now timeout (suc n) (r ∷ l) h =
    ground (arith, h, pick-fetch_pending now timeout n l, pick-fetch_pending now timeout (suc n) l)

-- A batch of one row is marked as `MarkPublished` marks it.
set_published-one :
    (now id : ℕ) (l : List OutboxRow) → set_published now (id ∷ []) l ≡ mark_published now id l
unfolding set_published mark_published has_id
set_published-one now id [] = refl
set_published-one now id (r ∷ l) = ground (arith, set_published-one now id l)
