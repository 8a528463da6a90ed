-- ===== src/Relay/Updates.antt =====
-- The rows of the outbox before and after an update, and the rows with one of the ids.
use workers_kafka.Prelude.{
  ℕ, ◌≡◌, refl, ◌⊎◌, inl, inr, List, [], ◌∷◌, In, first, later, some, Bool, true, false, arith,
  Bool-cases, ◌==◌, if◌then◌else◌,
}
use workers_kafka.Store.{OutboxRow}
use workers_kafka.Relay.{
  is_pending, set_claimed, set_published, has_id, ids_of, rows_with, message_of, messages_of,
}

-- A row as an update found it.
pub record Before (l : List OutboxRow) (ids : List ℕ) (r : OutboxRow) : Type 0 where
  pub row : OutboxRow
  pub there : In row l
  pub message : message_of row ≡ message_of r
  pub marked : (is_pending row ≡ is_pending r) ⊎ (has_id row.id ids ≡ true)

later_Before :
    (x : OutboxRow) (l : List OutboxRow) (ids : List ℕ) (r : OutboxRow)
    → Before l ids r
    → Before (x ∷ l) ids r
later_Before x l ids r b = record {
  row = b.row;
  there = later b.there;
  message = b.message;
  marked = b.marked;
}

module _ (now : ℕ) (ids : List ℕ) where
  head-claimed :
      (x : OutboxRow) (l : List OutboxRow) (b : Bool)
      → Before (x ∷ l) [] (if b then record x { claimed_at = some now } else x)
  unfolding message_of
  head-claimed x l true = record { row = x; there = first; message = refl; marked = inl refl }
  head-claimed x l false = record { row = x; there = first; message = refl; marked = inl refl }

  pub claimed-Before :
      (l : List OutboxRow) (r : OutboxRow) → In r (set_claimed now ids l) → Before l [] r
  unfolding set_claimed
  claimed-Before [] r i = elim i [ ]
  claimed-Before (x ∷ l) _ first = head-claimed x l (has_id x.id ids)
  claimed-Before (x ∷ l) r (later i) = later_Before x l [] r (claimed-Before l r i)

  head-published :
      (x : OutboxRow) (l : List OutboxRow) (b : Bool)
      → has_id x.id ids ≡ b
      → Before (x ∷ l) ids (if b then record x { published_at = some now } else x)
  unfolding message_of
  head-published x l true h = record { row = x; there = first; message = refl; marked = inr h }
  head-published x l false h = record { row = x; there = first; message = refl; marked = inl refl }

  pub published-Before :
      (l : List OutboxRow) (r : OutboxRow) → In r (set_published now ids l) → Before l ids r
  unfolding set_published
  published-Before [] r i = elim i [ ]
  published-Before (x ∷ l) _ first = head-published x l (has_id x.id ids) refl
  published-Before (x ∷ l) r (later i) = later_Before x l ids r (published-Before l r i)

pub In-rows_with :
    (ids : List ℕ) (l : List OutboxRow) (r : OutboxRow)
    → In r l
    → has_id r.id ids ≡ true
    → In r (rows_with ids l)
unfolding rows_with
In-rows_with ids [] r i h = elim i [ ]
In-rows_with ids (x ∷ l) _ first h = rw h first
In-rows_with ids (x ∷ l) r (later i) h = elim (Bool-cases (has_id x.id ids)) [
  | inl y ↦ rw y (later (In-rows_with ids l r i h))
  | inr n ↦ rw n (In-rows_with ids l r i h)
]

head-has_id :
    (ids : List ℕ) (x r : OutboxRow) (found : List OutboxRow) (b : Bool)
    → has_id x.id ids ≡ b
    → (In r found → has_id r.id ids ≡ true)
    → In r (if b then x ∷ found else found)
    → has_id r.id ids ≡ true
head-has_id ids x _ found true h f first = h
head-has_id ids x r found true h f (later i) = f i
head-has_id ids x r found false h f i = f i

pub rows_with-has_id :
    (ids : List ℕ) (l : List OutboxRow) (r : OutboxRow)
    → In r (rows_with ids l)
    → has_id r.id ids ≡ true
unfolding rows_with
rows_with-has_id ids [] r i = elim i [ ]
rows_with-has_id ids (x ∷ l) r i =
    head-has_id ids x r (rows_with ids l) (has_id x.id ids) refl (rows_with-has_id ids l r) i

pub has_id-ids_of :
    (i : ℕ) (l : List OutboxRow)
    → has_id i (ids_of l) ≡ true
    → (r : OutboxRow) × In r l × (r.id ≡ i)
unfolding has_id ids_of
has_id-ids_of i [] h = cc
has_id-ids_of i (x ∷ l) h = elim (Bool-cases (i == x.id)) [
  | inl y ↦ (x, first, ground (arith, y))
  | inr n ↦ let (r, at, same) = has_id-ids_of i l (rw n at h) in (r, later at, same)
]

pub In-messages_of :
    (l : List OutboxRow) (r : OutboxRow) → In r l → In (message_of r) (messages_of l)
unfolding messages_of
In-messages_of [] r i = elim i [ ]
In-messages_of (x ∷ l) _ first = first
In-messages_of (x ∷ l) r (later i) = later (In-messages_of l r i)
