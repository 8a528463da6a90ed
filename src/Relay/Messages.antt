-- ===== src/Relay/Messages.antt =====
-- The messages of the rows of the outbox after a cycle of the relay, a purge and a new row.
use workers_kafka.Prelude.{
  ℕ, ◌≡◌, refl, ap, ◌⊎◌, inl, inr, List, [], ◌∷◌, ◌++◌, In, first, later, Option, none, some, true,
  false, Bool-cases,
}
use workers_kafka.Store.{OutboxRow}
use workers_kafka.Relay.{is_pending, is_old, message_of, purge_published}
use workers_kafka.Relay.Rows.{bare, bare_rows}

-- A row with the same message.
abbrev pub There : List OutboxRow → OutboxRow → Type 0
There l r = (q : OutboxRow) × In q l × (message_of q ≡ message_of r)

bare-message : (q r : OutboxRow) → bare q ≡ bare r → message_of q ≡ message_of r
unfolding message_of
bare-message q r h = ap message_of h

pub same_messages :
    (l l' : List OutboxRow) (r : OutboxRow) → bare_rows l' ≡ bare_rows l → In r l → There l' r
same_messages [] l' r h i = elim i [ ]
same_messages (x ∷ l) [] r h i = cc
same_messages (x ∷ l) (y ∷ l') _ h first = (y, first, bare-message y x (cc h))
same_messages (x ∷ l) (y ∷ l') r h (later i) =
    let (q, at, same) = same_messages l l' r (cc h) i in (q, later at, same)

old_sent :
    (now age : ℕ) (r : OutboxRow) (p : Option ℕ)
    → r.published_at ≡ p
    → is_old now age r ≡ true
    → is_pending r ≡ false
old_sent now age r none h old = cc (rw h at old)
old_sent now age r (some p) h old = rw h refl

pub purge-In :
    (now age : ℕ) (l : List OutboxRow) (r : OutboxRow)
    → In r l
    → In r (purge_published now age l) ⊎ (is_pending r ≡ false)
unfolding purge_published
purge-In now age [] r i = elim i [ ]
purge-In now age (x ∷ l) _ first = elim (Bool-cases (is_old now age x)) [
  | inl old ↦ inr (old_sent now age x x.published_at refl old)
  | inr new ↦ inl (rw new first)
]
purge-In now age (x ∷ l) r (later i) = elim (purge-In now age l r i) [
  | inl at ↦ elim (Bool-cases (is_old now age x)) [
    | inl old ↦ inl (rw old at)
    | inr new ↦ inl (rw new (later at))
  ]
  | inr p ↦ inr p
]

In-tail :
    (x : OutboxRow) (l k : List OutboxRow) (r : OutboxRow)
    → (In r k → In r l)
    → In r (x ∷ k)
    → In r (x ∷ l)
In-tail x l k _ f first = first
In-tail x l k r f (later i) = later (f i)

pub In-purge :
    (now age : ℕ) (l : List OutboxRow) (r : OutboxRow) → In r (purge_published now age l) → In r l
unfolding purge_published
In-purge now age [] r i = elim i [ ]
In-purge now age (x ∷ l) r i = elim (Bool-cases (is_old now age x)) [
  | inl old ↦ later (In-purge now age l r (rw old at i))
  | inr new ↦ In-tail x l (purge_published now age l) r (In-purge now age l r) (rw new at i)
]

pub In-cases :
    (q : OutboxRow) (l : List OutboxRow) (r : OutboxRow) → In r (l ++ (q ∷ [])) → In r l ⊎ (r ≡ q)
In-cases q [] _ first = inr refl
In-cases q [] r (later i) = elim i [ ]
In-cases q (x ∷ l) _ first = inl first
In-cases q (x ∷ l) r (later i) = elim (In-cases q l r i) [
  | inl at ↦ inl (later at)
  | inr same ↦ inr same
]
