-- ===== src/Flow/Journal.antt =====
-- The journal and the outbox after a write, and ids that neither shows.
use workers_kafka.Prelude.{
  ℕ, suc, ◌≤◌, ◌≡◌, ◌≢◌, refl, String, List, [], ◌∷◌, some, Bool, true, false, ◌&&◌, arith, str_eq,
  eq_iff, if◌then◌else◌, Bool-cases, inl, inr,
}
use workers_kafka.Store.{
  EventLogEntry, OutboxRow, has_event, append_entry, append_outbox, same_entry,
}
use workers_kafka.Tx.{World}
use workers_kafka.Flow.{last_row}

else_false :
    (b x y : Bool)
    → (if b then true else x) ≡ false
    → (x ≡ false → y ≡ false)
    → (if b then true else y) ≡ false
else_false true x y h f = h
else_false false x y h f = f h

-- An entry of another id or another component is not taken for one that is not there.
pub has_event-append_other :
    (i c : String) (e : EventLogEntry) (l : List EventLogEntry)
    → has_event i c l ≡ false
    → (str_eq e.event_id i && str_eq e.component c) ≡ false
    → has_event i c (append_entry e l) ≡ false
unfolding has_event append_entry
has_event-append_other i c e [] h n = ground (arith, n)
has_event-append_other i c e (d ∷ l) h n = elim (Bool-cases (same_entry d e)) [
  | inl same ↦ rw same h
  | inr new ↦ rw new (else_false _ _ _ h (λ rest. has_event-append_other i c e l rest n))
]

unfoldable pub has_row : String → List OutboxRow → Bool
has_row i [] = false
has_row i (r ∷ rest) = if str_eq r.event_id i then true else has_row i rest

pub last_row-append :
    (r : OutboxRow) (l : List OutboxRow)
    → has_row r.event_id l ≡ false
    → last_row (append_outbox r l) ≡ some r
unfolding last_row append_outbox has_row
last_row-append r [] h = refl
last_row-append r (q ∷ []) h = ground (arith, h)
last_row-append r (q ∷ p ∷ l) h = ground (arith, h, last_row-append r (p ∷ l))

pub has_row-append_other :
    (i : String) (r : OutboxRow) (l : List OutboxRow)
    → has_row i l ≡ false
    → r.event_id ≢ i
    → has_row i (append_outbox r l) ≡ false
unfolding append_outbox has_row
has_row-append_other i r [] h n = ground (arith, eq_iff r.event_id i, n)
has_row-append_other i r (q ∷ l) h n =
    ground (arith, h, eq_iff r.event_id i, n, has_row-append_other i r l)

pub apart_id : (a i : String) (b : Bool) → a ≢ i → (str_eq a i && b) ≡ false
apart_id a i b n = ground (arith, eq_iff a i, n)

pub apart_component : (b : Bool) (n c : String) → str_eq n c ≡ false → (b && str_eq n c) ≡ false
apart_component b n c h = ground (arith, h)

-- The ids that are still to be drawn are distinct, and no table shows one.
pub record Supply {G : Type 0} (w : World G) : Type 0 where
  pub distinct : (i j : ℕ) → w.fresh i ≡ w.fresh j → i ≡ j
  pub unlogged : (i : ℕ) (c : String) → w.drawn ≤ i → has_event (w.fresh i) c w.db.journal ≡ false
  pub unsent : (i : ℕ) → w.drawn ≤ i → has_row (w.fresh i) w.db.outbox ≡ false

-- The id is none of those still to be drawn.
abbrev pub Older : {G : Type 0} → World G → String → Type 0
Older w id = (i : ℕ) → w.drawn ≤ i → id ≢ w.fresh i

pub drawn-Older :
    {G : Type 0} (w : World G) (i : ℕ) → Supply w → suc w.drawn ≤ i → w.fresh w.drawn ≢ w.fresh i
drawn-Older w i u h e = omega (arith, u.distinct w.drawn i e, h)

pub other_name : (n c : String) → str_eq c n ≡ false → str_eq n c ≡ false
other_name n c h = ground (arith, h, eq_iff n c, eq_iff c n)
