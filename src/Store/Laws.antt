-- ===== src/Store/Laws.antt =====
-- Lookups after writes.
use workers_kafka.Prelude.{
  String, ◌≡◌, ◌≢◌, ◌⊎◌, refl, sym, ap, ◌∙◌, List, [], ◌∷◌, some, Bool, true, false, arith, str_eq,
  eq_iff, if◌then◌else◌,
}
use workers_kafka.Domain.{Saga}
use workers_kafka.Store.{EventLogEntry, find_saga, upsert_saga, has_event, append_entry, same_entry}

-- The row of an order whose other columns have all been written is the saved saga.
updated-same :
    (s t : Saga)
    → t.order_id ≡ s.order_id
    → record t {
      current = s.current;
      previous = s.previous;
      retry_count = s.retry_count;
      transaction_id = s.transaction_id;
    }
      ≡ s
updated-same s t h = ap (λ (k : String). record s { order_id = k }) h

upsert_saga-first :
    (s t : Saga) (rest : List Saga) → t.order_id ≡ s.order_id → upsert_saga s (t ∷ rest) ≡ s ∷ rest
unfolding upsert_saga
upsert_saga-first s t rest h =
    rw ((eq_iff t.order_id s.order_id).1 h) (ap (λ (u : Saga). u ∷ rest) (updated-same s t h))

upsert_saga-later :
    (s t : Saga) (rest : List Saga)
    → str_eq t.order_id s.order_id ≡ false
    → upsert_saga s (t ∷ rest) ≡ t ∷ upsert_saga s rest
unfolding upsert_saga
upsert_saga-later s t rest h = rw h refl

find_saga-written :
    (k : String) (s t : Saga) (rest : List Saga) (b : Bool)
    → str_eq t.order_id s.order_id ≡ b
    → find_saga k (upsert_saga s rest) ≡ (if str_eq s.order_id k then some s else find_saga k rest)
    → find_saga k (upsert_saga s (t ∷ rest))
      ≡ (if str_eq s.order_id k then some s else find_saga k (t ∷ rest))
unfolding find_saga
find_saga-written k s t rest true h ih =
    let same = (eq_iff t.order_id s.order_id).0 h in
    ap (find_saga k) (upsert_saga-first s t rest same) ∙ ground (arith, same)
find_saga-written k s t rest false h ih =
    ap (find_saga k) (upsert_saga-later s t rest h)
    ∙ ground (arith, h, ih, eq_iff t.order_id k, eq_iff s.order_id k, eq_iff t.order_id s.order_id)

-- A saved saga is found under its order id, with every column as it was saved, and the other orders
-- are found as before.
pub find_saga-upsert :
    (k : String) (s : Saga) (l : List Saga)
    → find_saga k (upsert_saga s l) ≡ (if str_eq s.order_id k then some s else find_saga k l)
find_saga-upsert k s [] = unfold find_saga upsert_saga in refl
find_saga-upsert k s (t ∷ rest) =
    find_saga-written k s t rest (str_eq t.order_id s.order_id) refl (find_saga-upsert k s rest)

upsert-again :
    (s t u : Saga) (rest : List Saga) (b : Bool)
    → str_eq u.order_id t.order_id ≡ b
    → s.order_id ≡ t.order_id
    → upsert_saga s (upsert_saga t rest) ≡ upsert_saga s rest
    → upsert_saga s (upsert_saga t (u ∷ rest)) ≡ upsert_saga s (u ∷ rest)
upsert-again s t u rest true e h ih =
    let same = (eq_iff u.order_id t.order_id).0 e in
    ap (upsert_saga s) (upsert_saga-first t u rest same)
    ∙ upsert_saga-first s t rest (sym h)
    ∙ sym (upsert_saga-first s u rest (same ∙ sym h))
upsert-again s t u rest false e h ih =
    let other : str_eq u.order_id s.order_id ≡ false = ap (str_eq u.order_id) h ∙ e in
    ap (upsert_saga s) (upsert_saga-later t u rest e)
    ∙ upsert_saga-later s u (upsert_saga t rest) other
    ∙ ap (λ (l : List Saga). u ∷ l) ih
    ∙ sym (upsert_saga-later s u rest other)

-- Of two saves of one order the later stays.
pub upsert-upsert :
    (s t : Saga) (l : List Saga)
    → s.order_id ≡ t.order_id
    → upsert_saga s (upsert_saga t l) ≡ upsert_saga s l
upsert-upsert s t [] h =
    unfold upsert_saga in rw ((eq_iff t.order_id s.order_id).1 (sym h)) (rw h refl)
upsert-upsert s t (u ∷ rest) h =
    upsert-again s t u rest (str_eq u.order_id t.order_id) refl h (upsert-upsert s t rest h)

-- The row that a lookup finds has the order id that was asked for.
pub find_saga-order_id :
    (k : String) (l : List Saga) {s : Saga} → find_saga k l ≡ some s → s.order_id ≡ k
unfolding find_saga
find_saga-order_id k [] h = ground arith
find_saga-order_id k (t ∷ rest) {s} h =
    ground (arith, eq_iff t.order_id k, find_saga-order_id k rest {s = s})

-- An entry that is appended is found afterwards, also where a conflict kept the older one.
pub has_event-append_self :
    (e : EventLogEntry) (l : List EventLogEntry)
    → has_event e.event_id e.component (append_entry e l) ≡ true
unfolding has_event append_entry
has_event-append_self e [] =
    ground (arith, eq_iff e.event_id e.event_id, eq_iff e.component e.component)
has_event-append_self e (d ∷ rest) = ground (
  arith,
  eq_iff d.event_id e.event_id,
  eq_iff d.component e.component,
  has_event-append_self e rest,
)

keep_entry :
    (i c : String) (same : Bool) (d : EventLogEntry) (rest more : List EventLogEntry)
    → (has_event i c rest ≡ true → has_event i c more ≡ true)
    → has_event i c (d ∷ rest) ≡ true
    → has_event i c (if same then d ∷ rest else d ∷ more) ≡ true
unfolding has_event
keep_entry i c same d rest more ih h = ground arith

-- No append takes an entry away.
pub has_event-append :
    (i c : String) (e : EventLogEntry) (l : List EventLogEntry)
    → has_event i c l ≡ true
    → has_event i c (append_entry e l) ≡ true
unfolding append_entry
has_event-append i c e [] h = unfold has_event in cc h
has_event-append i c e (d ∷ rest) h =
    keep_entry i c (same_entry d e) d rest (append_entry e rest) (has_event-append i c e rest) h

-- What a lookup finds after a save: the saved saga, or what it found before.
pub find_saga-upsert_cases :
    (k : String) (s : Saga) (l : List Saga) {t : Saga}
    → find_saga k (upsert_saga s l) ≡ some t
    → ((s ≡ t) × (s.order_id ≡ k)) ⊎ ((find_saga k l ≡ some t) × (s.order_id ≢ k))
find_saga-upsert_cases k s l {t} h = ground (arith, find_saga-upsert k s l, eq_iff s.order_id k)

pub find_saga-upsert_self :
    (s : Saga) (l : List Saga) → find_saga s.order_id (upsert_saga s l) ≡ some s
find_saga-upsert_self s l =
    ground (arith, find_saga-upsert s.order_id s l, eq_iff s.order_id s.order_id)

pub find_saga-upsert_ne :
    (k : String) (s : Saga) (l : List Saga)
    → s.order_id ≢ k
    → find_saga k (upsert_saga s l) ≡ find_saga k l
find_saga-upsert_ne k s l h = ground (arith, find_saga-upsert k s l, eq_iff s.order_id k)
