-- ===== src/Exporter/Ages.antt =====
-- The ages of sagas that the exporter shows, beside the table.
use workers_kafka.Prelude.{
  ℕ, ◌-◌, ◌≤◌, ◌≡◌, refl, ap, In, first, later, ltb, ◌∙◌, inl, inr, String, List, [], ◌∷◌, Option,
  none, some, false, arith, Bool-cases, eq_iff, str_eq, if◌then◌else◌,
}
use workers_kafka.Exporter.{
  AgedRow, oldest_pending, refresh_outbox_age, get_count, AgedSaga, max_of, is_final, add_created,
  group_by_created, ages_of, refresh_saga_ages,
}

-- The creation of the newest of the sagas in a status.
unfoldable pub newest : String → List AgedSaga → Option ℕ
newest st [] = none
newest st (s ∷ rest) =
    if str_eq s.status st
    then some (elim (newest st rest) [ none ↦ s.created_at | some t ↦ max_of s.created_at t ])
    else newest st rest

find_group : String → List (String × ℕ) → Option ℕ
find_group st [] = none
find_group st ((k, t) ∷ rest) = if str_eq k st then some t else find_group st rest

abbrev later_of : ℕ → Option ℕ → ℕ
later_of t none = t
later_of t (some u) = max_of t u

find_group-add :
    (s : AgedSaga) (st : String) (l : List (String × ℕ))
    → find_group st (add_created s l) ≡ (
        if str_eq s.status st
        then some (later_of s.created_at (find_group st l))
        else find_group st l)
unfolding find_group add_created
find_group-add s st [] = refl
find_group-add s st ((k, t) ∷ rest) =
    ground (arith, eq_iff k s.status, eq_iff s.status st, eq_iff k st, find_group-add s st rest)

same_final : (a b : String) → a ≡ b → is_final a ≡ is_final b
same_final a b h = ap is_final h

find_group-created :
    (sagas : List AgedSaga) (st : String)
    → is_final st ≡ false
    → find_group st (group_by_created sagas) ≡ newest st sagas
unfolding find_group group_by_created newest
find_group-created [] st h = refl
find_group-created (s ∷ rest) st h = elim (Bool-cases (is_final s.status)) [
  | inl over ↦ rw over (
      ground
        (arith, find_group-created rest st h, eq_iff s.status st, same_final s.status st, over, h))
  | inr active ↦
      rw active
        (find_group-add s st (group_by_created rest) ∙ rw (find_group-created rest st h) refl)
]

get_count-ages :
    (now : ℕ) (l : List (String × ℕ)) (st : String)
    → get_count st (ages_of now l) ≡ elim (find_group st l) [ none ↦ 0 | some t ↦ now - t ]
unfolding get_count ages_of find_group
get_count-ages now [] st = refl
get_count-ages now ((k, t) ∷ rest) st = elim (Bool-cases (str_eq k st)) [
  | inl same ↦ rw same refl
  | inr other ↦ rw other (get_count-ages now rest st)
]

-- What the exporter shows as the age of a status that is not final is the age of the newest saga in
-- it, and 0 if there is none.
pub refresh_saga_ages-newest :
    (now : ℕ) (sagas : List AgedSaga) (st : String)
    → is_final st ≡ false
    → get_count st (refresh_saga_ages now sagas)
      ≡ elim (newest st sagas) [ none ↦ 0 | some t ↦ now - t ]
unfolding refresh_saga_ages
refresh_saga_ages-newest now sagas st h =
    get_count-ages now (group_by_created sagas) st ∙ rw (find_group-created sagas st h) refl

older_first :
    (r : AgedRow) (o : Option ℕ)
    → r.is_published ≡ false
    → (t : ℕ) × ((if r.is_published then o else elim o [
      | none ↦ some r.created_at
      | some u ↦ some (if ltb u r.created_at then u else r.created_at)
    ])
        ≡ some t)
      × (t ≤ r.created_at)
older_first r none h = (r.created_at, rw h refl, omega arith)
older_first r (some u) h = (if ltb u r.created_at then u else r.created_at, rw h refl, ground arith)

oldest_at_most :
    (rows : List AgedRow) (r : AgedRow)
    → In r rows
    → r.is_published ≡ false
    → (t : ℕ) × (oldest_pending rows ≡ some t) × (t ≤ r.created_at)
unfolding oldest_pending
oldest_at_most [] r i h = elim i [ ]
oldest_at_most (q ∷ rest) _ first h = older_first q (oldest_pending rest) h
oldest_at_most (q ∷ rest) r (later i) h =
    let (t, found, below) = oldest_at_most rest r i h in
    elim (Bool-cases q.is_published) [
      | inl gone ↦ (t, rw gone found, below)
      | inr waits ↦ (
        if ltb t q.created_at then t else q.created_at,
        rw (waits, found) refl,
        ground (arith, below),
      )
    ]

-- After a refresh that reads the table, the age of the outbox is at least that of every row that
-- waits.
pub refresh_outbox_age-oldest :
    (now gauge : ℕ) (rows : List AgedRow) (r : AgedRow)
    → In r rows
    → r.is_published ≡ false
    → now - r.created_at ≤ refresh_outbox_age now (some rows) gauge
unfolding refresh_outbox_age
refresh_outbox_age-oldest now gauge rows r i h =
    let (t, found, below) = oldest_at_most rows r i h in
    rw (found, refresh_outbox_age) (omega (arith, below))
