-- ===== src/Exporter/Sagas.antt =====
-- The gauges of sagas beside the table.
use workers_kafka.Prelude.{
  ℕ, suc, ◌≡◌, refl, ap, ◌∙◌, String, List, [], ◌∷◌, some, Bool, true, false, not, ◌&&◌, ◌||◌,
  arith, eq_iff, str_eq, if◌then◌else◌,
}
use workers_kafka.Domain.{Saga}
use workers_kafka.Exporter.{
  add_to_group, group_by_status, set_count, get_count, is_final, status_text, read_counts,
  zero_counts, all_saga_statuses, show_all, show_pending, refresh_sagas, SagaGauges,
}

-- The number of sagas in a status.
pub count_in : String → List Saga → ℕ
count_in st [] = 0
count_in st (s ∷ rest) =
    let n = count_in st rest in if str_eq (status_text s.current) st then suc n else n

has_key : String → List (String × ℕ) → Bool
has_key st [] = false
has_key st ((k, n) ∷ rest) = if str_eq k st then true else has_key st rest

no_repeats : List (String × ℕ) → Bool
unfolding has_key
no_repeats [] = true
no_repeats ((k, n) ∷ rest) = not (has_key k rest) && no_repeats rest

has_key-add :
    (j k : String) (l : List (String × ℕ))
    → has_key j (add_to_group k l) ≡ (str_eq k j || has_key j l)
unfolding has_key add_to_group
has_key-add j k [] = ground arith
has_key-add j k ((i, n) ∷ rest) =
    ground (arith, eq_iff i k, eq_iff k j, eq_iff i j, has_key-add j k rest)

no_repeats-add :
    (k : String) (l : List (String × ℕ))
    → no_repeats l ≡ true
    → no_repeats (add_to_group k l) ≡ true
unfolding no_repeats add_to_group has_key
no_repeats-add k [] h = refl
no_repeats-add k ((i, n) ∷ rest) h =
    ground (arith, eq_iff i k, eq_iff k i, has_key-add i k rest, no_repeats-add k rest, h)

no_repeats-group : (sagas : List Saga) → no_repeats (group_by_status sagas) ≡ true
unfolding no_repeats group_by_status
no_repeats-group [] = refl
no_repeats-group (s ∷ rest) =
    no_repeats-add (status_text s.current) (group_by_status rest) (no_repeats-group rest)

get_count-add :
    (j k : String) (l : List (String × ℕ))
    → get_count j (add_to_group k l) ≡ (if str_eq k j then suc (get_count j l) else get_count j l)
unfolding get_count add_to_group
get_count-add j k [] = ground arith
get_count-add j k ((i, n) ∷ rest) =
    ground (arith, eq_iff i k, eq_iff k j, eq_iff i j, get_count-add j k rest)

get_count-group :
    (j : String) (sagas : List Saga) → get_count j (group_by_status sagas) ≡ count_in j sagas
unfolding group_by_status count_in
get_count-group j [] = unfold get_count in refl
get_count-group j (s ∷ rest) =
    get_count-add j (status_text s.current) (group_by_status rest)
    ∙ rw (get_count-group j rest) refl

get_count-set :
    (j k : String) (n : ℕ) (l : List (String × ℕ))
    → get_count j (set_count k n l) ≡ (if str_eq k j then n else get_count j l)
unfolding get_count set_count
get_count-set j k n [] = refl
get_count-set j k n ((i, m) ∷ rest) =
    ground (arith, eq_iff i k, eq_iff k j, eq_iff i j, get_count-set j k n rest)

get_count-read :
    (j : String) (rows counts : List (String × ℕ))
    → no_repeats rows ≡ true
    → get_count j (read_counts rows counts)
      ≡ (if has_key j rows then get_count j rows else get_count j counts)
unfolding read_counts no_repeats has_key get_count
get_count-read j [] counts h = refl
get_count-read j ((k, n) ∷ rows) counts h =
    ground (
      arith,
      eq_iff k j,
      get_count-set j k n counts,
      get_count-read j rows (set_count k n counts),
      h,
    )

get_count-missing : (j : String) (l : List (String × ℕ)) → has_key j l ≡ false → get_count j l ≡ 0
unfolding has_key get_count
get_count-missing j [] h = refl
get_count-missing j ((k, n) ∷ rest) h = ground (arith, get_count-missing j rest, h)

get_count-zero : (j : String) (l : List String) → get_count j (zero_counts l) ≡ 0
unfolding get_count zero_counts
get_count-zero j [] = refl
get_count-zero j (k ∷ rest) = ground (arith, get_count-zero j rest)

counted :
    (j : String) (sagas : List Saga)
    → get_count j (read_counts (group_by_status sagas) (zero_counts all_saga_statuses))
      ≡ count_in j sagas
counted j sagas = ground (
  arith,
  get_count-read j (group_by_status sagas) (zero_counts all_saga_statuses) (no_repeats-group sagas),
  get_count-missing j (group_by_status sagas),
  get_count-group j sagas,
  get_count-zero j all_saga_statuses,
)

unfoldable pub is_listed : String → List String → Bool
is_listed st [] = false
is_listed st (k ∷ rest) = str_eq k st || is_listed st rest

get_count-show_all :
    (st : String) (counts : List (String × ℕ)) (l : List String)
    → get_count st (show_all counts l) ≡ (if is_listed st l then get_count st counts else 0)
unfolding get_count show_all is_listed
get_count-show_all st counts [] = refl
get_count-show_all st counts (k ∷ rest) =
    ground (
      arith,
      eq_iff k st,
      ap (λ (x : String). get_count x counts),
      get_count-show_all st counts rest,
    )

get_count-show_pending :
    (st : String) (counts : List (String × ℕ)) (l : List String)
    → get_count st (show_pending counts l)
      ≡ (if is_listed st l && not (is_final st) then get_count st counts else 0)
unfolding get_count show_pending is_listed
get_count-show_pending st counts [] = refl
get_count-show_pending st counts (k ∷ rest) = ground (
  arith,
  eq_iff k st,
  ap is_final,
  ap (λ (x : String). get_count x counts),
  get_count-show_pending st counts rest,
)

-- After a refresh that reads the table: the gauges of all statuses show for each of the ten statuses
-- the number of sagas in it; those of pending orders show the same for the statuses that are not
-- final, and nothing for the final ones; and the totals are the numbers of completed and of failed
-- sagas.
pub refresh_sagas-counts :
    (sagas : List Saga) (gauges : SagaGauges) (st : String)
    → is_listed st all_saga_statuses ≡ true
    → let g = refresh_sagas (some (group_by_status sagas)) gauges in
      (get_count st g.by_status ≡ count_in st sagas)
      × (get_count st g.pending_by_status ≡ (if is_final st then 0 else count_in st sagas))
      × (g.completed_total ≡ count_in "COMPLETED" sagas)
      × (g.failed_total ≡ count_in "FAILED" sagas)
unfolding refresh_sagas
refresh_sagas-counts sagas gauges st h =
    let counts = read_counts (group_by_status sagas) (zero_counts all_saga_statuses) in
    (
      get_count-show_all st counts all_saga_statuses ∙ rw h (counted st sagas),
      get_count-show_pending st counts all_saga_statuses ∙ rw (h, counted st sagas) (ground arith),
      counted "COMPLETED" sagas,
      counted "FAILED" sagas,
    )
