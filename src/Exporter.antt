-- ===== src/Exporter.antt =====
-- The metrics exporter: cmd/metrics-exporter/main.go. The gauges are association lists by their
-- labels. What PostgreSQL answers is an input, `none` for an error; times are in seconds. Exporter.Offsets
-- has the gauges that come from Kafka.
pub mod Sagas
pub mod Ages
pub mod Offsets
use workers_kafka.Prelude.{
  ℕ, zero, suc, ◌+◌, ◌-◌, String, List, [], ◌∷◌, Option, none, some, Bool, true, false, ◌&&◌, ◌||◌,
  not, ltb, ◌==◌, str_eq, if◌then◌else◌,
}
use workers_kafka.Domain.{
  OrderStatus, pending, payment_pending, payment_approved, payment_refund_pending,
  inventory_reserved, notified, completed, payment_refunded, retrying, failed, other, Saga,
}
use workers_kafka.Topics.{dlq_topic_for, flow_topics}

-- `allSagaStatuses`
unfoldable pub all_saga_statuses : List String
all_saga_statuses =
    "PENDING" ∷ "PAYMENT_PENDING" ∷ "PAYMENT_APPROVED" ∷ "PAYMENT_REFUND_PENDING"
    ∷ "INVENTORY_RESERVED" ∷ "NOTIFIED" ∷ "COMPLETED" ∷ "PAYMENT_REFUNDED" ∷ "RETRYING" ∷ "FAILED"
    ∷ []

-- The text of a status, as the column holds it.
unfoldable pub status_text : OrderStatus → String
status_text pending = "PENDING"
status_text payment_pending = "PAYMENT_PENDING"
status_text payment_approved = "PAYMENT_APPROVED"
status_text payment_refund_pending = "PAYMENT_REFUND_PENDING"
status_text inventory_reserved = "INVENTORY_RESERVED"
status_text notified = "NOTIFIED"
status_text completed = "COMPLETED"
status_text payment_refunded = "PAYMENT_REFUNDED"
status_text retrying = "RETRYING"
status_text failed = "FAILED"
status_text (other s) = s

-- The gauges of sagas.
pub record SagaGauges : Type 0 where
  pub by_status : List (String × ℕ)
  pub pending_by_status : List (String × ℕ)
  pub completed_total : ℕ
  pub failed_total : ℕ

-- `SELECT current_status, count(*) FROM sagas GROUP BY current_status`
unfoldable pub add_to_group : String → List (String × ℕ) → List (String × ℕ)
add_to_group st [] = (st, 1) ∷ []
add_to_group st ((k, n) ∷ rest) =
    if str_eq k st then (k, suc n) ∷ rest else (k, n) ∷ add_to_group st rest

unfoldable pub group_by_status : List Saga → List (String × ℕ)
unfolding add_to_group status_text
group_by_status [] = []
group_by_status (s ∷ rest) = add_to_group (status_text s.current) (group_by_status rest)

-- `counts[status] = n`
unfoldable pub set_count : String → ℕ → List (String × ℕ) → List (String × ℕ)
set_count st n [] = (st, n) ∷ []
set_count st n ((k, m) ∷ rest) = if str_eq k st then (k, n) ∷ rest else (k, m) ∷ set_count st n rest

-- `counts[status]`, 0 where it is missing
unfoldable pub get_count : String → List (String × ℕ) → ℕ
get_count st [] = 0
get_count st ((k, n) ∷ rest) = if str_eq k st then n else get_count st rest

unfoldable pub zero_counts : List String → List (String × ℕ)
zero_counts [] = []
zero_counts (st ∷ rest) = (st, 0) ∷ zero_counts rest

unfoldable pub read_counts : List (String × ℕ) → List (String × ℕ) → List (String × ℕ)
unfolding set_count
read_counts [] counts = counts
read_counts ((st, n) ∷ rows) counts = read_counts rows (set_count st n counts)

-- The gauges set for a list of statuses.
unfoldable pub show_all : List (String × ℕ) → List String → List (String × ℕ)
unfolding get_count
show_all counts [] = []
show_all counts (st ∷ rest) = (st, get_count st counts) ∷ show_all counts rest

unfoldable pub is_final : String → Bool
is_final st = str_eq st "COMPLETED" || str_eq st "FAILED"

unfoldable pub show_pending : List (String × ℕ) → List String → List (String × ℕ)
unfolding get_count is_final
show_pending counts [] = []
show_pending counts (st ∷ rest) =
    let others = show_pending counts rest in
    if is_final st then others else (st, get_count st counts) ∷ others

-- `refreshSagas`; `none` where the query or the reading of a row fails.
unfoldable pub refresh_sagas : Option (List (String × ℕ)) → SagaGauges → SagaGauges
unfolding read_counts zero_counts show_all show_pending get_count all_saga_statuses
refresh_sagas none gauges = gauges
refresh_sagas (some rows) gauges =
    let counts = read_counts rows (zero_counts all_saga_statuses) in
    record {
      by_status = show_all counts all_saga_statuses;
      pending_by_status = show_pending counts all_saga_statuses;
      completed_total = get_count "COMPLETED" counts;
      failed_total = get_count "FAILED" counts;
    }

-- The columns of `sagas` that the ages come from.
pub record AgedSaga : Type 0 where
  pub status : String
  pub created_at : ℕ

-- `now() - MAX(created_at)` of a group, after one more row
abbrev pub max_of : ℕ → ℕ → ℕ
max_of a b = if ltb a b then b else a

unfoldable pub add_created : AgedSaga → List (String × ℕ) → List (String × ℕ)
add_created s [] = (s.status, s.created_at) ∷ []
add_created s ((k, t) ∷ rest) =
    if str_eq k s.status then (k, max_of s.created_at t) ∷ rest else (k, t) ∷ add_created s rest

-- `SELECT current_status, MAX(created_at) … WHERE current_status NOT IN ('COMPLETED', 'FAILED')
-- GROUP BY current_status`
unfoldable pub group_by_created : List AgedSaga → List (String × ℕ)
unfolding add_created is_final
group_by_created [] = []
group_by_created (s ∷ rest) =
    let groups = group_by_created rest in if is_final s.status then groups else add_created s groups

unfoldable pub ages_of : ℕ → List (String × ℕ) → List (String × ℕ)
ages_of now [] = []
ages_of now ((k, t) ∷ rest) = (k, now - t) ∷ ages_of now rest

-- `refreshSagaAges` with no error: the ages by status.
unfoldable pub refresh_saga_ages : ℕ → List AgedSaga → List (String × ℕ)
unfolding group_by_created ages_of
refresh_saga_ages now sagas = ages_of now (group_by_created sagas)

-- The columns of `outbox` that its age comes from.
pub record AgedRow : Type 0 where
  pub created_at : ℕ
  pub is_published : Bool

-- `SELECT MIN(created_at) FROM outbox WHERE published_at IS NULL`
unfoldable pub oldest_pending : List AgedRow → Option ℕ
oldest_pending [] = none
oldest_pending (r ∷ rest) =
    let others = oldest_pending rest in
    if r.is_published then others else elim others [
      | none ↦ some r.created_at
      | some t ↦ some (if ltb t r.created_at then t else r.created_at)
    ]

-- `refreshOutboxAge`; `none` where the query fails.
unfoldable pub refresh_outbox_age : ℕ → Option (List AgedRow) → ℕ → ℕ
unfolding oldest_pending
refresh_outbox_age now none gauge = gauge
refresh_outbox_age now (some rows) gauge = elim (oldest_pending rows) [
  | none ↦ 0
  | some t ↦ now - t
]
