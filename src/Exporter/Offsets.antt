-- ===== src/Exporter/Offsets.antt =====
-- The gauges of the exporter that come from Kafka: refreshConsumerLag and refreshDLQDepth of
-- cmd/metrics-exporter/main.go. What the admin client answers is an input, `none` for an error;
-- offsets are natural numbers far below 2 ^ 63.
pub mod Lag
use workers_kafka.Prelude.{
  ℕ, ◌+◌, ◌-◌, String, List, [], ◌∷◌, Option, none, some, Bool, true, false, ◌&&◌, not, ltb, ◌==◌,
  str_eq, if◌then◌else◌,
}
use workers_kafka.Topics.{dlq_topic_for, flow_topics}
use workers_kafka.Exporter.{set_count}

abbrev pub consumer_groups : List String
consumer_groups =
    "orchestrator" ∷ "worker-payment" ∷ "worker-inventory" ∷ "worker-notification" ∷ "projector"
    ∷ "order-status" ∷ []

-- One partition of `ListOffsets`, and one of `OffsetFetch`: no commit is `none`, where the client
-- says -1.
pub record EndOffset : Type 0 where
  pub partition : ℕ
  pub last_offset : ℕ
  pub has_error : Bool

pub record CommittedOffset : Type 0 where
  pub partition : ℕ
  pub committed : Option ℕ

abbrev pub behind : ℕ → Option ℕ → ℕ
behind last none = 0
behind last (some c) = if ltb c last then last - c else 0

-- The inner loop, over the partitions of the group.
unfoldable pub lag_in : EndOffset → List CommittedOffset → ℕ
lag_in ep [] = 0
lag_in ep (cp ∷ rest) =
    let others = lag_in ep rest in
    if cp.partition == ep.partition then behind ep.last_offset cp.committed + others else others

-- The lag of a group on a topic.
unfoldable pub topic_lag : List EndOffset → List CommittedOffset → ℕ
unfolding lag_in
topic_lag [] committed = 0
topic_lag (ep ∷ rest) committed = lag_in ep committed + topic_lag rest committed

abbrev pub LagGauges : Type 0
LagGauges = List ((String × String) × ℕ)

-- `metrics.SetConsumerLag`
unfoldable pub set_lag : String → String → ℕ → LagGauges → LagGauges
set_lag group topic n [] = ((group, topic), n) ∷ []
set_lag group topic n (((g, t), m) ∷ rest) =
    if str_eq g group && str_eq t topic
    then ((g, t), n) ∷ rest
    else ((g, t), m) ∷ set_lag group topic n rest

unfoldable pub get_lag : String → String → LagGauges → Option ℕ
get_lag group topic [] = none
get_lag group topic (((g, t), n) ∷ rest) =
    if str_eq g group && str_eq t topic then some n else get_lag group topic rest

unfoldable pub refresh_topics :
    String
    → (String → List EndOffset)
    → (String → List CommittedOffset)
    → List String
    → LagGauges
    → LagGauges
unfolding topic_lag set_lag
refresh_topics group ends committed [] gauges = gauges
refresh_topics group ends committed (topic ∷ rest) gauges =
    refresh_topics group ends committed rest
      (set_lag group topic (topic_lag (ends topic) (committed topic)) gauges)

refresh_group :
    String
    → (String → List EndOffset)
    → Option (String → List CommittedOffset)
    → LagGauges
    → LagGauges
unfolding refresh_topics flow_topics
refresh_group group ends none gauges = gauges
refresh_group group ends (some committed) gauges =
    refresh_topics group ends committed flow_topics gauges

unfoldable pub refresh_groups :
    (String → List EndOffset)
    → (String → Option (String → List CommittedOffset))
    → List String
    → LagGauges
    → LagGauges
unfolding refresh_group
refresh_groups ends fetch [] gauges = gauges
refresh_groups ends fetch (group ∷ rest) gauges =
    refresh_groups ends fetch rest (refresh_group group ends (fetch group) gauges)

-- `refreshConsumerLag`
unfoldable pub refresh_consumer_lag :
    Option (String → List EndOffset)
    → (String → Option (String → List CommittedOffset))
    → LagGauges
    → LagGauges
unfolding refresh_groups
refresh_consumer_lag none fetch gauges = gauges
refresh_consumer_lag (some ends) fetch gauges = refresh_groups ends fetch consumer_groups gauges

-- The partitions of a dead letter topic: the end of partition 0, unless it came with an error.
unfoldable pub show_depth : String → List EndOffset → List (String × ℕ) → List (String × ℕ)
unfolding set_count
show_depth topic [] gauges = gauges
show_depth topic (p ∷ rest) gauges =
    show_depth topic rest
      (if p.partition == 0 && not p.has_error then set_count topic p.last_offset gauges else gauges)

unfoldable pub show_depths :
    (String → Option (List EndOffset)) → List String → List (String × ℕ) → List (String × ℕ)
unfolding show_depth dlq_topic_for
show_depths ends [] gauges = gauges
show_depths ends (topic ∷ rest) gauges = show_depths ends rest (elim (ends (dlq_topic_for topic)) [
  | none ↦ gauges
  | some parts ↦ show_depth (dlq_topic_for topic) parts gauges
])

-- `refreshDLQDepth`, over the dead letter topics of the flow.
unfoldable pub refresh_dlq_depth :
    Option (String → Option (List EndOffset)) → List (String × ℕ) → List (String × ℕ)
unfolding show_depths flow_topics
refresh_dlq_depth none gauges = gauges
refresh_dlq_depth (some ends) gauges = show_depths ends flow_topics gauges
