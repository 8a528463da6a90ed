-- ===== src/Exporter/Offsets/Lag.antt =====
-- The lag that the exporter shows.
use workers_kafka.Prelude.{
  ℕ, ◌+◌, ◌-◌, ◌≡◌, refl, ap, ◌∙◌, inl, inr, String, List, [], ◌∷◌, Option, none, some, Bool, true,
  false, not, ◌&&◌, ◌||◌, arith, ◌==◌, Bool-cases, eq_iff, eq_refl, str_eq, if◌then◌else◌,
}
use workers_kafka.Topics.{flow_topics}
use workers_kafka.Exporter.Offsets.{
  EndOffset, CommittedOffset, behind, lag_in, topic_lag, LagGauges, set_lag, get_lag,
  refresh_topics, refresh_group, refresh_groups, refresh_consumer_lag, consumer_groups,
}

-- What a group has committed of a partition.
unfoldable pub committed_of : ℕ → List CommittedOffset → Option ℕ
committed_of p [] = none
committed_of p (c ∷ rest) = if c.partition == p then c.committed else committed_of p rest

has_partition : ℕ → List CommittedOffset → Bool
has_partition p [] = false
has_partition p (c ∷ rest) = if c.partition == p then true else has_partition p rest

-- The answer names no partition twice.
unfoldable pub is_distinct : List CommittedOffset → Bool
unfolding has_partition
is_distinct [] = true
is_distinct (c ∷ rest) = not (has_partition c.partition rest) && is_distinct rest

-- The messages of a topic beyond what a group has committed, over the partitions it has committed.
unfoldable pub unread : List EndOffset → List CommittedOffset → ℕ
unread [] committed = 0
unread (e ∷ rest) committed =
    elim (committed_of e.partition committed) [ none ↦ 0 | some c ↦ e.last_offset - c ]
    + unread rest committed

lag_in-absent :
    (e : EndOffset) (l : List CommittedOffset)
    → has_partition e.partition l ≡ false
    → lag_in e l ≡ 0
unfolding lag_in has_partition
lag_in-absent e [] h = refl
lag_in-absent e (c ∷ rest) h = ground (arith, lag_in-absent e rest, h)

behind-minus : (n : ℕ) (o : Option ℕ) → behind n o ≡ elim o [ none ↦ 0 | some c ↦ n - c ]
behind-minus n none = refl
behind-minus n (some c) = ground arith

lag_in-distinct :
    (e : EndOffset) (l : List CommittedOffset)
    → is_distinct l ≡ true
    → lag_in e l ≡ behind e.last_offset (committed_of e.partition l)
unfolding lag_in is_distinct committed_of
lag_in-distinct e [] h = refl
lag_in-distinct e (c ∷ rest) h = elim (Bool-cases (c.partition == e.partition)) [
  | inl same ↦ rw same (ground (arith, lag_in-absent e rest, same, h))
  | inr other ↦ rw other (ground (arith, lag_in-distinct e rest, h))
]

topic_lag-unread :
    (ends : List EndOffset) (l : List CommittedOffset)
    → is_distinct l ≡ true
    → topic_lag ends l ≡ unread ends l
unfolding topic_lag unread
topic_lag-unread [] l h = refl
topic_lag-unread (e ∷ rest) l h =
    rw (lag_in-distinct e l h, behind-minus e.last_offset (committed_of e.partition l))
      (omega (arith, topic_lag-unread rest l h))

get_lag-set :
    (g t g' t' : String) (n : ℕ) (l : LagGauges)
    → get_lag g t (set_lag g' t' n l)
      ≡ (if str_eq g' g && str_eq t' t then some n else get_lag g t l)
unfolding get_lag set_lag
get_lag-set g t g' t' n [] = refl
get_lag-set g t g' t' n (((i, j), m) ∷ rest) = ground (
  arith,
  eq_iff i g',
  eq_iff j t',
  eq_iff g' g,
  eq_iff t' t,
  eq_iff i g,
  eq_iff j t,
  get_lag-set g t g' t' n rest,
)

unfoldable pub is_named : String → List String → Bool
is_named x [] = false
is_named x (y ∷ rest) = str_eq y x || is_named x rest

get_lag-topics :
    (g t g' : String) (ends : String → List EndOffset) (committed : String → List CommittedOffset)
    (topics : List String) (l : LagGauges)
    → get_lag g t (refresh_topics g' ends committed topics l) ≡ (
        if str_eq g' g && is_named t topics
        then some (topic_lag (ends t) (committed t))
        else get_lag g t l)
unfolding refresh_topics is_named
get_lag-topics g t g' ends committed [] l = ground arith
get_lag-topics g t g' ends committed (u ∷ rest) l = ground (
  arith,
  eq_iff u t,
  ap (λ (x : String). topic_lag (ends x) (committed x)),
  get_lag-set g t g' u (topic_lag (ends u) (committed u)) l,
  get_lag-topics g t g' ends committed rest (set_lag g' u (topic_lag (ends u) (committed u)) l),
)

-- What a refresh shows of a group and a topic, beside the gauge before it.
pub shown_lag :
    Option (String → List CommittedOffset) → List EndOffset → String → Option ℕ → Option ℕ
shown_lag none ends t before = before
shown_lag (some committed) ends t before = some (topic_lag ends (committed t))

get_lag-group :
    (g t g' : String) (ends : String → List EndOffset) (o : Option (String → List CommittedOffset))
    (l : LagGauges)
    → is_named t flow_topics ≡ true
    → get_lag g t (refresh_group g' ends o l)
      ≡ (if str_eq g' g then shown_lag o (ends t) t (get_lag g t l) else get_lag g t l)
unfolding refresh_group shown_lag
get_lag-group g t g' ends none l h = ground arith
get_lag-group g t g' ends (some committed) l h =
    get_lag-topics g t g' ends committed flow_topics l ∙ rw h (ground arith)

shown_twice :
    (o : Option (String → List CommittedOffset)) (ends : List EndOffset) (t : String) (x : Option ℕ)
    → shown_lag o ends t (shown_lag o ends t x) ≡ shown_lag o ends t x
unfolding shown_lag
shown_twice none ends t x = refl
shown_twice (some c) ends t x = refl

get_lag-groups :
    (g t : String) (ends : String → List EndOffset)
    (fetch : String → Option (String → List CommittedOffset)) (groups : List String) (l : LagGauges)
    → is_named t flow_topics ≡ true
    → get_lag g t (refresh_groups ends fetch groups l) ≡ (
        if is_named g groups then shown_lag (fetch g) (ends t) t (get_lag g t l) else get_lag g t l)
unfolding refresh_groups is_named
get_lag-groups g t ends fetch [] l h = refl
get_lag-groups g t ends fetch (g' ∷ rest) l h = elim (Bool-cases (str_eq g' g)) [
  | inl same ↦
      get_lag-groups g t ends fetch rest (refresh_group g' ends (fetch g') l) h
      ∙ rw ((eq_iff g' g).0 same, get_lag-group g t g ends (fetch g) l h, eq_refl g)
          (elim (Bool-cases (is_named g rest)) [
            | inl more ↦ rw more (shown_twice (fetch g) (ends t) t (get_lag g t l))
            | inr last ↦ rw last refl
          ])
  | inr other ↦
      get_lag-groups g t ends fetch rest (refresh_group g' ends (fetch g') l) h
      ∙ rw (get_lag-group g t g' ends (fetch g') l h, other) refl
]

-- After a refresh in which the ends of the topics were read, for each group and topic of the flow: if
-- the offsets of the group were read, and name no partition twice, the gauge shows the messages beyond
-- what the group has committed, over the partitions it has committed; if they could not be read, the
-- gauge is as it was.
pub refresh_consumer_lag-unread :
    (ends : String → List EndOffset) (fetch : String → Option (String → List CommittedOffset))
    (l : LagGauges) (g t : String) (o : Option (String → List CommittedOffset))
    → is_named g consumer_groups ≡ true
    → is_named t flow_topics ≡ true
    → fetch g ≡ o
    → ((committed : String → List CommittedOffset)
        → o ≡ some committed
        → is_distinct (committed t) ≡ true)
    → get_lag g t (refresh_consumer_lag (some ends) fetch l)
      ≡ elim o [ none ↦ get_lag g t l | some committed ↦ some (unread (ends t) (committed t)) ]
unfolding refresh_consumer_lag shown_lag
refresh_consumer_lag-unread ends fetch l g t none hg ht f distinct =
    get_lag-groups g t ends fetch consumer_groups l ht ∙ rw (hg, f) refl
refresh_consumer_lag-unread ends fetch l g t (some committed) hg ht f distinct =
    get_lag-groups g t ends fetch consumer_groups l ht
    ∙ rw (hg, f)
        (ap (λ (n : ℕ). some n) (topic_lag-unread (ends t) (committed t) (distinct committed refl)))
