-- ===== src/Health.antt =====
-- The health checks: internal/infrastructure/health/health.go, internal/infrastructure/kafka/health.go
-- and the /healthz handler of internal/infrastructure/metrics/metrics.go. Dialling a broker and the
-- ping of a pool are outside; a deadline that passes is one of the ways in which they fail.
use workers_kafka.Prelude.{
  ℕ, suc, ◌-◌, ◌≡◌, refl, ◌∙◌, String, List, [], ◌∷◌, Bool, true, false, ◌==◌, ltb, arith,
  if◌then◌else◌, ◌||◌, ◌&&◌,
}

-- `PingBroker` returns nil.
pub record Network : Type 0 where
  pub is_reachable : String → Bool

-- `PingBrokers` returns nil.
unfoldable pub ping_brokers : Network → List String → Bool
ping_brokers net [] = false
ping_brokers net (b ∷ rest) = if net.is_reachable b then true else ping_brokers net rest

-- `LastActivity`: no error. `last` is 0 until a cycle is concluded.
unfoldable pub is_active : ℕ → ℕ → ℕ → Bool
is_active now stale_after last =
    if last == 0 then false else if ltb stale_after (now - last) then false else true

abbrev pub status_ok : ℕ
status_ok = 200

abbrev pub status_unavailable : ℕ
status_unavailable = 503

-- The status that /healthz answers, from the outcomes of the checks in their order, and how many of
-- them were run.
unfoldable pub healthz : List Bool → ℕ × ℕ
healthz [] = (status_ok, 0)
healthz (passed ∷ rest) =
    let (status, run) = healthz rest in
    if passed then (status, suc run) else (status_unavailable, 1)

abbrev pub all_pass : List Bool → Bool
all_pass [] = true
all_pass (b ∷ bs) = b && all_pass bs

abbrev pub any_reachable : Network → List String → Bool
any_reachable net [] = false
any_reachable net (b ∷ bs) = net.is_reachable b || any_reachable net bs

-- The checks of the relay: the pool answers, a broker answers, and the loop is active.
abbrev pub relay_checks : Bool → Network → List String → ℕ → ℕ → ℕ → List Bool
relay_checks pinged net brokers now stale_after last =
    pinged ∷ ping_brokers net brokers ∷ is_active now stale_after last ∷ []

healthz-all : (checks : List Bool) → (healthz checks).0 ≡ (if all_pass checks then 200 else 503)
unfolding healthz
healthz-all [] = refl
healthz-all (b ∷ bs) = ground (arith, healthz-all bs)

ping_brokers-any :
    (net : Network) (brokers : List String) → ping_brokers net brokers ≡ any_reachable net brokers
unfolding ping_brokers
ping_brokers-any net [] = refl
ping_brokers-any net (b ∷ bs) = ground (arith, ping_brokers-any net bs)

-- The relay's /healthz answers 200 if its pool answers, some broker is reachable, a cycle was ever
-- concluded and none is overdue, and 503 otherwise.
pub healthz-relay :
    (pinged : Bool) (net : Network) (brokers : List String) (now stale_after last : ℕ)
    → (healthz (relay_checks pinged net brokers now stale_after last)).0 ≡ (
        if pinged
          && any_reachable net brokers
          && ltb 0 last
          && (if ltb stale_after (now - last) then false else true)
        then 200
        else 503)
unfolding is_active
healthz-relay pinged net brokers now stale_after last =
    healthz-all (relay_checks pinged net brokers now stale_after last)
    ∙ ground (arith, ping_brokers-any net brokers)
