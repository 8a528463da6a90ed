-- ===== src/Autoscaler.antt =====
-- The autoscaler: cmd/autoscaler/main.go. The settings are natural numbers, and the outcome of
-- docker-compose is left out, since the loop only logs it.
pub mod Scaling
use workers_kafka.Prelude.{
  ℕ, zero, suc, ◌+◌, ◌-◌, String, List, [], ◌∷◌, Option, none, some, Bool, true, false, ◌&&◌, ◌||◌,
  not, ltb, leb, ◌==◌, str_eq, if◌then◌else◌,
}

pub record Settings : Type 0 where
  pub min_replicas : ℕ
  pub max_replicas : ℕ
  pub high_lag : ℕ
  pub idle_duration : ℕ
  pub scale_step : ℕ

-- The variables of the loop; `idle_start` is `none` for the zero time.
pub record Scaler : Type 0 where
  pub replicas : ℕ
  pub high_count : ℕ
  pub idle_start : Option ℕ

abbrev pub new_scaler : Settings → Scaler
new_scaler c = record { replicas = c.min_replicas; high_count = 0; idle_start = none }

-- `replicas += scaleStep`, at most the maximum
abbrev pub raised : Settings → ℕ → ℕ
raised c n = if ltb c.max_replicas (n + c.scale_step) then c.max_replicas else n + c.scale_step

-- `replicas -= scaleStep`, at least the minimum: a difference below 0 is below it too.
abbrev pub lowered : Settings → ℕ → ℕ
lowered c n = if ltb (n - c.scale_step) c.min_replicas then c.min_replicas else n - c.scale_step

-- The number of replicas that `scaleService` is called with, if it is, and the next state.
unfoldable pub on_high : Settings → Scaler → Option ℕ × Scaler
on_high c s =
    let counted : Scaler = record s { high_count = suc s.high_count; idle_start = none } in
    if leb 2 counted.high_count && ltb s.replicas c.max_replicas
    then (
      some (raised c s.replicas),
      record counted { replicas = raised c s.replicas; high_count = 0 },
    )
    else (none, counted)

abbrev pub since : ℕ → Option ℕ → ℕ
since now none = now
since now (some t) = t

unfoldable pub on_idle : Settings → ℕ → Scaler → Option ℕ × Scaler
on_idle c now s =
    let start = since now s.idle_start in
    let idle : Scaler = record s { high_count = 0; idle_start = some start } in
    if leb c.idle_duration (now - start) && ltb c.min_replicas s.replicas
    then (
      some (lowered c s.replicas),
      record idle { replicas = lowered c s.replicas; idle_start = none },
    )
    else (none, idle)

-- One pass of the loop at a time; `none` is a lag that could not be read.
unfoldable pub scale_tick : Settings → ℕ → Option ℕ → Scaler → Option ℕ × Scaler
unfolding on_high on_idle
scale_tick c now none s = (none, s)
scale_tick c now (some lag) s =
    if ltb c.high_lag lag
    then on_high c s
    else if lag == 0
    then on_idle c now s
    else (none, record s { high_count = 0; idle_start = none })

-- The passes of the loop: the calls of `scaleService`, in order, and the last state.
unfoldable pub run_scaler : Settings → List (ℕ × Option ℕ) → Scaler → List (Option ℕ) × Scaler
unfolding scale_tick
run_scaler c [] s = ([], s)
run_scaler c ((now, lag) ∷ rest) s =
    let (call, s') = scale_tick c now lag s in
    let (calls, last) = run_scaler c rest s' in (call ∷ calls, last)

-- A line of the tool's output, split into fields: its lag, if it is about the group and the topic
-- and its sixth field is a number.
unfoldable pub line_lag : (String → Option ℕ) → String → String → List String → Option ℕ
line_lag atoi group topic (g ∷ t ∷ partition ∷ current ∷ end ∷ lag ∷ rest) =
    if str_eq g group && str_eq t topic then atoi lag else none
line_lag atoi group topic _ = none

-- `totalLag` over the lines
unfoldable pub total_lag : (String → Option ℕ) → String → String → List (List String) → ℕ
unfolding line_lag
total_lag atoi group topic [] = 0
total_lag atoi group topic (line ∷ rest) =
    let others = total_lag atoi group topic rest in
    elim (line_lag atoi group topic line) [ none ↦ others | some n ↦ n + others ]
