-- ===== src/Autoscaler/Scaling.antt =====
-- The number of replicas over any readings of the lag.
use workers_kafka.Prelude.{ℕ, ◌≤◌, ◌<◌, ◌≡◌, List, [], ◌∷◌, Option, none, some, arith}
use workers_kafka.Autoscaler.{Settings, Scaler, scale_tick, on_high, on_idle, run_scaler}

abbrev pub Within : Settings → ℕ → Type 0
Within c n = (c.min_replicas ≤ n) × (n ≤ c.max_replicas)

abbrev pub WithinCall : Settings → Option ℕ → Type 0
WithinCall c none = Unit
WithinCall c (some n) = Within c n

abbrev pub WithinCalls : Settings → List (Option ℕ) → Type 0
WithinCalls c [] = Unit
WithinCalls c (call ∷ calls) = WithinCall c call × WithinCalls c calls

abbrev TickWithin : Settings → Option ℕ × Scaler → Type 0
TickWithin c o = WithinCall c o.0 × Within c o.1.replicas

module _ (c : Settings) (s : Scaler) (h : Within c s.replicas) where
  on_high-TickWithin : TickWithin c (on_high c s)
  unfolding on_high
  on_high-TickWithin = ground (arith, h)

  on_idle-TickWithin : (now : ℕ) → TickWithin c (on_idle c now s)
  unfolding on_idle
  on_idle-TickWithin now = ground (arith, h)

  scale_tick-TickWithin : (now : ℕ) (lag : Option ℕ) → TickWithin c (scale_tick c now lag s)
  unfolding scale_tick
  scale_tick-TickWithin now none = (tt, h)
  scale_tick-TickWithin now (some lag) =
      ground (arith, h, on_high-TickWithin, on_idle-TickWithin now)

-- From a number of replicas within the limits, and over any readings: every call that scales the
-- service asks for a number within the limits, and the number of replicas stays within them.
pub run_scaler-Within :
    (c : Settings) (readings : List (ℕ × Option ℕ)) (s : Scaler)
    → Within c s.replicas
    → WithinCalls c (run_scaler c readings s).0 × Within c (run_scaler c readings s).1.replicas
unfolding run_scaler
run_scaler-Within c [] s h = (tt, h)
run_scaler-Within c ((now, lag) ∷ rest) s h =
    let (called, within) = scale_tick-TickWithin c s h now lag in
    let (calls, last) = run_scaler-Within c rest (scale_tick c now lag s).1 within in
    ((called, calls), last)

-- A reading that is not high is never followed at once by a scaling up: after it, a high reading
-- leaves the number of replicas as it is, and makes no call.
pub scale_tick-two_high :
    (c : Settings) (now later lag high : ℕ) (s : Scaler)
    → lag ≤ c.high_lag
    → c.high_lag < high
    → let s' = (scale_tick c now (some lag) s).1 in
      ((scale_tick c later (some high) s').0 ≡ none)
      × ((scale_tick c later (some high) s').1.replicas ≡ s'.replicas)
unfolding scale_tick on_high on_idle
scale_tick-two_high c now later lag high s a b = ground (arith, a, b)
