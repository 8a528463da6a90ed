-- ===== src/Consumer/Watchdog.antt =====
-- The watchdog of a reader: watchdogStall and stallDetected of internal/infrastructure/kafka/consumer.go.
-- One `Check` is one tick of its timer, with the reader's `Stats().Fetches` and the clock in seconds.
use workers_kafka.Prelude.{
  ℕ, suc, ◌+◌, ◌-◌, ◌*◌, ◌≤◌, ◌≡◌, refl, List, [], ◌∷◌, Option, none, some, Bool, true, false, ◌&&◌,
  ltb, leb, arith, if◌then◌else◌,
}

abbrev pub stall_check_interval : ℕ
stall_check_interval = 15

abbrev pub stall_timeout : ℕ
stall_timeout = 45

-- `lastFetches` begins at -1, which is `none` here.
pub record Watchdog : Type 0 where
  pub last_fetches : Option ℕ
  pub last_progress : ℕ

pub record Check : Type 0 where
  pub fetches : ℕ
  pub now : ℕ

-- `fetches > lastFetches`
abbrev pub has_advanced : ℕ → Option ℕ → Bool
has_advanced fetches none = true
has_advanced fetches (some last) = ltb last fetches

-- `current <= last` of a last number that may be -1
abbrev pub is_at_most : ℕ → Option ℕ → Bool
is_at_most current none = false
is_at_most current (some last) = leb current last

unfoldable pub stall_detected : ℕ → Option ℕ → ℕ → ℕ → Bool
stall_detected current last elapsed timeout = is_at_most current last && leb timeout elapsed

-- A tick: whether the fetch is cancelled, and the watchdog afterwards.
unfoldable pub check_stall : Check → Watchdog → Bool × Watchdog
unfolding stall_detected
check_stall t w =
    if has_advanced t.fetches w.last_fetches
    then (false, record { last_fetches = some t.fetches; last_progress = t.now })
    else if stall_detected t.fetches w.last_fetches (t.now - w.last_progress) stall_timeout
    then (true, record w { last_progress = t.now })
    else (false, w)

-- The ticks until the watchdog is stopped: for each, whether it cancelled the fetch.
unfoldable pub watch : List Check → Watchdog → List Bool
unfolding check_stall
watch [] w = []
watch (t ∷ ts) w = let (cancelled, w') = check_stall t w in cancelled ∷ watch ts w'

abbrev pub any_true : List Bool → Bool
any_true [] = false
any_true (b ∷ bs) = if b then true else any_true bs

-- The counts rise from each tick to the next.
abbrev pub is_rising : Option ℕ → List Check → Bool
is_rising last [] = true
is_rising last (t ∷ ts) = has_advanced t.fetches last && is_rising (some t.fetches) ts

-- A reader whose count of fetches rises at every tick is never cancelled, whatever the clock shows.
pub watch-rising :
    (ts : List Check) (w : Watchdog)
    → is_rising w.last_fetches ts ≡ true
    → any_true (watch ts w) ≡ false
unfolding watch
watch-rising [] w h = refl
watch-rising (t ∷ ts) w h =
    ground
      (arith, watch-rising ts (record { last_fetches = some t.fetches; last_progress = t.now }), h)

-- A tick `k` intervals after the time `start`.
abbrev pub check_after : ℕ → ℕ → ℕ → Check
check_after start k fetches = record { fetches = fetches; now = start + k * stall_check_interval }

-- A reader whose count of fetches does not rise is cancelled at the third tick after its last
-- progress, and not before.
pub watch-stalled :
    (start last f₁ f₂ f₃ : ℕ)
    → f₁ ≤ last
    → f₂ ≤ last
    → f₃ ≤ last
    → watch
        (check_after start 1 f₁ ∷ check_after start 2 f₂ ∷ check_after start 3 f₃ ∷ [])
        (record { last_fetches = some last; last_progress = start })
      ≡ false ∷ false ∷ true ∷ []
unfolding watch
watch-stalled start last f₁ f₂ f₃ a b c = ground (arith, a, b, c)

-- `Stats` of the reader counts since the call before, so a reader that has made `counter k` fetches
-- by the `k`-th tick shows the difference. One that makes the same number of fetches in every
-- interval, however many, is cancelled at the fourth tick.
pub watch-steady :
    (counter : ℕ → ℕ) (rate start : ℕ) (w : Watchdog)
    → ((k : ℕ) → counter (suc k) ≡ counter k + rate)
    → w.last_fetches ≡ none
    → watch
        (check_after start 1 (counter 1 - counter 0)
          ∷ check_after start 2 (counter 2 - counter 1)
          ∷ check_after start 3 (counter 3 - counter 2)
          ∷ check_after start 4 (counter 4 - counter 3)
          ∷ [])
        w
      ≡ false ∷ false ∷ false ∷ true ∷ []
unfolding watch
watch-steady counter rate start w step h = rw h (ground (arith, step 0, step 1, step 2, step 3))
