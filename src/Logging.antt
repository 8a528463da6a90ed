-- ===== src/Logging.antt =====
-- Logs as values: internal/interfaces/logging.go, and the handler of
-- internal/infrastructure/logging/logging.go that adds the order and the trace to a line. Durations
-- and the fields that a line copies from its event are left out; the lines of a run are a list.
use workers_kafka.Prelude.{
  ℕ, suc, ◌+◌, ◌≤◌, ◌≡◌, refl, String, List, [], ◌∷◌, ◌++◌, Option, none, some, Bool, true, false,
  not, ◌&&◌, str_eq, if◌then◌else◌, arith, eq_refl,
}
use workers_kafka.Domain.{Event}
use workers_kafka.Errors.{Result, ok, err}

-- A line: its phase and its attributes.
abbrev pub Attributes : Type 0
Attributes = List (String × String)

pub data Phase : Type 0 where
  received processed failed : Phase

pub record Line : Type 0 where
  pub phase : Phase
  pub component : String
  pub event_id : String

abbrev pub outcome_phase : Result (Unit {0}) → Phase
outcome_phase (ok u) = processed
outcome_phase (err e) = failed

-- `WithLogging`, over the state of the handler and the lines written so far.
unfoldable pub with_logging :
    {S : Type 0}
    → String
    → (Event → S → Result (Unit {0}) × S)
    → Event
    → S × List Line
    → Result (Unit {0}) × (S × List Line)
with_logging component next event (s, lines) =
    let line : Phase → Line =
      λ p. record { phase = p; component = component; event_id = event.event_id } in
    let (r, s') = next event s in (r, (s', lines ++ (line received ∷ line (outcome_phase r) ∷ [])))

-- `recordHas`
unfoldable pub record_has : Attributes → String → Bool
record_has [] key = false
record_has ((k, v) ∷ rest) key = if str_eq k key then true else record_has rest key

-- `AddAttrs` of one attribute, where the record has none of that key.
abbrev pub add_missing : Attributes → String → String → Attributes
add_missing r key value =
    if not (str_eq value "") && not (record_has r key) then r ++ ((key, value) ∷ []) else r

abbrev pub add_span : Option (String × String) → Attributes → Attributes
add_span none r = r
add_span (some (trace, span)) r = r ++ (("trace_id", trace) ∷ ("span_id", span) ∷ [])

-- `Handle` up to the call of the next handler: `order_id` is that of the context, empty where it has
-- none, and the span is `none` where it is not valid.
unfoldable pub correlate : String → Option (String × String) → Attributes → Attributes
unfolding record_has
correlate order_id span r =
    let with_order = add_missing r "order_id" order_id in
    add_span span (add_missing with_order "correlation_id" order_id)

unfoldable pub count_key : Attributes → String → ℕ
count_key [] key = 0
count_key ((k, v) ∷ rest) key = let n = count_key rest key in if str_eq k key then suc n else n

count_key-append :
    (a b : Attributes) (key : String) → count_key (a ++ b) key ≡ count_key a key + count_key b key
unfolding count_key
count_key-append [] b key = omega arith
count_key-append ((k, v) ∷ a) b key = ground (arith, count_key-append a b key)

record_has-count_key :
    (r : Attributes) (key : String) → record_has r key ≡ false → count_key r key ≡ 0
unfolding record_has count_key
record_has-count_key [] key h = refl
record_has-count_key ((k, v) ∷ r) key h = ground (arith, h, record_has-count_key r key)

-- The wrapped handler returns what the handler returns, and leaves its state as the handler does.
with_logging-transparent :
    {S : Type 0} (component : String) (next : Event → S → Result (Unit {0}) × S) (event : Event)
    (s : S) (lines : List Line)
    → let o = with_logging component next event (s, lines) in
      (o.0 ≡ (next event s).0) × (o.1.0 ≡ (next event s).1)
unfolding with_logging
with_logging-transparent component next event s lines = (refl, refl)

add_missing-count :
    (r : Attributes) (key value : String)
    → count_key r key ≤ 1
    → count_key (add_missing r key value) key ≤ 1
unfolding count_key
add_missing-count r key value h =
    ground (
      arith,
      h,
      eq_refl key,
      record_has-count_key r key,
      count_key-append r ((key, value) ∷ []) key,
    )

add_missing-other :
    (r : Attributes) (key other value : String)
    → str_eq key other ≡ false
    → count_key (add_missing r key value) other ≡ count_key r other
unfolding count_key
add_missing-other r key other value h =
    ground (arith, h, count_key-append r ((key, value) ∷ []) other)

add_span-other :
    (span : Option (String × String)) (r : Attributes) (key : String)
    → str_eq "trace_id" key ≡ false
    → str_eq "span_id" key ≡ false
    → count_key (add_span span r) key ≡ count_key r key
unfolding count_key
add_span-other none r key h k = refl
add_span-other (some (trace, span)) r key h k =
    ground (arith, h, k, count_key-append r (("trace_id", trace) ∷ ("span_id", span) ∷ []) key)

-- A line that names its order and its correlation at most once still does so once the handler has
-- added those of the context.
correlate-once :
    (order_id : String) (span : Option (String × String)) (r : Attributes)
    → count_key r "order_id" ≤ 1
    → count_key r "correlation_id" ≤ 1
    → (count_key (correlate order_id span r) "order_id" ≤ 1)
      × (count_key (correlate order_id span r) "correlation_id" ≤ 1)
unfolding correlate
correlate-once order_id span r a b =
    let first = add_missing r "order_id" order_id in
    let second = add_missing first "correlation_id" order_id in
    (
      omega (
        arith,
        add_span-other span second "order_id" refl refl,
        add_missing-other first "correlation_id" "order_id" order_id refl,
        add_missing-count r "order_id" order_id a,
      ),
      omega (
        arith,
        add_span-other span second "correlation_id" refl refl,
        add_missing-count first "correlation_id" order_id
            (omega (arith, add_missing-other r "order_id" "correlation_id" order_id refl, b)),
      ),
    )
