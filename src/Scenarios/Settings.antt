-- ===== src/Scenarios/Settings.antt =====
-- The theorems about settings and connections.
use workers_kafka.Prelude.{ℕ, ◌≡◌, refl, true, false, ltb, not, arith}
use workers_kafka.Environment.Connection.{
  Attempt, Answers, Tidy, connect, connected, connect_retries, connect-connected,
}

-- A test: the database answers from the third attempt on.
abbrev late : ℕ → Attempt
late i = record { opened = true; pinged = not (ltb i 3); cancelled = false }

late-Answers : Answers late 3
late-Answers = record { opened = refl; pinged = refl; waited = λ j h. refl }

-- The theorems at these settings.
connected_example :
    ((connect late).0 ≡ connected)
    × Tidy connect_retries (record { made = 0; closed = 0 }) (connect late)
connected_example = connect-connected late 3 late-Answers (omega arith) (omega arith)
