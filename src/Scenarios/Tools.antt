-- ===== src/Scenarios/Tools.antt =====
-- The theorems on the exporter and the load generator, at small tables.
use workers_kafka.Prelude.{
  ℕ, zero, ◌≡◌, refl, String, List, [], ◌∷◌, Option, none, some, false, arith, if◌then◌else◌,
  str_eq,
}
use workers_kafka.Domain.{Saga, OrderStatus, no_status, completed, payment_pending}
use workers_kafka.Exporter.{
  SagaGauges, AgedSaga, group_by_status, get_count, refresh_sagas, refresh_saga_ages, is_final,
  all_saga_statuses,
}
use workers_kafka.Exporter.Offsets.{EndOffset, CommittedOffset}
use workers_kafka.Exporter.Sagas.{count_in, refresh_sagas-counts, is_listed}
use workers_kafka.Exporter.Ages.{newest, refresh_saga_ages-newest}
use workers_kafka.LoadGenerator.{generate}
use workers_kafka.LoadGenerator.Ends.{Loaded, SentUpTo, generate-Loaded}
use workers_kafka.Scenarios.Outbox.{kafka, client}

-- Tests.
abbrev saga : String → OrderStatus → Saga
saga order_id status = record {
  order_id = order_id;
  current = status;
  previous = no_status;
  retry_count = 0;
  transaction_id = "";
}

abbrev sagas : List Saga
sagas = saga "a" completed ∷ saga "b" payment_pending ∷ saga "c" completed ∷ []

abbrev gauges : SagaGauges
gauges = record { by_status = []; pending_by_status = []; completed_total = 0; failed_total = 0 }

abbrev stuck_and_new : List AgedSaga
stuck_and_new =
    record { status = "PAYMENT_PENDING"; created_at = 0 }
    ∷ record { status = "PAYMENT_PENDING"; created_at = 995 }
    ∷ []

abbrev ends : String → List EndOffset
ends topic = record { partition = 0; last_offset = 9; has_error = false } ∷ []

abbrev commits : String → List CommittedOffset
commits topic =
    record { partition = 0; committed = some 4 } ∷ record { partition = 1; committed = none } ∷ []

abbrev fetch : String → Option (String → List CommittedOffset)
fetch group = if str_eq group "projector" then some commits else none

abbrev name : ℕ → String
name zero = "load-000000"
name _ = "load-000001"

-- The theorems at these tables.
counts_example :
    let g = refresh_sagas (some (group_by_status sagas)) gauges in
    (get_count "COMPLETED" g.by_status ≡ count_in "COMPLETED" sagas)
    × (get_count "COMPLETED" g.pending_by_status
        ≡ (if is_final "COMPLETED" then 0 else count_in "COMPLETED" sagas))
    × (g.completed_total ≡ count_in "COMPLETED" sagas)
    × (g.failed_total ≡ count_in "FAILED" sagas)
counts_example =
    refresh_sagas-counts sagas gauges "COMPLETED" (unfold is_listed all_saga_statuses in refl)

age_example : get_count "PAYMENT_PENDING" (refresh_saga_ages 1000 stuck_and_new) ≡ 5
unfolding newest is_final
age_example = refresh_saga_ages-newest 1000 stuck_and_new "PAYMENT_PENDING" refl

none_sent : SentUpTo kafka name 0 client
unfolding SentUpTo
none_sent n h = let no : ⊥ = omega (arith, h) in elim no [ ]

generated_example : Loaded kafka name 2 (generate kafka name 3 1 2 0 client)
generated_example = generate-Loaded kafka name 3 1 2 0 client (omega arith) (omega arith) none_sent
