-- ===== src/Tests/StoreRuns.antt =====
-- Runs of the relations service of backend/relations-service: created with no options, one event that is
-- accepted, and a rebuild.
use anti_fraud_detector.Prelude.{ℕ, false, ◌≡◌, List, [], ◌∷◌}
use anti_fraud_detector.Relations.Records.{ok, err, dataset_not_found}
use anti_fraud_detector.Relations.Store.{NormalizedDatasetEvent, get_scoring_inputs}
use anti_fraud_detector.Relations.Store.Create.{Options, new_service}
use anti_fraud_detector.Relations.Store.Spec.{
  Operation, process, rebuild, run_store, run_service, new_store, scoring_answer,
}
use anti_fraud_detector.Relations.Store.Refines.{run-refines}
use anti_fraud_detector.Tests.Samples.{hundredths, demo_records, noon}

abbrev options : Options
options = record { dataset_id = ""; dataset_path = ""; allow_demo_fallback = false }

abbrev event : NormalizedDatasetEvent
event = record {
  dataset_id = "demo";
  job_id = "j1";
  records_path = "demo.csv";
  record_count = 4;
  schema_version = "";
}

abbrev operations : List (Operation ℕ)
operations = process event noon (ok demo_records) ∷ rebuild "demo" noon ∷ []

run-refines_example :
    get_scoring_inputs "" (
      run_service hundredths operations
        (new_service hundredths options noon (err dataset_not_found)))
    ≡ scoring_answer hundredths "demo"
        (run_store operations (new_store hundredths options noon (err dataset_not_found)) "demo")
run-refines_example = run-refines hundredths options noon (err dataset_not_found) operations ""
