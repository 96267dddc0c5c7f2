-- ===== src/Relations/Store/Spec.antt =====
-- The abstract service of backend/relations-service/internal/service/service.go: a map from dataset ids to
-- what was last accepted for them, with the answer that it gives to the scoring service.
use anti_fraud_detector.Prelude.{
  String, Option, none, some, List, [], ◌∷◌, ◌==◌, ◌&&◌, ◌||◌, not, if◌then◌else◌, length, map, eqb,
  ltb,
}
use anti_fraud_detector.Prelude.Floats.{FloatOps}
use anti_fraud_detector.Relations.Domain.{
  NormalizedReturnRecord, default_dataset_id, default_schema_version,
}
use anti_fraud_detector.Relations.Records.{dataset_not_found, Result, ok, err, validate_records}
use anti_fraud_detector.Relations.Features.{features_response}
use anti_fraud_detector.Relations.Store.{
  Service, DatasetState, Moment, NormalizedDatasetEvent, ScoringInputsResponse, or_text, new_state,
  rebuild_dataset, process_normalized_dataset,
}
use anti_fraud_detector.Relations.Store.Create.{Options, fallback_test_dataset}

-- What was accepted for a dataset.
pub record Entry (F : Type 0) : Type 0 where
  pub source : String
  pub schema_version : String
  pub moment : Moment
  pub records : List (NormalizedReturnRecord F)

abbrev pub Store : Type 0 → Type 0
Store F = String → Option (Entry F)

-- An event with the records that its path holds, or a rebuild of a dataset.
pub data Operation (F : Type 0) : Type 0 where
  process : NormalizedDatasetEvent → Moment → Result (List (NormalizedReturnRecord F)) → Operation F
  rebuild : String → Moment → Operation F

module _ {F : Type 0} where
  -- The event names a dataset and a path, the records are read, as many as announced, and valid.
  abbrev pub accepts :
      NormalizedDatasetEvent → Moment → Result (List (NormalizedReturnRecord F)) → Option (Entry F)
  accepts event moment (err e) = none
  accepts event moment (ok records) =
      if event.dataset_id == ""
        || event.records_path == ""
        || (ltb 0 event.record_count && not (eqb (length records) event.record_count))
      then none
      else elim (validate_records event.dataset_id records) [
        | err e ↦ none
        | ok _ ↦ some (record {
          source = event.records_path;
          schema_version = or_text event.schema_version default_schema_version;
          moment = moment;
          records = records;
        })
      ]

  -- The new entry of an accepted event replaces the one of its dataset; nothing else changes the store.
  abbrev pub put : String → Option (Entry F) → Store F → Store F
  put key none store k = store k
  put key (some entry) store k = if key == k then some entry else store k

  unfoldable pub run_store : List (Operation F) → Store F → Store F
  run_store [] store = store
  run_store (process event moment loaded ∷ rest) store =
      run_store rest (put event.dataset_id (accepts event moment loaded) store)
  run_store (rebuild dataset_id moment ∷ rest) store = run_store rest store

module _ {F : Type 0} (ops : FloatOps F) where
  unfoldable pub run_service : List (Operation F) → Service F → Service F
  run_service [] s = s
  run_service (process event moment loaded ∷ rest) s =
      run_service rest (process_normalized_dataset ops event moment loaded s).1
  run_service (rebuild dataset_id moment ∷ rest) s =
      run_service rest (rebuild_dataset dataset_id moment s).1

  abbrev pub state_of : String → Entry F → DatasetState F
  state_of k e = new_state ops k e.source e.schema_version e.moment e.records

  -- What the store answers to the scoring service.
  abbrev pub scoring_answer : String → Option (Entry F) → Result (ScoringInputsResponse F)
  scoring_answer k none = err dataset_not_found
  scoring_answer k (some e) = ok (record {
    dataset_id = k;
    schema_version = e.schema_version;
    feature_version = e.moment.nanos;
    calculated_at = e.moment.text;
    records = e.records;
    features = map (features_response ops k e.moment.nanos e.moment.text e.records) e.records;
  })

  -- What a new service holds: the configured file or the demo records, if they are valid.
  abbrev pub validated :
      String → String → Moment → List (NormalizedReturnRecord F) → Option (Entry F)
  validated dataset_id source moment records = elim (validate_records dataset_id records) [
    | err e ↦ none
    | ok _ ↦ some (record {
      source = source;
      schema_version = default_schema_version;
      moment = moment;
      records = records;
    })
  ]

  abbrev pub read_entry :
      String → String → Moment → Result (List (NormalizedReturnRecord F)) → Option (Entry F)
  read_entry dataset_id source moment (err e) = none
  read_entry dataset_id source moment (ok records) = validated dataset_id source moment records

  abbrev pub new_entry :
      Options → Moment → Result (List (NormalizedReturnRecord F)) → Option (Entry F)
  new_entry options moment loaded =
      let dataset_id = or_text options.dataset_id default_dataset_id in
      if not (options.dataset_path == "")
      then read_entry dataset_id options.dataset_path moment loaded
      else if options.allow_demo_fallback
      then validated dataset_id "embedded-demo-fallback" moment (fallback_test_dataset ops)
      else none

  abbrev pub new_store : Options → Moment → Result (List (NormalizedReturnRecord F)) → Store F
  new_store options moment loaded =
      put (or_text options.dataset_id default_dataset_id) (new_entry options moment loaded)
        (λ k. none)
