-- ===== src/Relations/Store.antt =====
-- The datasets that the service holds: replaceDataset, requireDataset, RebuildDataset,
-- ProcessNormalizedDataset, GetScoringInputs and the lookups by return of
-- backend/relations-service/internal/service/service.go. A map from dataset ids to states is an
-- association list; each method runs under the mutex and is one step. The clock gives the version and
-- the text of the time, the publisher takes an event or not, and events sent are a list.
mod Types
pub mod Laws
pub mod Create
pub mod Spec
pub mod Refines
pub use Types.*
use anti_fraud_detector.Prelude.{
  ℕ, ◌*◌, String, Bool, true, false, ◌&&◌, not, Option, none, some, List, [], ◌∷◌, ◌==◌,
  if◌then◌else◌, length, eqb, ltb, ◌<>◌,
}
use anti_fraud_detector.Prelude.Dict.{lookup, insert}
use anti_fraud_detector.Prelude.Floats.{FloatOps, itoa}
use anti_fraud_detector.Relations.Domain.{
  NormalizedReturnRecord, ReturnFeaturesResponse, DatasetMetadata, default_dataset_id,
  default_schema_version,
}
use anti_fraud_detector.Relations.Features.{build_feature_cache}
use anti_fraud_detector.Relations.Records.{
  ServiceError, dataset_not_found, return_not_found, invalid_dataset, other, Result, ok, err, ◌>>=◌,
  ◌>>◌, find_record, validate_records,
}

abbrev pub or_text : String → String → String
or_text value fallback = if value == "" then fallback else value

module _ {F : Type 0} (ops : FloatOps F) where
  unfoldable pub new_state :
      String → String → String → Moment → List (NormalizedReturnRecord F) → DatasetState F
  new_state dataset_id source schema_version moment records = record {
    metadata = record {
      dataset_id = dataset_id;
      records_count = length records;
      schema_version = schema_version;
      source = source;
      feature_version = moment.nanos;
      loaded_at = moment.text;
      calculated_at = moment.text;
    };
    records = records;
    features = build_feature_cache ops dataset_id moment.nanos moment.text records;
    relations = length records * 7;
  }

  unfoldable pub replace_dataset :
      String
      → String
      → String
      → Moment
      → List (NormalizedReturnRecord F)
      → Service F
      → Result (DatasetState F) × Service F
  replace_dataset dataset_id source schema_version moment records s =
      if dataset_id == ""
      then (err (invalid_dataset "datasetId is required"), s)
      else elim (validate_records dataset_id records) [
        | err e ↦ (err e, s)
        | ok _ ↦
            let state =
              new_state dataset_id source (or_text schema_version default_schema_version) moment
                records in
            (ok state, record s { datasets = insert dataset_id state s.datasets })
      ]

module _ {F : Type 0} where
  -- The copy that the code hands out is the state itself.
  unfoldable pub require_dataset : String → Service F → Result (DatasetState F)
  require_dataset dataset_id s = elim (lookup (or_text dataset_id default_dataset_id) s.datasets) [
    | none ↦ err dataset_not_found
    | some state ↦ ok state
  ]

  built_event : String → String → Moment → DatasetState F → RelationsBuiltEvent
  built_event dataset_id job_id moment state = record {
    dataset_id = dataset_id;
    job_id = job_id;
    records_path = state.metadata.source;
    records_count = state.metadata.records_count;
    relations_count = state.relations;
    features_count = length state.features;
    schema_version = state.metadata.schema_version;
    feature_version = state.metadata.feature_version;
    published_at = moment.text;
  }

  abbrev send : Moment → Message → Service F → Result (Unit {0}) × Service F
  send moment message s =
      if moment.takes
      then (ok tt, record s { sent = message ∷ s.sent })
      else (err (other "publish"), s)

  unfoldable pub publish_relations_built :
      String → String → Moment → DatasetState F → Service F → Result (Unit {0}) × Service F
  unfolding built_event
  publish_relations_built dataset_id job_id moment state =
      send moment (relations_built (built_event dataset_id job_id moment state))

  unfoldable pub publish_pipeline_failed :
      NormalizedDatasetEvent → Moment → ServiceError → Service F → Service F
  publish_pipeline_failed event moment cause s =
      (send moment
        (pipeline_failed (record {
          dataset_id = event.dataset_id;
          job_id = event.job_id;
          stage = "RELATIONS";
          cause = cause;
          failed_at = moment.text;
        }))
        s).1

  rebuild_response : DatasetState F → String → String → DatasetRebuildResponse
  rebuild_response state job_id status = record {
    dataset_id = state.metadata.dataset_id;
    job_id = job_id;
    status = status;
    relations_count = state.relations;
    features_count = length state.features;
    records_count = state.metadata.records_count;
    schema_version = state.metadata.schema_version;
    feature_version = state.metadata.feature_version;
    calculated_at = state.metadata.calculated_at;
  }

  unfoldable pub rebuild_dataset :
      String → Moment → Service F → Result DatasetRebuildResponse × Service F
  unfolding rebuild_response
  rebuild_dataset dataset_id moment s =
      let job_id = "relations-job-" <> dataset_id in
      elim (require_dataset dataset_id s) [
        | err e ↦ (err e, s)
        | ok state ↦
            let (sent, s') = publish_relations_built dataset_id job_id moment state s in
            elim sent [
              | err e ↦ (err e, s')
              | ok _ ↦ (ok (rebuild_response state job_id "RELATIONS_REBUILD_COMPLETED"), s')
            ]
      ]

  unfoldable pub features_in :
      List (String × ReturnFeaturesResponse F)
      → List (NormalizedReturnRecord F)
      → Result (List (ReturnFeaturesResponse F))
  features_in features [] = ok []
  features_in features (r ∷ rs) =
      let rest = features_in features rs in
      elim (lookup r.return_id features) [
        | none ↦ err (invalid_dataset ("features are missing for return " <> r.return_id))
        | some f ↦ rest >>= λ fs. ok (f ∷ fs)
      ]

  unfoldable pub get_scoring_inputs : String → Service F → Result (ScoringInputsResponse F)
  unfolding features_in
  get_scoring_inputs dataset_id s = do
    state ← require_dataset dataset_id s
    features ← features_in state.features state.records
    ok (record {
      dataset_id = state.metadata.dataset_id;
      schema_version = state.metadata.schema_version;
      feature_version = state.metadata.feature_version;
      calculated_at = state.metadata.calculated_at;
      records = state.records;
      features = features;
    })

  unfoldable pub get_return_features_for_dataset :
      String → String → Service F → Result (ReturnFeaturesResponse F)
  get_return_features_for_dataset dataset_id return_id s = do
    state ← require_dataset dataset_id s
    elim (lookup return_id state.features) [ none ↦ err return_not_found | some f ↦ ok f ]

module _ {F : Type 0} (ops : FloatOps F) where
  -- The check of the announced number of records, which 0 or less leaves out, and what follows.
  load_dataset :
      String
      → String
      → String
      → ℕ
      → Moment
      → Result (List (NormalizedReturnRecord F))
      → Service F
      → Result (DatasetState F) × Service F
  load_dataset dataset_id source schema_version expected moment (err e) s = (err e, s)
  load_dataset dataset_id source schema_version expected moment (ok records) s =
      if ltb 0 expected && not (eqb (length records) expected)
      then (
        err (
            invalid_dataset (
              "recordCount mismatch for dataset "
              <> dataset_id
              <> ": got "
              <> itoa (length records)
              <> " want "
              <> itoa expected)),
        s,
      )
      else replace_dataset ops dataset_id source schema_version moment records s

  -- ProcessNormalizedDataset, with what loadRecordsFromCSV finds at the path as an argument.
  finish_dataset :
      NormalizedDatasetEvent
      → Moment
      → Result (DatasetState F) × Service F
      → Result (Unit {0}) × Service F
  finish_dataset event moment (err e, s) = (err e, publish_pipeline_failed event moment e s)
  finish_dataset event moment (ok state, s) =
      publish_relations_built event.dataset_id event.job_id moment state s

  unfoldable pub process_normalized_dataset :
      NormalizedDatasetEvent
      → Moment
      → Result (List (NormalizedReturnRecord F))
      → Service F
      → Result (Unit {0}) × Service F
  unfolding load_dataset finish_dataset
  process_normalized_dataset event moment loaded s =
      let fail_with = λ (message : String).
        (let e = invalid_dataset message in
          let s' = publish_pipeline_failed event moment e s in
          let r : Result (Unit {0}) × Service F = (err e, s') in r) in
      if event.dataset_id == ""
      then fail_with "datasetId is required"
      else if event.records_path == ""
      then fail_with ("recordsPath is required for dataset " <> event.dataset_id)
      else finish_dataset event moment (
          load_dataset event.dataset_id event.records_path
            (or_text event.schema_version default_schema_version) event.record_count moment loaded
            s)
