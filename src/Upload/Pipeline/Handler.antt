-- ===== src/Upload/Pipeline/Handler.antt =====
-- HandlePipelineEvent, normalizeFailedStage and readablePipelineError of
-- backend/upload-service/internal/service/orchestration.go.
use Prim.Native.Char.{Char, code}
use anti_fraud_detector.Prelude.{
  String, Bool, ◌&&◌, ◌||◌, not, Option, none, some, List, [], ◌∷◌, ◌==◌, if◌then◌else◌, eqb, ltb,
  ◌<>◌,
}
use anti_fraud_detector.Prelude.Text.{
  CaseTable, to_upper, to_lower, trim_space, keep_runes, count_runes, take_runes,
}
use anti_fraud_detector.Upload.Domain.{
  Uuid, Time, uploaded, normalizing, normalized, building_relations, scoring, completed, failed,
}
use anti_fraud_detector.Upload.Db.{DbError, Db, Conn, Result, done, fail, in_tx}
use anti_fraud_detector.Upload.Repository.Lifecycle.{transition_from_event}

abbrev pub dataset_normalized_routing_key : String
dataset_normalized_routing_key = "dataset.normalized"

abbrev pub relations_built_routing_key : String
relations_built_routing_key = "refund.relations.built"

abbrev pub scoring_completed_routing_key : String
scoring_completed_routing_key = "refund.scoring.completed"

abbrev pub pipeline_failed_routing_key : String
pipeline_failed_routing_key = "pipeline.failed"

-- The fields that the handler reads.
pub record PipelineEvent : Type 0 where
  pub dataset_id : String
  pub job_id : String
  pub failed_step : String
  pub error_message : String
  pub stage : String
  pub message : String

-- A PermanentEventError, or an error that may go away.
pub data EventError : Type 0 where
  permanent : String → EventError
  transient : DbError → EventError

unfoldable pub normalize_failed_stage : CaseTable → String → String
normalize_failed_stage u raw =
    let value = to_upper u (trim_space raw) in
    if value == "UPLOAD" || value == "UPLOADED"
    then uploaded
    else if value == "NORMALIZATION" || value == "NORMALIZING" || value == "NORMALIZED"
    then normalizing
    else if value == "RELATIONS" || value == "BUILDING_RELATIONS"
    then building_relations
    else if value == "SCORING"
    then scoring
    else failed

is_printable : Char → Bool
is_printable r = not (ltb (code r) 32 && not (eqb (code r) 9))

unfoldable pub readable_pipeline_error : CaseTable → String → String → String
unfolding is_printable
readable_pipeline_error u raw stage =
    let cleaned = trim_space (keep_runes is_printable raw) in
    let message =
      if cleaned == "" then "Pipeline failed during " <> to_lower u stage <> "." else cleaned in
    if ltb 500 (count_runes message) then take_runes 500 message else message

-- What the `switch` on the routing key sets.
pub record Move : Type 0 where
  pub allowed : List String
  pub status : String
  pub current_step : String
  pub failed_stage : String
  pub message : String

abbrev advance : List String → String → Move
advance allowed status = record {
  allowed = allowed;
  status = status;
  current_step = status;
  failed_stage = "";
  message = "";
}

unfoldable pub allowed_before : String → List String
allowed_before failed_stage =
    if failed_stage == uploaded
    then uploaded ∷ normalizing ∷ []
    else if failed_stage == normalizing
    then normalizing ∷ []
    else if failed_stage == building_relations
    then normalized ∷ building_relations ∷ []
    else if failed_stage == scoring
    then scoring ∷ []
    else uploaded ∷ normalizing ∷ normalized ∷ building_relations ∷ scoring ∷ []

unfoldable pub failure : CaseTable → PipelineEvent → Move
unfolding allowed_before
failure u event =
    let failed_step =
      if trim_space event.failed_step == "" then event.stage else event.failed_step in
    let failure_message =
      if trim_space event.error_message == "" then event.message else event.error_message in
    let failed_stage = normalize_failed_stage u failed_step in
    record {
      allowed = allowed_before failed_stage;
      status = failed;
      current_step = failed_stage;
      failed_stage = failed_stage;
      message = readable_pipeline_error u failure_message failed_stage;
    }

unfoldable pub plan_event : CaseTable → String → PipelineEvent → Option Move
unfolding failure
plan_event u routing_key event =
    if routing_key == dataset_normalized_routing_key
    then some (advance (normalizing ∷ []) building_relations)
    else if routing_key == relations_built_routing_key
    then some (advance (normalized ∷ building_relations ∷ []) scoring)
    else if routing_key == scoring_completed_routing_key
    then some (advance (scoring ∷ []) completed)
    else if routing_key == pipeline_failed_routing_key
    then some (failure u event)
    else none

-- How the error of the repository is reported.
unfoldable pub event_result : Result Bool → Option EventError
event_result (done changed) = none
event_result (fail DbError.correlation) =
    some (permanent "pipeline event datasetId/jobId correlation mismatch")
event_result (fail DbError.no_rows) = some (permanent "pipeline event references an unknown job")
event_result (fail e) = some (transient e)

unfoldable pub apply_move : String → Uuid → Uuid → Move → Time → Conn → Db → Result Bool × Db
apply_move routing_key dataset_id job_id move now = in_tx (
    transition_from_event job_id dataset_id routing_key move.allowed move.status move.current_step
      move.failed_stage move.message now)

-- What the guards before the call of the repository come to.
pub data Reading : Type 0 where
  refused : String → Reading
  accepted : Uuid → Uuid → Move → Reading

-- Nothing, or the error that the consumer sees, and the tables after it.
unfoldable pub react : String → Time → Conn → Db → Reading → Option EventError × Db
react routing_key now conn db (refused message) = (some (permanent message), db)
react routing_key now conn db (accepted dataset_id job_id move) =
    let (result, db') = apply_move routing_key dataset_id job_id move now conn db in
    (event_result result, db')

module _ {Body : Type 0} (u : CaseTable) (decode : Body → Option PipelineEvent)
    (parse_uuid : String → Option Uuid) where
  read_ids : String → PipelineEvent → Reading
  read_ids routing_key event = elim (parse_uuid (trim_space event.dataset_id)) [
    | none ↦ refused "pipeline event has invalid datasetId"
    | some dataset_id ↦ elim (parse_uuid (trim_space event.job_id)) [
      | none ↦ refused "pipeline event has invalid or missing jobId"
      | some job_id ↦ elim (plan_event u routing_key event) [
        | none ↦ refused "unsupported pipeline routing key"
        | some move ↦ accepted dataset_id job_id move
      ]
    ]
  ]

  unfoldable pub read_event : String → Body → Reading
  unfolding read_ids
  read_event routing_key body = elim (decode body) [
    | none ↦ refused "invalid pipeline event JSON"
    | some event ↦ read_ids routing_key event
  ]

  unfoldable pub handle_pipeline_event : String → Body → Time → Conn → Db → Option EventError × Db
  handle_pipeline_event routing_key body now conn db =
      react routing_key now conn db (read_event routing_key body)
