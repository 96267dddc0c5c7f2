-- ===== src/Upload/Status/View.antt =====
-- buildAnalysisStatusResponse and what it calls. Ids are left as they are, where the code prints them.
use anti_fraud_detector.Prelude.{
  ℕ, suc, String, Bool, true, false, ◌&&◌, ◌||◌, Option, List, [], ◌∷◌, ◌==◌, if◌then◌else◌, eqb,
  ltb,
}
use anti_fraud_detector.Prelude.Text.{CaseTable, to_upper, trim_space}
use anti_fraud_detector.Upload.Domain.{
  Uuid, Time, AnalysisJob, uploaded, normalizing, normalized, building_relations, scoring,
  completed, failed, ordered_pipeline_statuses,
}

pub record StatusStage : Type 0 where
  pub status : String
  pub message : String
  pub state : String

pub record AnalysisStatusResponse : Type 0 where
  pub job_id : Uuid
  pub dataset_id : Uuid
  pub status : String
  pub current_step : String
  pub message : String
  pub progress_percent : ℕ
  pub stages : List StatusStage
  pub error : String
  pub failed_stage : String
  pub result_ready : Bool
  pub retry_of_job_id : Option Uuid
  pub created_at : Time
  pub updated_at : Time
  pub started_at : Option Time
  pub completed_at : Option Time
  pub failed_at : Option Time

unfoldable pub status_message : String → String
status_message status =
    if status == uploaded
    then "Dataset uploaded and ready to start analysis."
    else if status == normalizing
    then "Normalizing CSV columns and refund records."
    else if status == normalized
    then "Dataset normalized and ready for relation building."
    else if status == building_relations
    then "Building customer, order, return and support-agent relations."
    else if status == scoring
    then "Calculating refund approval risk scores."
    else if status == completed
    then "Analysis completed. Risk results are ready for review."
    else if status == failed
    then "Analysis failed. Check the error message for details."
    else "Analysis status is being updated."

unfoldable pub status_progress : String → ℕ
status_progress status =
    if status == uploaded
    then 0
    else if status == normalizing
    then 20
    else if status == normalized
    then 40
    else if status == building_relations
    then 60
    else if status == scoring
    then 80
    else if status == completed
    then 100
    else 0

index_from : ℕ → String → List String → ℕ
index_from i status [] = 0
index_from i status (candidate ∷ candidates) =
    let rest = index_from (suc i) status candidates in if candidate == status then i else rest

unfoldable pub status_index : String → ℕ
unfolding index_from
status_index status = index_from 0 status ordered_pipeline_statuses

-- The `switch` in the loop of buildStatusStages.
unfoldable pub stage_state : String → String → ℕ → ℕ → String → String
stage_state status current_step current_index index stage_status =
    if status == failed
      && (stage_status == current_step || (current_step == failed && eqb index current_index))
    then "failed"
    else if status == completed || ltb index current_index
    then "completed"
    else if eqb index current_index
    then "current"
    else "pending"

stages_from : ℕ → String → String → ℕ → List String → List StatusStage
stages_from index status current_step current_index [] = []
stages_from index status current_step current_index (stage_status ∷ rest) =
    record {
      status = stage_status;
      message = status_message stage_status;
      state = stage_state status current_step current_index index stage_status;
    }
    ∷ stages_from (suc index) status current_step current_index rest

unfoldable pub build_status_stages : String → String → List StatusStage
unfolding stages_from stage_state
build_status_stages status current_step =
    let step_index = status_index current_step in
    let status_idx = status_index status in
    let current_index = if ltb step_index status_idx then status_idx else step_index in
    stages_from 0 status current_step current_index ordered_pipeline_statuses

unfoldable pub build_analysis_status_response : CaseTable → AnalysisJob → AnalysisStatusResponse
build_analysis_status_response u job =
    let status = to_upper u (trim_space job.status) in
    let step = to_upper u (trim_space job.current_step) in
    let current_step = if step == "" then status else step in
    record {
      job_id = job.id;
      dataset_id = job.dataset_id;
      status = status;
      current_step = current_step;
      message =
          if status == failed && (if job.error == "" then false else true)
          then job.error
          else status_message status;
      progress_percent =
          if status == failed then status_progress current_step else status_progress status;
      stages = build_status_stages status current_step;
      error = job.error;
      failed_stage = job.failed_stage;
      result_ready = job.result_ready || status == completed;
      retry_of_job_id = job.retry_of_job_id;
      created_at = job.created_at;
      updated_at = job.updated_at;
      started_at = job.started_at;
      completed_at = job.completed_at;
      failed_at = job.failed_at;
    }
