-- ===== src/Upload/Repository/Lifecycle.antt =====
-- ClaimAnalysisStart, UpdateAnalysisStatusWithError, TransitionFromEvent, CreateRetryJob and
-- ArchiveDataset of backend/upload-service/internal/repository/repository.go.
use anti_fraud_detector.Prelude.{
  String, Bool, true, false, ◌&&◌, ◌||◌, not, Option, none, some, List, ◌==◌, if◌then◌else◌, eqb,
  ltb, find, ◌<>◌,
}
use anti_fraud_detector.Upload.Domain.{
  Uuid, Time, Dataset, AnalysisJob, uploaded, normalizing, completed, failed, among, is_terminal,
}
use anti_fraud_detector.Upload.Db.{
  correlation, retry_not_allowed, dataset_archived, archive_active, Db, Tx, ◌>>=◌, ◌>>◌, return,
  raise, exec, query_row, find_job, find_dataset, count_active, retries, insert_job, update_job,
  set_dataset_status, update_datasets,
}
use anti_fraud_detector.Upload.Repository.Rows.{
  insert_audit, new_job, job_with_dataset, is_some, coalesce, case_when,
}

abbrev pub start_job : Time → AnalysisJob → AnalysisJob
start_job now j = record j {
  status = normalizing;
  current_step = normalizing;
  error = "";
  failed_stage = "";
  result_ready = false;
  started_at = coalesce j.started_at now;
  updated_at = now;
}

claim_row : Uuid → Time → AnalysisJob × Dataset → Tx Bool
claim_row job_id now (job, dataset) =
    if is_some dataset.archived_at
    then raise dataset_archived
    else if not (job.status == uploaded)
    then return false
    else do
      exec (update_job job_id (start_job now))
      exec (set_dataset_status job.dataset_id normalizing)
      insert_audit job.dataset_id (some job_id) "analysis.started" job.status normalizing
          "Analysis start claimed and dataset.uploaded dispatch requested." now
      return true

unfoldable pub claim_analysis_start : Uuid → Time → Tx Bool
unfolding claim_row
claim_analysis_start job_id now = do
  row ← query_row (job_with_dataset job_id)
  claim_row job_id now row

-- The UPDATE that UpdateAnalysisStatusWithError and TransitionFromEvent share.
abbrev pub set_job : String → String → String → String → Time → AnalysisJob → AnalysisJob
set_job status current_step failed_stage error now j = record j {
  status = status;
  current_step = current_step;
  failed_stage = failed_stage;
  error = error;
  result_ready = status == completed;
  updated_at = now;
  completed_at = case_when (status == completed) now j.completed_at;
  failed_at = case_when (status == failed) now j.failed_at;
}

-- strings.Contains(errorMessage, "dataset.uploaded") is the argument `mentions_upload`.
unfoldable pub update_analysis_status_with_error :
    (String → Bool) → Uuid → String → String → String → Time → Tx (Unit {0})
update_analysis_status_with_error mentions_upload job_id status current_step error_message
      updated_at =
    do
      job ← query_row (λ db. find_job job_id db.jobs)
      let failed_stage = if status == failed then current_step else ""
      exec (update_job job_id (set_job status current_step failed_stage error_message updated_at))
      exec (set_dataset_status job.dataset_id status)
      let event_type =
          if status == failed && mentions_upload error_message
          then "analysis.dispatch.failed"
          else "analysis.status.admin"
      insert_audit job.dataset_id (some job_id) event_type job.status status error_message
          updated_at

transition_row :
    Uuid
    → Uuid
    → String
    → List String
    → String
    → String
    → String
    → String
    → Time
    → AnalysisJob
    → Tx Bool
transition_row job_id dataset_id event_type allowed to_status current_step failed_stage error now
      job =
    if not (eqb job.dataset_id dataset_id)
    then raise correlation
    else if job.status == to_status || job.status == completed || job.status == failed
    then return false
    else if not (among job.status allowed)
    then return false
    else do
      exec (update_job job_id (set_job to_status current_step failed_stage error now))
      exec (set_dataset_status dataset_id to_status)
      insert_audit dataset_id (some job_id) event_type job.status to_status error now
      return true

unfoldable pub transition_from_event :
    Uuid → Uuid → String → List String → String → String → String → String → Time → Tx Bool
unfolding transition_row
transition_from_event job_id dataset_id event_type allowed to_status current_step failed_stage error
      now =
    do
      job ← query_row (λ db. find_job job_id db.jobs)
      transition_row job_id dataset_id event_type allowed to_status current_step failed_stage error
          now job

-- The part of CreateRetryJob after its guards on the source job. The name of the source in the audit
-- message is the argument `shown`.
create_retry_row : String → Uuid → Uuid → Uuid → String → Time → Tx Bool
create_retry_row shown source_job_id new_job_id dataset_id source_status now = do
  active ← query_row (λ db. some (count_active dataset_id db.jobs))
  if ltb 0 active then raise retry_not_allowed else (do
    exec (insert_job (new_job new_job_id dataset_id uploaded uploaded (some source_job_id) now now))
    exec (set_dataset_status dataset_id uploaded)
    insert_audit dataset_id (some new_job_id) "analysis.retry.created" source_status uploaded
        ("Retry created from job " <> shown <> ".") now
    return true)

retry_existing : Db → Uuid → Option (Option AnalysisJob)
retry_existing db source = some (find (retries source) db.jobs)

retry_row : String → Uuid → Uuid → Time → AnalysisJob × Dataset → Tx (Option AnalysisJob)
unfolding create_retry_row retry_existing
retry_row shown source_job_id new_job_id now (job, dataset) =
    if is_some dataset.archived_at
    then raise dataset_archived
    else if not (is_terminal job.status)
    then raise retry_not_allowed
    else do
      found ← query_row (λ db. retry_existing db source_job_id)
      elim found [
        | some existing ↦ return (some existing)
        | none ↦ do
          _ ← create_retry_row shown source_job_id new_job_id job.dataset_id job.status now
          return none
      ]

-- CreateRetryJob up to its COMMIT: an existing retry, or none for one that was created. The method
-- then reads the created row with GetAnalysisJobByID.
unfoldable pub create_retry_job : String → Uuid → Uuid → Time → Tx (Option AnalysisJob)
unfolding retry_row
create_retry_job shown source_job_id new_job_id now = do
  row ← query_row (job_with_dataset source_job_id)
  retry_row shown source_job_id new_job_id now row

archive_row : Uuid → Time → Dataset → Tx (Unit {0})
archive_row dataset_id now dataset = if is_some dataset.archived_at then return tt else do
  active ← query_row (λ db. some (count_active dataset_id db.jobs))
  if ltb 0 active then raise archive_active else (do
    exec (λ db. some (record db {
      datasets = update_datasets dataset_id (λ d. record d { archived_at = some now }) db.datasets;
    }))
    insert_audit dataset_id none "dataset.archived" "" "ARCHIVED"
        "Dataset archived; artifacts and analysis history retained." now)

unfoldable pub archive_dataset : Uuid → Time → Tx (Unit {0})
unfolding archive_row
archive_dataset dataset_id now = do
  dataset ← query_row (λ db. find_dataset dataset_id db.datasets)
  archive_row dataset_id now dataset
