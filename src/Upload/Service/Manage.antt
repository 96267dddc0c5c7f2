-- ===== src/Upload/Service/Manage.antt =====
-- RetryAnalysis, ArchiveDataset, GetAnalysisStatus and UpdateAnalysisStatus of
-- backend/upload-service/internal/service/management.go and service.go.
use anti_fraud_detector.Prelude.{String, Bool, not, Option, none, some, ◌==◌, if◌then◌else◌}
use anti_fraud_detector.Prelude.Text.{CaseTable, to_upper, trim_space}
use anti_fraud_detector.Upload.Domain.{Uuid, Time, AnalysisJob, failed, is_allowed_status}
use anti_fraud_detector.Upload.Db.{
  DbError, no_rows, retry_not_allowed, dataset_archived, archive_active, Db, Conn, Result, done,
  fail, in_tx, auto_commit,
}
use anti_fraud_detector.Upload.Repository.Rows.{
  get_uploaded_file_by_dataset_id, get_analysis_job_by_id,
}
use anti_fraud_detector.Upload.Repository.Lifecycle.{
  create_retry_job, archive_dataset, update_analysis_status_with_error,
}
use anti_fraud_detector.Upload.Status.View.{AnalysisStatusResponse, build_analysis_status_response}
use anti_fraud_detector.Upload.Service.Start.{
  World, ServiceError, not_found, invalid_upload, internal, Answer, answer, refuse, error_text,
  missing, Run, start_analysis_job,
}

-- CreateRetryJob: the existing retry, or the one that was created, read again.
retried_job : Run → Result (Option AnalysisJob) × Db → Result AnalysisJob × Db
retried_job run (fail e, db) = (fail e, db)
retried_job run (done (some existing), db) = (done existing, db)
retried_job run (done none, db) =
    ((auto_commit (get_analysis_job_by_id run.fresh) (run.conns 1) db).0, db)

retry_error : DbError → ServiceError
retry_error no_rows = not_found "analysis job"
retry_error retry_not_allowed = invalid_upload (error_text retry_not_allowed)
retry_error dataset_archived = invalid_upload (error_text dataset_archived)
retry_error e = internal (error_text e)

start_retry : (String → Bool) → Run → Result AnalysisJob × Db → World → Answer Uuid × World
unfolding missing retry_error
start_retry mentions run (fail e, db) w = (refuse (retry_error e), record w { db = db })
start_retry mentions run (done job, db) w =
    elim (auto_commit (get_uploaded_file_by_dataset_id job.dataset_id) (run.conns 2) db).0 [
      | done file ↦
          start_analysis_job mentions run.sent (run.conns 3) (run.conns 4) file job run.now
            (record w { db = db })
      | fail e ↦ (refuse (missing "dataset artifact" e), record w { db = db })
    ]

unfoldable pub retry_analysis : (String → Bool) → String → Run → Uuid → World → Answer Uuid × World
unfolding retried_job start_retry
retry_analysis mentions shown run source_job_id w =
    start_retry mentions run
      (retried_job run
        (in_tx (create_retry_job shown source_job_id run.fresh run.now) (run.conns 0) w.db))
      w

archive_result : Result (Unit {0}) → Option ServiceError
archive_result (done _) = none
archive_result (fail no_rows) = some (not_found "dataset")
archive_result (fail archive_active) = some (invalid_upload (error_text archive_active))
archive_result (fail e) = some (internal (error_text e))

-- ArchiveDataset of the service.
unfoldable pub archive : Conn → Uuid → Time → Db → Option ServiceError × Db
unfolding archive_result
archive conn dataset_id now db =
    let (result, db') = in_tx (archive_dataset dataset_id now) conn db in
    (archive_result result, db')

unfoldable pub get_analysis_status : CaseTable → Conn → Uuid → Db → Answer AnalysisStatusResponse
unfolding missing
get_analysis_status u conn job_id db =
    elim (auto_commit (get_analysis_job_by_id job_id) conn db).0 [
      | done job ↦ answer (build_analysis_status_response u job)
      | fail e ↦ refuse (missing "analysis job" e)
    ]

-- The step that is recorded: that of the job if it is marked as failed, else the status itself.
step_for : String → Conn → Uuid → Db → Result String
step_for status conn job_id db =
    if status == failed
    then elim (auto_commit (get_analysis_job_by_id job_id) conn db).0 [
      | done job ↦ done (if job.current_step == "" then failed else job.current_step)
      | fail e ↦ fail e
    ]
    else done status

write_status :
    (String → Bool)
    → CaseTable
    → Run
    → Uuid
    → String
    → String
    → Result String
    → Db
    → Answer AnalysisStatusResponse × Db
unfolding missing
write_status mentions u run job_id status error_message (fail e) db =
    (refuse (missing "analysis job" e), db)
write_status mentions u run job_id status error_message (done step) db =
    let (result, db') =
      in_tx (update_analysis_status_with_error mentions job_id status step error_message run.now)
        (run.conns 1) db in
    elim result [
      | done _ ↦ (get_analysis_status u (run.conns 2) job_id db', db')
      | fail e ↦ (refuse (missing "analysis job" e), db')
    ]

unfoldable pub update_analysis_status :
    (String → Bool)
    → CaseTable
    → Run
    → Uuid
    → String
    → String
    → Db
    → Answer AnalysisStatusResponse × Db
unfolding step_for write_status
update_analysis_status mentions u run job_id raw error_message db =
    let status = to_upper u (trim_space raw) in
    if status == ""
    then (refuse (invalid_upload "analysis status is required"), db)
    else if not (is_allowed_status status)
    then (refuse (invalid_upload "unsupported analysis status"), db)
    else write_status mentions u run job_id status error_message
        (step_for status (run.conns 0) job_id db) db
