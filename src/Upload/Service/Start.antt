-- ===== src/Upload/Service/Start.antt =====
-- StartAnalysis, startAnalysisJob, RetryAnalysis, ArchiveDataset, GetAnalysisStatus and
-- UpdateAnalysisStatus of backend/upload-service/internal/service/service.go and management.go. The
-- message broker is a list of the events sent; whether it takes the next one is an argument. The
-- repository is the one of Upload/Repository.antt, so it supports every optional interface, and each
-- of its calls has a connection. uuid.New and time.Now are arguments, and logging is left out.
use anti_fraud_detector.Prelude.{ℕ, String, Bool, true, false, not, List, ◌∷◌, ◌==◌, if◌then◌else◌}
use anti_fraud_detector.Prelude.Text.{base}
use anti_fraud_detector.Upload.Domain.{Uuid, Time, AnalysisJob, UploadedFile, uploaded, failed}
use anti_fraud_detector.Upload.Db.{
  DbError, driver, no_rows, constraint, correlation, retry_not_allowed, dataset_archived,
  archive_active, Db, Conn, Result, done, fail, in_tx, auto_commit,
}
use anti_fraud_detector.Upload.Repository.Rows.{
  get_uploaded_file_by_dataset_id, get_latest_analysis_job_by_dataset_id, get_analysis_job_by_id,
  create_analysis_job,
}
use anti_fraud_detector.Upload.Repository.Lifecycle.{
  claim_analysis_start, update_analysis_status_with_error,
}

-- datasetUploadedEvent.
pub record UploadEvent : Type 0 where
  pub dataset_id : Uuid
  pub job_id : Uuid
  pub filename : String
  pub file_path : String
  pub file_type : String
  pub uploaded_at : Time
  pub timestamp : Time

pub record World : Type 0 where
  pub db : Db
  pub outbox : List UploadEvent

-- NotFoundError, InvalidUploadError, and other errors.
pub data ServiceError : Type 0 where
  not_found : String → ServiceError
  invalid_upload : String → ServiceError
  internal : String → ServiceError

pub data Answer {ℓ} (A : Type ℓ) : Type ℓ where
  answer : A → Answer A
  refuse : ServiceError → Answer A

-- Error() of the repository's errors.
unfoldable pub error_text : DbError → String
error_text retry_not_allowed = "only completed or failed jobs can be retried"
error_text dataset_archived = "dataset is archived"
error_text archive_active = "dataset has an active analysis job"
error_text correlation = "dataset and job correlation mismatch"
error_text no_rows = "sql: no rows in result set"
error_text constraint = "constraint violation"
error_text driver = "connection failure"

-- sql.ErrNoRows becomes a NotFoundError.
unfoldable pub missing : String → DbError → ServiceError
missing resource no_rows = not_found resource
missing resource e = internal (error_text e)

abbrev pub dispatch_failed : String
dispatch_failed = "Failed to publish dataset.uploaded event."

abbrev uploaded_event : UploadedFile → AnalysisJob → Time → UploadEvent
uploaded_event file job now = record {
  dataset_id = job.dataset_id;
  job_id = job.id;
  filename = base file.file_path;
  file_path = file.file_path;
  file_type = file.file_type;
  uploaded_at = file.uploaded_at;
  timestamp = now;
}

-- The publication of a claimed job, and what is written if it fails; the id that the code returns
-- beside the error is left out. `mentions` is the test of the
-- error message in UpdateAnalysisStatusWithError.
unfoldable pub dispatch :
    (String → Bool) → Bool → Conn → UploadedFile → AnalysisJob → Time → World → Answer Uuid × World
dispatch mentions sent conn file job now w =
    if sent
    then (answer job.id, record w { outbox = uploaded_event file job now ∷ w.outbox })
    else let marked =
        in_tx
          (update_analysis_status_with_error mentions job.id failed job.current_step dispatch_failed
            now)
          conn w.db in
      (refuse (internal "publish event"), record w { db = marked.1 })

unfoldable pub claimed_result :
    (String → Bool)
    → Bool
    → Conn
    → UploadedFile
    → AnalysisJob
    → Time
    → List UploadEvent
    → Result Bool × Db
    → Answer Uuid × World
unfolding dispatch
claimed_result mentions sent conn file job now outbox (fail dataset_archived, db) =
    (refuse (invalid_upload "dataset is archived"), record { db = db; outbox = outbox })
claimed_result mentions sent conn file job now outbox (fail e, db) =
    (refuse (internal "claim analysis start"), record { db = db; outbox = outbox })
claimed_result mentions sent conn file job now outbox (done false, db) =
    (answer job.id, record { db = db; outbox = outbox })
claimed_result mentions sent conn file job now outbox (done true, db) =
    dispatch mentions sent conn file job now (record { db = db; outbox = outbox })

unfoldable pub start_analysis_job :
    (String → Bool)
    → Bool
    → Conn
    → Conn
    → UploadedFile
    → AnalysisJob
    → Time
    → World
    → Answer Uuid × World
unfolding claimed_result
start_analysis_job mentions sent conn conn' file job now w =
    if not (job.status == uploaded)
    then (answer job.id, w)
    else claimed_result mentions sent conn' file job now w.outbox
        (in_tx (claim_analysis_start job.id now) conn w.db)

-- What a run needs from outside: the connections of its calls, whether the broker takes the event,
-- a fresh id and the time.
pub record Run : Type 0 where
  pub conns : ℕ → Conn
  pub sent : Bool
  pub fresh : Uuid
  pub now : Time

-- The job that is started: the latest of the dataset, or a new one.
latest_or_new : Run → Uuid → Db → Result AnalysisJob × Db
latest_or_new run dataset_id db =
    elim (auto_commit (get_latest_analysis_job_by_dataset_id dataset_id) (run.conns 1) db).0 [
      | done job ↦ (done job, db)
      | fail e ↦ elim e [
        | no_rows ↦
            let (created, db') =
              auto_commit
                (create_analysis_job run.fresh dataset_id uploaded uploaded run.now run.now)
                (run.conns 2) db in
            elim created [
              | done _ ↦ ((auto_commit (get_analysis_job_by_id run.fresh) (run.conns 3) db').0, db')
              | fail e' ↦ (fail e', db')
            ]
        | other ↦ (fail other, db)
      ]
    ]

start_found :
    (String → Bool)
    → Run
    → UploadedFile
    → Result AnalysisJob × Db
    → List UploadEvent
    → Answer Uuid × World
start_found mentions run file (done job, db) outbox =
    start_analysis_job mentions run.sent (run.conns 4) (run.conns 5) file job run.now
      (record { db = db; outbox = outbox })
start_found mentions run file (fail e, db) outbox =
    (refuse (internal "get analysis job"), record { db = db; outbox = outbox })

unfoldable pub start_analysis : (String → Bool) → Run → Uuid → World → Answer Uuid × World
unfolding latest_or_new start_found missing
start_analysis mentions run dataset_id w =
    elim (auto_commit (get_uploaded_file_by_dataset_id dataset_id) (run.conns 0) w.db).0 [
      | done file ↦ start_found mentions run file (latest_or_new run dataset_id w.db) w.outbox
      | fail e ↦ (refuse (missing "dataset" e), w)
    ]
