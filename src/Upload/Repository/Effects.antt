-- ===== src/Upload/Repository/Effects.antt =====
-- What the other transactions of the repository do to the tables, in one statement for each.
use anti_fraud_detector.Prelude.{
  String, Bool, true, false, ◌≡◌, ◌≢◌, ◌⊎◌, inl, inr, none, some, ◌∷◌, ◌==◌, any, eqb, arith,
}
use anti_fraud_detector.Upload.Domain.{
  Uuid, Time, Dataset, AnalysisJob, UploadedFile, uploaded, normalizing, is_terminal,
}
use anti_fraud_detector.Upload.Db.{
  Db, Conn, done, in_tx, find_job, find_dataset, count_active, retries, update_jobs,
  update_datasets, insert_dataset, insert_file, insert_job, insert_audit_row,
}
use anti_fraud_detector.Upload.Repository.Rows.{
  new_job, job_with_dataset, is_some, create_dataset_with_file_and_job,
}
use anti_fraud_detector.Upload.Repository.Lifecycle.{
  start_job, claim_analysis_start, create_retry_job, archive_dataset,
}

-- The start of an uploaded job has been claimed.
pub record Claimed (k : Uuid) (now : Time) (db db' : Db) : Type 0 where
  pub job : AnalysisJob
  pub found : find_job k db.jobs ≡ some job
  pub was_uploaded : (job.status == uploaded) ≡ true
  pub jobs_set : db'.jobs ≡ update_jobs k (start_job now) db.jobs
  pub datasets_set :
      db'.datasets
      ≡ update_datasets job.dataset_id (λ d. record d { status = normalizing }) db.datasets

pub claim_effect :
    (k : Uuid) (now : Time) (conn : Conn) (db : Db)
    → let (result, db') = in_tx (claim_analysis_start k now) conn db in
      ((result ≢ done true) × (db' ≡ db)) ⊎ ((result ≡ done true) × Claimed k now db db')
unfolding in_tx claim_analysis_start job_with_dataset insert_audit_row
claim_effect k now conn db = ground arith

-- A retry of a finished job has been added.
pub record Retried (source new : Uuid) (now : Time) (db db' : Db) : Type 0 where
  pub job : AnalysisJob
  pub dataset : Dataset
  pub found : find_job source db.jobs ≡ some job
  pub owner : find_dataset job.dataset_id db.datasets ≡ some dataset
  pub not_archived : is_some dataset.archived_at ≡ false
  pub finished : is_terminal job.status ≡ true
  pub first_retry : any (retries source) db.jobs ≡ false
  pub idle : count_active job.dataset_id db.jobs ≡ 0
  pub fresh : any (λ i. eqb i.id new) db.jobs ≡ false
  pub jobs_set :
      db'.jobs ≡ new_job new job.dataset_id uploaded uploaded (some source) now now ∷ db.jobs
  pub datasets_set :
      db'.datasets
      ≡ update_datasets job.dataset_id (λ d. record d { status = uploaded }) db.datasets

-- A retry either does not create a job, and then changes no table, or it creates one: then the source
-- job was completed or failed and had no retry, its dataset was not archived and had no unfinished
-- job, and what changes is one new uploaded job that names the source, and the dataset's status.
pub retry_effect :
    (shown : String) (source new : Uuid) (now : Time) (conn : Conn) (db : Db)
    → let (result, db') = in_tx (create_retry_job shown source new now) conn db in
      ((result ≢ done none) × (db' ≡ db)) ⊎ ((result ≡ done none) × Retried source new now db db')
unfolding in_tx create_retry_job job_with_dataset insert_audit_row insert_job
retry_effect shown source new now conn db = ground arith

-- A dataset with no active job has been archived.
pub record Archived (k : Uuid) (now : Time) (db db' : Db) : Type 0 where
  pub idle : count_active k db.jobs ≡ 0
  pub jobs_same : db'.jobs ≡ db.jobs
  pub datasets_set :
      db'.datasets ≡ update_datasets k (λ d. record d { archived_at = some now }) db.datasets

abbrev pub archived_at : Uuid → Db → Bool
archived_at k db = elim (find_dataset k db.datasets) [
  | none ↦ false
  | some d ↦ is_some d.archived_at
]

pub archive_effect :
    (k : Uuid) (now : Time) (conn : Conn) (db : Db)
    → let (result, db') = in_tx (archive_dataset k now) conn db in
      (db' ≡ db) ⊎ Archived k now db db'
unfolding in_tx archive_dataset insert_audit_row
archive_effect k now conn db = ground arith

-- An archiving either does not succeed, and then changes no table, or it succeeds: then the dataset was
-- archived already and no table changes, or it was not, had no unfinished job, and is archived now.
pub archive_outcome :
    (k : Uuid) (now : Time) (conn : Conn) (db : Db)
    → let (result, db') = in_tx (archive_dataset k now) conn db in
      ((result ≢ done tt) × (db' ≡ db))
      ⊎ ((result ≡ done tt)
          × (((archived_at k db ≡ true) × (db' ≡ db))
              ⊎ ((archived_at k db ≡ false) × Archived k now db db')))
unfolding in_tx archive_dataset insert_audit_row
archive_outcome k now conn db = ground arith

-- A dataset, its file and its first job have been added.
pub record Uploaded (k job_id : Uuid) (status : String) (now : Time) (db db' : Db) : Type 0 where
  pub dataset : Dataset
  pub named : dataset.id ≡ k
  pub not_archived : is_some dataset.archived_at ≡ false
  pub fresh_dataset : any (λ e. eqb e.id k) db.datasets ≡ false
  pub fresh_job : any (λ i. eqb i.id job_id) db.jobs ≡ false
  pub datasets_set : db'.datasets ≡ dataset ∷ db.datasets
  pub jobs_set : db'.jobs ≡ new_job job_id k status status none now now ∷ db.jobs

-- An upload's transaction either does not succeed, and then changes no table, or it succeeds: then it
-- adds the dataset, its file and its first job.
pub upload_outcome :
    (k : Uuid) (file : UploadedFile) (job_id : Uuid) (name filename status : String) (now : Time)
    (conn : Conn) (db : Db)
    → let (result, db') =
        in_tx (create_dataset_with_file_and_job k file job_id name filename status now) conn db in
      ((result ≢ done tt) × (db' ≡ db))
      ⊎ ((result ≡ done tt)
          × Uploaded k job_id status now db db'
          × (db'.files ≡ record file { dataset_id = k; uploaded_at = now } ∷ db.files))
unfolding in_tx create_dataset_with_file_and_job insert_dataset insert_file insert_job
    insert_audit_row
upload_outcome k file job_id name filename status now conn db = ground arith

pub upload_effect :
    (k : Uuid) (file : UploadedFile) (job_id : Uuid) (name filename status : String) (now : Time)
    (conn : Conn) (db : Db)
    → let (result, db') =
        in_tx (create_dataset_with_file_and_job k file job_id name filename status now) conn db in
      (db' ≡ db) ⊎ Uploaded k job_id status now db db'
upload_effect k file job_id name filename status now conn db =
    elim (upload_outcome k file job_id name filename status now conn db) [
      | inl (failed_now, same) ↦ inl same
      | inr (succeeded, added, file_added) ↦ inr added
    ]
