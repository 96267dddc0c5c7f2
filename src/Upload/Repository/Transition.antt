-- ===== src/Upload/Repository/Transition.antt =====
-- What TransitionFromEvent does to the tables, in one statement.
use anti_fraud_detector.Prelude.{
  String, Bool, true, false, ◌≡◌, refl, ap, ◌∙◌, ◌≢◌, ◌⊎◌, some, List, arith, eqb_refl,
}
use anti_fraud_detector.Upload.Domain.{Uuid, Time, AnalysisJob, among, is_terminal}
use anti_fraud_detector.Upload.Db.{
  Db, Conn, Result, done, in_tx, find_job, update_jobs, update_datasets, insert_audit_row,
}
use anti_fraud_detector.Upload.Db.Laws.{find_job-update_jobs}
use anti_fraud_detector.Upload.Repository.Lifecycle.{set_job, transition_from_event}

module _ (job_id dataset_id : Uuid) (event_type : String) (allowed : List String)
    (to_status current_step failed_stage error : String) (now : Time) (conn : Conn) (db : Db) where
  abbrev pub attempt : Result Bool × Db
  attempt =
      in_tx
        (transition_from_event job_id dataset_id event_type allowed to_status current_step
          failed_stage error now)
        conn db

  -- A transition that reports a change has found the job in an allowed status that is not final, and
  -- has written the job and its dataset.
  pub record Changed (db' : Db) : Type 0 where
    pub job : AnalysisJob
    pub found : find_job job_id db.jobs ≡ some job
    pub owner : job.dataset_id ≡ dataset_id
    pub from_allowed : among job.status allowed ≡ true
    pub not_final : is_terminal job.status ≡ false
    pub jobs_set :
        db'.jobs
        ≡ update_jobs job_id (set_job to_status current_step failed_stage error now) db.jobs
    pub datasets_set :
        db'.datasets ≡ update_datasets dataset_id (λ d. record d { status = to_status }) db.datasets

  pub transition_effect :
      ((attempt.0 ≢ done true) × (attempt.1 ≡ db)) ⊎ ((attempt.0 ≡ done true) × Changed attempt.1)
  unfolding in_tx transition_from_event insert_audit_row
  transition_effect = ground arith

  -- After the change the job is found with the new status.
  pub Changed-find :
      {db' : Db}
      → (c : Changed db')
      → find_job job_id db'.jobs
        ≡ some (set_job to_status current_step failed_stage error now c.job)
  Changed-find {db'} c =
      ap (find_job job_id) c.jobs_set
      ∙ (find_job-update_jobs job_id (set_job to_status current_step failed_stage error now)
            (λ j. refl) job_id db.jobs
          ∙ ground (arith, eqb_refl job_id, c.found))
