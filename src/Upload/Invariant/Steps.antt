-- ===== src/Upload/Invariant/Steps.antt =====
-- The transactions of the upload service as steps, and the invariant of every reachable state. Left
-- out are UpdateAnalysisStatusWithError, by which an administrator may set any status, and
-- CreateAnalysisJob, which StartAnalysis calls for a dataset that has no job.
use anti_fraud_detector.Prelude.{String, ◌≡◌, sym, subst, inl, inr, Option}
use anti_fraud_detector.Prelude.Text.{CaseTable}
use anti_fraud_detector.Upload.Domain.{Uuid, Time, UploadedFile, uploaded}
use anti_fraud_detector.Upload.Db.{Db, Conn, in_tx}
use anti_fraud_detector.Upload.Repository.Rows.{create_dataset_with_file_and_job}
use anti_fraud_detector.Upload.Repository.Lifecycle.{
  claim_analysis_start, create_retry_job, archive_dataset,
}
use anti_fraud_detector.Upload.Repository.Transition.{transition_effect}
use anti_fraud_detector.Upload.Repository.Effects.{
  claim_effect, retry_effect, archive_effect, upload_effect,
}
use anti_fraud_detector.Upload.Pipeline.Handler.{
  Move, PipelineEvent, handle_pipeline_event, react, apply_move, read_event, Reading, refused,
  accepted,
}
use anti_fraud_detector.Upload.Invariant.Keep.{Sound}
use anti_fraud_detector.Upload.Invariant.Changes.{
  Changed-Sound, Claimed-Sound, Retried-Sound, Archived-Sound, Uploaded-Sound,
}

module _ {Body : Type 0} (u : CaseTable) (decode : Body → Option PipelineEvent)
    (parse_uuid : String → Option Uuid) where
  -- One transaction of the service, over any connection.
  pub data Step (db db' : Db) : Type 0 where
    upload :
        (k : Uuid) (file : UploadedFile) (job_id : Uuid) (name filename : String) (now : Time)
        (conn : Conn)
        → db'
          ≡ (in_tx
              (create_dataset_with_file_and_job k file job_id name filename uploaded now)
              conn
              db).1
        → Step db db'
    claim :
        (k : Uuid) (now : Time) (conn : Conn)
        → db' ≡ (in_tx (claim_analysis_start k now) conn db).1
        → Step db db'
    event :
        (routing_key : String) (body : Body) (now : Time) (conn : Conn)
        → db' ≡ (handle_pipeline_event u decode parse_uuid routing_key body now conn db).1
        → Step db db'
    retry :
        (shown : String) (source new : Uuid) (now : Time) (conn : Conn)
        → db' ≡ (in_tx (create_retry_job shown source new now) conn db).1
        → Step db db'
    archive :
        (k : Uuid) (now : Time) (conn : Conn)
        → db' ≡ (in_tx (archive_dataset k now) conn db).1
        → Step db db'

  pub data Reach (start : Db) : Db → Type 0 where
    here : Reach start start
    next : {db db' : Db} → Reach start db → Step db db' → Reach start db'

  apply_move-Sound :
      (routing_key : String) (d k : Uuid) (move : Move) (now : Time) (conn : Conn) (db : Db)
      → Sound db
      → Sound (apply_move routing_key d k move now conn db).1
  unfolding apply_move
  apply_move-Sound routing_key d k move now conn db s =
      elim (transition_effect k d routing_key move.allowed move.status move.current_step
        move.failed_stage move.message now conn db) [
          | inl (_, same) ↦ subst Sound (sym same) s
          | inr (_, changed) ↦ Changed-Sound k d routing_key move now conn db _ changed s
        ]

  react-Sound :
      (routing_key : String) (now : Time) (conn : Conn) (db : Db) (r : Reading)
      → Sound db
      → Sound (react routing_key now conn db r).1
  unfolding react
  react-Sound routing_key now conn db (refused message) s = s
  react-Sound routing_key now conn db (accepted d k move) s =
      apply_move-Sound routing_key d k move now conn db s

  step-Sound : {db db' : Db} → Step db db' → Sound db → Sound db'
  unfolding handle_pipeline_event
  step-Sound {db} (upload k file job_id name filename now conn e) s =
      subst Sound (sym e) (elim (upload_effect k file job_id name filename uploaded now conn db) [
        | inl same ↦ subst Sound (sym same) s
        | inr c ↦ Uploaded-Sound k job_id now db _ c s
      ])
  step-Sound {db} (claim k now conn e) s = subst Sound (sym e) (elim (claim_effect k now conn db) [
    | inl (_, same) ↦ subst Sound (sym same) s
    | inr (_, c) ↦ Claimed-Sound k now db _ c s
  ])
  step-Sound {db} (event routing_key body now conn e) s =
      subst Sound (sym e)
        (react-Sound routing_key now conn db (read_event u decode parse_uuid routing_key body) s)
  step-Sound {db} (retry shown source new now conn e) s =
      subst Sound (sym e) (elim (retry_effect shown source new now conn db) [
        | inl (_, same) ↦ subst Sound (sym same) s
        | inr (_, c) ↦ Retried-Sound source new now db _ c s
      ])
  step-Sound {db} (archive k now conn e) s =
      subst Sound (sym e) (elim (archive_effect k now conn db) [
        | inl same ↦ subst Sound (sym same) s
        | inr c ↦ Archived-Sound k now db _ c s
      ])

  -- In every state that uploads, claims, pipeline events, retries and archivings lead to from one
  -- that satisfies the invariant, in any order and however statements fail, the invariant holds: job
  -- ids are unique, every job has its dataset, a result is ready exactly if its job is completed, no
  -- dataset has two unfinished jobs, and an archived dataset has none.
  pub Reach-Sound : {start db : Db} → Sound start → Reach start db → Sound db
  Reach-Sound s here = s
  Reach-Sound s (next r st) = step-Sound st (Reach-Sound s r)
