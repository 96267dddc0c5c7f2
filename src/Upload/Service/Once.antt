-- ===== src/Upload/Service/Once.antt =====
-- When the start of a job announces it to the pipeline: startAnalysisJob of
-- backend/upload-service/internal/service/service.go.
use anti_fraud_detector.Prelude.{
  String, Bool, true, false, ◌≡◌, refl, sym, ◌≢◌, inl, inr, Option, List, ◌==◌, arith, Bool-cases,
  subst, true≢false,
}
use anti_fraud_detector.Upload.Domain.{Uuid, Time, AnalysisJob, UploadedFile, uploaded}
use anti_fraud_detector.Upload.Db.{Db, Conn, Result, done, fail, DbError, in_tx}
use anti_fraud_detector.Prelude.Text.{CaseTable}
use anti_fraud_detector.Upload.Pipeline.Handler.{PipelineEvent}
use anti_fraud_detector.Upload.Pipeline.Trace.{Advances}
use anti_fraud_detector.Upload.Invariant.Steps.{Reach}
use anti_fraud_detector.Upload.Invariant.Onward.{
  Claimed-job, uploaded_first, IsBelow, not_below, Reach-Advances,
}
use anti_fraud_detector.Upload.Repository.Lifecycle.{start_job, claim_analysis_start}
use anti_fraud_detector.Upload.Repository.Effects.{claim_effect}
use anti_fraud_detector.Upload.Service.Start.{
  World, UploadEvent, start_analysis_job, claimed_result,
}

-- The claim of a job never succeeds on tables that its first claim has led to.
pub claim_once :
    (k : Uuid) (now later : Time) (conn conn' : Conn) (db db' : Db)
    → (in_tx (claim_analysis_start k now) conn db).0 ≡ done true
    → Advances (in_tx (claim_analysis_start k now) conn db).1 db'
    → (in_tx (claim_analysis_start k later) conn' db').0 ≢ done true
claim_once k now later conn conn' db db' h onward = elim (claim_effect k now conn db) [
  | inl (not_true, _) ↦ absurd (not_true h)
  | inr (_, c) ↦ elim (claim_effect k later conn' db') [
    | inl (not_true, _) ↦ not_true
    | inr (_, c') ↦
        let (j, found, further) = onward k (start_job now c.job) (Claimed-job k now db _ c) in
        let same : c'.job ≡ j = ground (arith, c'.found, found) in
        let (active, first) = uploaded_first c'.job.status c'.was_uploaded in
        absurd (
          true≢false (
            not_below (start_job now c.job) j further
              (subst (IsBelow (start_job now c.job)) same first)))
  ]
]

abbrev IsRefused : Conn → Time → Uuid → Db → Type 0
IsRefused conn now k db = (in_tx (claim_analysis_start k now) conn db).0 ≢ done true

module _ (mentions : String → Bool) where
  -- Without a claim nothing is announced; with one, the tables are those of the claim.
  unclaimed_outbox :
      (sent : Bool) (conn : Conn) (file : UploadedFile) (job : AnalysisJob) (now : Time)
      (outbox : List UploadEvent) (r : Result Bool × Db)
      → r.0 ≢ done true
      → (claimed_result mentions sent conn file job now outbox r).1.outbox ≡ outbox
  unfolding claimed_result
  unclaimed_outbox sent conn file job now outbox (done true, db) h = absurd (h refl)
  unclaimed_outbox sent conn file job now outbox (done false, db) h = refl
  unclaimed_outbox sent conn file job now outbox (fail DbError.dataset_archived, db) h = refl
  unclaimed_outbox sent conn file job now outbox (fail e, db) h = refl

  announced_db :
      (sent : Bool) (conn : Conn) (file : UploadedFile) (job : AnalysisJob) (now : Time)
      (outbox : List UploadEvent) (r : Result Bool × Db)
      → (claimed_result mentions sent conn file job now outbox r).1.outbox ≢ outbox
      → (r.0 ≡ done true) × ((claimed_result mentions sent conn file job now outbox r).1.db ≡ r.1)
  unfolding claimed_result
  announced_db true conn file job now outbox (done true, db) h = (refl, refl)
  announced_db false conn file job now outbox (done true, db) h = absurd (h refl)
  announced_db sent conn file job now outbox (done false, db) h = absurd (h refl)
  announced_db sent conn file job now outbox (fail DbError.dataset_archived, db) h = absurd (h refl)
  announced_db sent conn file job now outbox (fail e, db) h = absurd (h refl)

  not_started :
      (sent : Bool) (conn conn' : Conn) (file : UploadedFile) (job : AnalysisJob) (now : Time)
      (w : World)
      → (in_tx (claim_analysis_start job.id now) conn w.db).0 ≢ done true
      → (start_analysis_job mentions sent conn conn' file job now w).1.outbox ≡ w.outbox
  unfolding start_analysis_job
  not_started sent conn conn' file job now w h = elim (Bool-cases (job.status == uploaded)) [
    | inl e ↦ rw e (
        unclaimed_outbox sent conn' file job now w.outbox
          (in_tx (claim_analysis_start job.id now) conn w.db) h)
    | inr e ↦ rw e
  ]

  started :
      (sent : Bool) (conn conn' : Conn) (file : UploadedFile) (job : AnalysisJob) (now : Time)
      (w : World)
      → (start_analysis_job mentions sent conn conn' file job now w).1.outbox ≢ w.outbox
      → ((in_tx (claim_analysis_start job.id now) conn w.db).0 ≡ done true)
        × ((start_analysis_job mentions sent conn conn' file job now w).1.db
            ≡ (in_tx (claim_analysis_start job.id now) conn w.db).1)
  unfolding start_analysis_job
  started sent conn conn' file job now w = elim (Bool-cases (job.status == uploaded)) [
    | inl e ↦ rw e (
        announced_db sent conn' file job now w.outbox
          (in_tx (claim_analysis_start job.id now) conn w.db))
    | inr e ↦ rw e (λ h. absurd (h refl))
  ]

  module _ {Body : Type 0} (u : CaseTable) (decode : Body → Option PipelineEvent)
      (parse_uuid : String → Option Uuid) where
    -- Once the start of a job has sent its event, no later start of it sends one, after any uploads,
    -- claims, pipeline events, retries and archivings: not from a stale copy of the job either, and
    -- whatever the connections and the broker do.
    pub start_once :
        (sent sent' : Bool) (c₁ c₂ c₃ c₄ : Conn) (file file' : UploadedFile)
        (job job' : AnalysisJob) (now later : Time) (w w' : World)
        → job'.id ≡ job.id
        → (start_analysis_job mentions sent c₁ c₂ file job now w).1.outbox ≢ w.outbox
        → Reach u decode parse_uuid
            (start_analysis_job mentions sent c₁ c₂ file job now w).1.db
            w'.db
        → (start_analysis_job mentions sent' c₃ c₄ file' job' later w').1.outbox ≡ w'.outbox
    start_once sent sent' c₁ c₂ c₃ c₄ file file' job job' now later w w' same h reached =
        let (claimed, db_set) = started sent c₁ c₂ file job now w h in
        let onward : Advances (in_tx (claim_analysis_start job.id now) c₁ w.db).1 w'.db =
          subst (λ db. Advances db w'.db) db_set (Reach-Advances u decode parse_uuid reached) in
        not_started sent' c₃ c₄ file' job' later w' (
          subst (λ k. IsRefused c₃ later k w'.db) (sym same)
            (claim_once job.id now later c₁ c₃ w.db w'.db claimed onward))
