-- ===== src/Upload/Invariant/Onward.antt =====
-- How far along the pipeline a job is before and after the transactions of the upload service, for the
-- events of HandlePipelineEvent in backend/upload-service/internal/service/orchestration.go.
use anti_fraud_detector.Prelude.{
  ◌<◌, String, ◌==◌, true, false, true≢false, ◌≡◌, ◌≢◌, refl, sym, ap, ◌∙◌, subst, inl, inr, Option,
  some, List, [], ◌∷◌, if◌then◌else◌, eqb, eqb_refl, eqb→eq, any, arith, Bool-cases, eq_iff,
  text_cases,
}
use mathlib.Core.Option
use anti_fraud_detector.Prelude.Text.{CaseTable}
use anti_fraud_detector.Upload.Domain.{Uuid, Time, AnalysisJob, uploaded, is_terminal}
use anti_fraud_detector.Upload.Db.{Db, Conn, find_job, update_jobs}
use anti_fraud_detector.Upload.Db.Laws.{find_job-update_jobs}
use anti_fraud_detector.Upload.Repository.Lifecycle.{start_job, set_job}
use anti_fraud_detector.Upload.Repository.Transition.{Changed-find, transition_effect}
use anti_fraud_detector.Upload.Repository.Effects.{
  Claimed, Uploaded, Retried, claim_effect, retry_effect, archive_effect, upload_effect,
}
use anti_fraud_detector.Upload.Pipeline.Handler.{
  Move, PipelineEvent, Reading, refused, accepted, apply_move, react, read_event,
  handle_pipeline_event,
}
use anti_fraud_detector.Upload.Pipeline.Progress.{rank, IsForward, plan_event-rank}
use anti_fraud_detector.Upload.Pipeline.Trace.{
  IsFurther, Advances, Advances-refl, Advances-trans, read_event-plan, deliver-Advances,
}
use anti_fraud_detector.Upload.Invariant.Steps.{
  Step, upload, claim, event, retry, archive, Reach, here, next,
}

find-not_fresh :
    (k new : Uuid) (js : List AnalysisJob) (j : AnalysisJob)
    → find_job k js ≡ some j
    → any (λ i. eqb i.id new) js ≡ false
    → eqb new k ≡ false
find-not_fresh k new [] j found fresh = absurd (ground arith)
find-not_fresh k new (i ∷ js) j found fresh = elim (Bool-cases (eqb i.id k)) [
  | inl e ↦ ground (arith, eqb→eq i.id k e, fresh)
  | inr e ↦ find-not_fresh k new js j (ground (arith, e, found)) (ground (arith, fresh))
]

-- A new job beside the others.
added-Advances :
    (db db' : Db) (new : AnalysisJob)
    → any (λ i. eqb i.id new.id) db.jobs ≡ false
    → db'.jobs ≡ new ∷ db.jobs
    → Advances db db'
added-Advances db db' new fresh jobs_set k j found =
    let other = find-not_fresh k new.id db.jobs j found fresh in
    (j, ap (find_job k) jobs_set ∙ ground (arith, other, found), inl refl)

Uploaded-Advances :
    (k job_id : Uuid) (now : Time) (db db' : Db)
    → Uploaded k job_id uploaded now db db'
    → Advances db db'
Uploaded-Advances k job_id now db db' c = added-Advances db db' _ c.fresh_job c.jobs_set

Retried-Advances :
    (source new : Uuid) (now : Time) (db db' : Db) → Retried source new now db db' → Advances db db'
Retried-Advances source new now db db' c = added-Advances db db' _ c.fresh c.jobs_set

-- The job of a claim, afterwards.
pub Claimed-job :
    (k : Uuid) (now : Time) (db db' : Db) (c : Claimed k now db db')
    → find_job k db'.jobs ≡ some (start_job now c.job)
Claimed-job k now db db' c =
    ap (find_job k) c.jobs_set
    ∙ (find_job-update_jobs k (start_job now) (λ j. refl) k db.jobs
        ∙ ground (arith, eqb_refl k, c.found))

-- Each other status of a job is further along than the first one.
pub uploaded_first : (s : String) → (s == uploaded) ≡ true → (is_terminal s ≡ false) × (rank s < 1)
uploaded_first s h = elim (text_cases uploaded s) [
  | inl (e, t) ↦ subst (λ r. (is_terminal r ≡ false) × (rank r < 1)) e (refl, omega arith)
  | inr t ↦ absurd (ground (arith, eq_iff s uploaded, eq_iff uploaded s, h, t))
]

abbrev IsUploaded : AnalysisJob → Type 0
IsUploaded j = (j.status == uploaded) ≡ true

Claimed-Advances : (k : Uuid) (now : Time) (db db' : Db) → Claimed k now db db' → Advances db db'
Claimed-Advances k now db db' c i j found = elim (Bool-cases (eqb k i)) [
  | inl e ↦
      let same : c.job ≡ j = ground (arith, c.found, found, eqb→eq k i e) in
      (
        start_job now j,
        ap (find_job i) c.jobs_set ∙ at_key ∙ ground (arith, e, found),
        inr (uploaded_first j.status (subst IsUploaded same c.was_uploaded)),
      )
  | inr e ↦ (j, ap (find_job i) c.jobs_set ∙ at_key ∙ ground (arith, e, found), inl refl)
]
  where
    at_key :
        find_job i (update_jobs k (start_job now) db.jobs)
        ≡ (if eqb k i then Option.map (start_job now) (find_job i db.jobs) else find_job i db.jobs)
    at_key = find_job-update_jobs k (start_job now) (λ j. refl) i db.jobs

-- The second job ranks below the first.
abbrev pub IsBelow : AnalysisJob → AnalysisJob → Type 0
IsBelow i j = rank j.status < rank i.status

pub not_below : (i j : AnalysisJob) → IsFurther i j → IsBelow i j → true ≡ false
not_below i j (inl same) below = ground (arith, same, below)
not_below i j (inr (active, above)) below = ground (arith, above, below)

module _ {Body : Type 0} (u : CaseTable) (decode : Body → Option PipelineEvent)
    (parse_uuid : String → Option Uuid) where
  Step-Advances : {db db' : Db} → Step u decode parse_uuid db db' → Advances db db'
  Step-Advances {db} {db'} (upload k file job_id name filename now conn e) =
      subst (Advances db) (sym e)
        (elim (upload_effect k file job_id name filename uploaded now conn db) [
          | inl same ↦ subst (Advances db) (sym same) (Advances-refl db)
          | inr c ↦ Uploaded-Advances k job_id now db _ c
        ])
  Step-Advances {db} (claim k now conn e) =
      subst (Advances db) (sym e) (elim (claim_effect k now conn db) [
        | inl (_, same) ↦ subst (Advances db) (sym same) (Advances-refl db)
        | inr (_, c) ↦ Claimed-Advances k now db _ c
      ])
  Step-Advances {db} (event routing_key body now conn e) = subst (Advances db) (sym e) (
      deliver-Advances u decode parse_uuid
        (record { routing_key = routing_key; body = body; now = now; conn = conn }) db)
  Step-Advances {db} (retry shown source new now conn e) =
      subst (Advances db) (sym e) (elim (retry_effect shown source new now conn db) [
        | inl (_, same) ↦ subst (Advances db) (sym same) (Advances-refl db)
        | inr (_, c) ↦ Retried-Advances source new now db _ c
      ])
  Step-Advances {db} (archive k now conn e) =
      subst (Advances db) (sym e) (elim (archive_effect k now conn db) [
        | inl same ↦ subst (Advances db) (sym same) (Advances-refl db)
        | inr c ↦ λ i j found. (j, ap (find_job i) c.jobs_same ∙ found, inl refl)
      ])

  -- Whatever uploads, claims, pipeline events, retries and archivings follow, each job is still there
  -- and unchanged, or further along.
  pub Reach-Advances : {start db : Db} → Reach u decode parse_uuid start db → Advances start db
  Reach-Advances {start} here = Advances-refl start
  Reach-Advances {start} (next {db} {db'} r s) =
      Advances-trans start db db' (Reach-Advances r) (Step-Advances s)

  module _ (k d : Uuid) (routing_key : String) (move : Move) (forward : IsForward move)
      (now later : Time) (conn conn' : Conn) (db db' : Db) where
    -- A job that a move has reached is never again in a status from which the move is allowed.
    moved_once :
        (apply_move routing_key d k move now conn db).1 ≢ db
        → Advances (apply_move routing_key d k move now conn db).1 db'
        → (apply_move routing_key d k move later conn' db').1 ≡ db'
    unfolding apply_move
    moved_once changed onward =
        elim (transition_effect k d routing_key move.allowed move.status move.current_step
          move.failed_stage move.message now conn db) [
            | inl (_, same) ↦ absurd (changed same)
            | inr (_, c) ↦
                let f = set_job move.status move.current_step move.failed_stage move.message now in
                let moved =
                  Changed-find k d routing_key move.allowed move.status move.current_step
                    move.failed_stage move.message now conn db c in
                let (j', found, further) = onward k (f c.job) moved in
                elim (transition_effect k d routing_key move.allowed move.status move.current_step
                  move.failed_stage move.message later conn' db') [
                    | inl (_, same) ↦ same
                    | inr (_, c') ↦
                        let same : c'.job ≡ j' = ground (arith, c'.found, found) in
                        let below = forward c'.job.status c'.from_allowed in
                        absurd (
                          true≢false
                            (not_below (f c.job) j' further (subst (IsBelow (f c.job)) same below)))
                  ]
          ]

  -- An event that has changed the tables has no effect when it is delivered again, after any uploads,
  -- claims, pipeline events, retries and archivings, whatever the connection does.
  pub redelivery :
      (routing_key : String) (body : Body) (now later : Time) (conn conn' : Conn) (db db' : Db)
      → (handle_pipeline_event u decode parse_uuid routing_key body now conn db).1 ≢ db
      → Reach u decode parse_uuid
          (handle_pipeline_event u decode parse_uuid routing_key body now conn db).1
          db'
      → (handle_pipeline_event u decode parse_uuid routing_key body later conn' db').1 ≡ db'
  unfolding handle_pipeline_event react
  redelivery routing_key body now later conn conn' db db' changed reached =
      step (read_event u decode parse_uuid routing_key body) refl changed (Reach-Advances reached)
    where
      step :
          (r : Reading)
          → read_event u decode parse_uuid routing_key body ≡ r
          → (react routing_key now conn db r).1 ≢ db
          → Advances (react routing_key now conn db r).1 db'
          → (react routing_key later conn' db' r).1 ≡ db'
      step (refused message) h different onward = refl
      step (accepted d k move) h different onward =
          let (payload, planned) =
            read_event-plan u decode parse_uuid routing_key body d k move h in
          moved_once k d routing_key move (plan_event-rank u routing_key payload planned) now later
            conn conn' db db' different onward
