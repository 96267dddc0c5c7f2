-- ===== src/Upload/Pipeline/Trace.antt =====
-- What any sequence of deliveries of pipeline events does to the jobs.
use anti_fraud_detector.Prelude.{
  ◌<◌, String, true, false, ◌≡◌, refl, sym, ap, ◌∙◌, subst, ◌⊎◌, inl, inr, Option, some, List, [],
  ◌∷◌, if◌then◌else◌, eqb, eqb→eq, arith, Bool-cases, Option-cases,
}
use mathlib.Core.Option
use anti_fraud_detector.Prelude.Text.{CaseTable}
use anti_fraud_detector.Upload.Domain.{Uuid, Time, AnalysisJob, among, is_terminal}
use anti_fraud_detector.Upload.Db.{Db, Conn, find_job}
use anti_fraud_detector.Upload.Db.Laws.{find_job-update_jobs}
use anti_fraud_detector.Upload.Repository.Lifecycle.{set_job}
use anti_fraud_detector.Upload.Repository.Transition.{Changed, transition_effect}
use anti_fraud_detector.Upload.Pipeline.Handler.{
  Move, PipelineEvent, EventError, Reading, refused, accepted, plan_event, read_event, apply_move,
  react, handle_pipeline_event,
}
use anti_fraud_detector.Upload.Pipeline.Progress.{rank, IsForward, plan_event-rank}

-- A job later on: the same in every field, or further along the pipeline if it was not finished.
abbrev pub IsFurther : AnalysisJob → AnalysisJob → Type 0
IsFurther j j' = (j' ≡ j) ⊎ ((is_terminal j.status ≡ false) × (rank j.status < rank j'.status))

IsFurther-trans : (i j k : AnalysisJob) → IsFurther i j → IsFurther j k → IsFurther i k
IsFurther-trans i j k h l = ground arith

-- No job is lost, and each is further along or unchanged.
abbrev pub Advances : Db → Db → Type 0
Advances db db' =
    (k : Uuid) (j : AnalysisJob)
    → find_job k db.jobs ≡ some j
    → (j' : AnalysisJob) × (find_job k db'.jobs ≡ some j') × IsFurther j j'

pub Advances-refl : (db : Db) → Advances db db
Advances-refl db k j h = (j, h, inl refl)

pub Advances-trans : (a b c : Db) → Advances a b → Advances b c → Advances a c
Advances-trans a b c h l k j found =
    let (j', found', far') = h k j found in
    let (j'', found'', far'') = l k j' found' in (j'', found'', IsFurther-trans j j' j'' far' far'')

abbrev IsFrom : Move → AnalysisJob → Type 0
IsFrom move j = among j.status move.allowed ≡ true

abbrev IsOpen : AnalysisJob → Type 0
IsOpen j = is_terminal j.status ≡ false

module _ (k d : Uuid) (event_type : String) (move : Move) (now : Time) (conn : Conn) (db : Db)
    (forward : IsForward move) where
  Changed-Advances :
      (db' : Db)
      → Changed k d event_type move.allowed move.status move.current_step move.failed_stage
          move.message now conn db db'
      → Advances db db'
  Changed-Advances db' c i j found = elim (Bool-cases (eqb k i)) [
    | inl e ↦
        let same : c.job ≡ j = ground (arith, c.found, found, eqb→eq k i e) in
        let further = forward j.status (subst (IsFrom move) same c.from_allowed) in
        (f j, at_key ∙ ground (arith, found), inr (subst IsOpen same c.not_final, further))
    | inr e ↦ (j, at_key ∙ ground (arith, found), inl refl)
  ]
    where
      f : AnalysisJob → AnalysisJob
      f = set_job move.status move.current_step move.failed_stage move.message now

      at_key :
          find_job i db'.jobs
          ≡ (if eqb k i then Option.map f (find_job i db.jobs) else find_job i db.jobs)
      at_key = ap (find_job i) c.jobs_set ∙ find_job-update_jobs k f (λ j. refl) i db.jobs

  apply_move-Advances : Advances db (apply_move event_type d k move now conn db).1
  unfolding apply_move
  apply_move-Advances =
      elim (transition_effect k d event_type move.allowed move.status move.current_step
        move.failed_stage move.message now conn db) [
          | inl (_, same) ↦ subst (Advances db) (sym same) (Advances-refl db)
          | inr (_, changed) ↦ Changed-Advances _ changed
        ]

-- A delivery: its routing key and body, when it is handled, and how the connection behaves then.
pub record Delivery (Body : Type 0) : Type 0 where
  pub routing_key : String
  pub body : Body
  pub now : Time
  pub conn : Conn

module _ {Body : Type 0} (u : CaseTable) (decode : Body → Option PipelineEvent)
    (parse_uuid : String → Option Uuid) where
  pub read_event-plan :
      (routing_key : String) (body : Body) (d k : Uuid) (move : Move)
      → read_event u decode parse_uuid routing_key body ≡ accepted d k move
      → (event : PipelineEvent) × (plan_event u routing_key event ≡ some move)
  unfolding read_event
  read_event-plan routing_key body d k move h = elim (Option-cases (decode body)) [
    | inl e ↦ absurd (ground arith)
    | inr (event, e) ↦ (event, ground arith)
  ]

  abbrev pub deliver : Delivery Body → Db → Option EventError × Db
  deliver m = handle_pipeline_event u decode parse_uuid m.routing_key m.body m.now m.conn

  unfoldable pub deliver_all : List (Delivery Body) → Db → Db
  deliver_all [] db = db
  deliver_all (m ∷ ms) db = deliver_all ms (deliver m db).1

  pub deliver-Advances : (m : Delivery Body) (db : Db) → Advances db (deliver m db).1
  unfolding handle_pipeline_event react
  deliver-Advances m db = step (read_event u decode parse_uuid m.routing_key m.body) refl
    where
      step :
          (r : Reading)
          → read_event u decode parse_uuid m.routing_key m.body ≡ r
          → Advances db (react m.routing_key m.now m.conn db r).1
      step (refused message) h = Advances-refl db
      step (accepted d k move) h =
          let (event, planned) = read_event-plan m.routing_key m.body d k move h in
          apply_move-Advances k d m.routing_key move m.now m.conn db
            (plan_event-rank u m.routing_key event planned)

  deliver_all-Advances : (ms : List (Delivery Body)) (db : Db) → Advances db (deliver_all ms db)
  unfolding deliver_all
  deliver_all-Advances [] db = Advances-refl db
  deliver_all-Advances (m ∷ ms) db =
      Advances-trans db (deliver m db).1 (deliver_all ms (deliver m db).1) (deliver-Advances m db)
        (deliver_all-Advances ms (deliver m db).1)

  -- Whatever pipeline events arrive, in any order, with any repetitions, and however statements
  -- fail: no job disappears, and each job is unchanged in every field or was unfinished and is
  -- strictly further along the pipeline. So a completed or failed job stays as it is.
  pub deliver_all-IsFurther :
      (ms : List (Delivery Body)) (db : Db) (k : Uuid) (j : AnalysisJob)
      → find_job k db.jobs ≡ some j
      → (j' : AnalysisJob) × (find_job k (deliver_all ms db).jobs ≡ some j') × IsFurther j j'
  deliver_all-IsFurther ms db = deliver_all-Advances ms db
