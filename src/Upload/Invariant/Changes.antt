-- ===== src/Upload/Invariant/Changes.antt =====
-- Every change that a transaction of backend/upload-service/internal/repository/repository.go makes
-- keeps the invariant of the tables.
use anti_fraud_detector.Prelude.{
  String, Bool, true, false, ◌≡◌, refl, ap, subst, ◌∙◌, inl, inr, some, List, [], ◌∷◌, any, All,
  All-map-of, eqb, eqb→eq, eqb_refl, Bool-cases, arith, eq_iff,
}
use anti_fraud_detector.Upload.Domain.{
  Uuid, Time, Dataset, AnalysisJob, uploaded, normalizing, is_terminal,
}
use anti_fraud_detector.Upload.Db.{Db, Conn, find_dataset, count_active}
use anti_fraud_detector.Upload.Db.Laws.{IsCalm, found-is_only}
use anti_fraud_detector.Upload.Repository.Lifecycle.{start_job, set_job}
use anti_fraud_detector.Upload.Repository.Transition.{Changed}
use anti_fraud_detector.Upload.Repository.Effects.{Claimed, Retried, Archived, Uploaded}
use anti_fraud_detector.Upload.Pipeline.Handler.{Move}
use anti_fraud_detector.Upload.Invariant.Keep.{
  Sound, Sound-idle, idle_if, is_archived, HasDataset, RowChange-Sound, change-archived,
  status-any_id, update_datasets-any_id, update_datasets-is_archived,
}

-- An update of one row that was unfinished is calm.
open-IsCalm :
    (k : Uuid) (f : AnalysisJob → AnalysisJob) (same : (j : AnalysisJob) → (f j).id ≡ j.id)
    → ((j : AnalysisJob) → (f j).dataset_id ≡ j.dataset_id)
    → (job : AnalysisJob) (js : List AnalysisJob) → is_terminal job.status ≡ false
    → All (λ j. eqb j.id k ≡ true → j ≡ job) js
    → All (IsCalm k f same) js
open-IsCalm k f same stays job js o only =
    All-map-of js (λ j one e. (stays j, λ t. absurd (ground (arith, one e)))) only

pub Changed-Sound :
    (k d : Uuid) (event_type : String) (move : Move) (now : Time) (conn : Conn) (db db' : Db)
    → Changed k d event_type move.allowed move.status move.current_step move.failed_stage
        move.message now conn db db'
    → Sound db
    → Sound db'
Changed-Sound k d event_type move now conn db db' c s =
    let f = set_job move.status move.current_step move.failed_stage move.message now in
    RowChange-Sound k d f move.status (λ j. refl) (λ j. refl) db db' (λ j. refl)
      (open-IsCalm k f (λ j. refl) (λ j. refl) c.job db.jobs c.not_final
        (found-is_only k c.job db.jobs s.unique c.found))
      (record { jobs_set = c.jobs_set; datasets_set = c.datasets_set }) s

pub Claimed-Sound :
    (k : Uuid) (now : Time) (db db' : Db) → Claimed k now db db' → Sound db → Sound db'
Claimed-Sound k now db db' c s =
    let is_open : is_terminal c.job.status ≡ false = rw ((eq_iff _ _).0 c.was_uploaded) in
    RowChange-Sound k c.job.dataset_id (start_job now) normalizing (λ j. refl) (λ j. refl) db db'
      (λ j. refl)
      (open-IsCalm k (start_job now) (λ j. refl) (λ j. refl) c.job db.jobs is_open
        (found-is_only k c.job db.jobs s.unique c.found))
      (record { jobs_set = c.jobs_set; datasets_set = c.datasets_set }) s

-- Rows added in front.
none-All : {A : Type 0} (p : A → Bool) (xs : List A) → any p xs ≡ false → All (λ x. p x ≡ false) xs
none-All p [] h = tt
none-All p (x ∷ xs) h = (ground arith, none-All p xs (ground arith))

find-any :
    (k : Uuid) (ds : List Dataset) (d : Dataset)
    → find_dataset k ds ≡ some d
    → any (λ e. eqb e.id k) ds ≡ true
find-any k [] d h = absurd (ground arith)
find-any k (e ∷ ds) d h = ground (arith, find-any k ds d)

absent-is_archived :
    (k : Uuid) (ds : List Dataset) → any (λ e. eqb e.id k) ds ≡ false → is_archived k ds ≡ false
absent-is_archived k [] h = refl
absent-is_archived k (e ∷ ds) h = ground (arith, absent-is_archived k ds)

-- A dataset that does not exist owns no job.
absent-count_active :
    (k : Uuid) (ds : List Dataset) (js : List AnalysisJob)
    → any (λ e. eqb e.id k) ds ≡ false
    → All (HasDataset ds) js
    → count_active k js ≡ 0
unfolding count_active
absent-count_active k ds [] h o = refl
absent-count_active k ds (j ∷ js) h o = elim (Bool-cases (eqb j.dataset_id k)) [
  | inl e ↦
      absurd (ground (arith, ap (λ x. any (λ d. eqb d.id x) ds) (eqb→eq j.dataset_id k e), o.0, h))
  | inr e ↦ ground (arith, absent-count_active k ds js h o.1)
]

pub Retried-Sound :
    (source new : Uuid) (now : Time) (db db' : Db)
    → Retried source new now db db'
    → Sound db
    → Sound db'
unfolding count_active
Retried-Sound source new now db db' c s =
    let k = c.job.dataset_id in
    let owners = λ (j : AnalysisJob) (o : HasDataset db.datasets j).
      ap (any (λ e. eqb e.id j.dataset_id)) c.datasets_set
      ∙ (status-any_id k uploaded j.dataset_id db.datasets ∙ o) in
    record {
      unique = rw c.jobs_set (none-All (λ i. eqb i.id new) db.jobs c.fresh, s.unique);
      owned = rw c.jobs_set (
        ap (any (λ e. eqb e.id k)) c.datasets_set
            ∙ (status-any_id k uploaded k db.datasets ∙ find-any k db.datasets c.dataset c.owner),
        All-map-of db.jobs owners s.owned,
      );
      ready = rw c.jobs_set (refl, s.ready);
      one_active = λ i. rw c.jobs_set (ground (arith, c.idle, s.one_active i, eqb→eq k i));
      archived_idle = λ i. idle_if i db' (λ a.
          let before =
            change-archived k uploaded i db.datasets
              (subst (λ ds. is_archived i ds ≡ true) c.datasets_set a) in
          rw c.jobs_set
            (ground (arith, Sound-idle s i before, c.owner, c.not_archived, eqb→eq k i)));
    }

pub Archived-Sound :
    (k : Uuid) (now : Time) (db db' : Db) → Archived k now db db' → Sound db → Sound db'
Archived-Sound k now db db' c s =
    let f = λ (d : Dataset). record d { archived_at = some now } in
    record {
      unique = rw c.jobs_same s.unique;
      owned =
          rw (c.jobs_same, c.datasets_set)
            (All-map-of db.jobs
              (λ j o. update_datasets-any_id k f (λ d. refl) j.dataset_id db.datasets ∙ o) s.owned);
      ready = rw c.jobs_same s.ready;
      one_active = λ i. rw c.jobs_same (s.one_active i);
      archived_idle = λ i. idle_if i db' (λ a.
          let was =
            update_datasets-is_archived k f (λ d. refl) i db.datasets
              (subst (λ ds. is_archived i ds ≡ true) c.datasets_set a) in
          rw c.jobs_same
            (elim was [ inl before ↦ Sound-idle s i before | inr e ↦ rw (← eqb→eq k i e) c.idle ]));
    }

pub Uploaded-Sound :
    (k job_id : Uuid) (now : Time) (db db' : Db)
    → Uploaded k job_id uploaded now db db'
    → Sound db
    → Sound db'
unfolding count_active
Uploaded-Sound k job_id now db db' c s =
    let gone = absent-count_active k db.datasets db.jobs c.fresh_dataset s.owned in
    record {
      unique = rw c.jobs_set (none-All (λ i. eqb i.id job_id) db.jobs c.fresh_job, s.unique);
      owned = rw c.jobs_set (
        ground (arith, c.datasets_set, c.named, eqb_refl k),
        All-map-of db.jobs (λ j o. ground (arith, c.datasets_set, o)) s.owned,
      );
      ready = rw c.jobs_set (refl, s.ready);
      one_active = λ i. rw c.jobs_set (ground (arith, gone, s.one_active i, eqb→eq k i));
      archived_idle = λ i. idle_if i db' (λ a. rw c.jobs_set (
          ground (
            arith,
            gone,
            Sound-idle s i,
            c.datasets_set,
            a,
            c.not_archived,
            c.named,
            eqb→eq k i,
            eqb→eq c.dataset.id i,
          )));
    }
