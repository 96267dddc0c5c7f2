-- ===== src/Upload/Invariant/Keep.antt =====
-- The invariant of the tables, and the changes of rows that keep it.
use anti_fraud_detector.Prelude.{
  ◌≤◌, String, Bool, true, false, ◌≡◌, refl, sym, subst, ◌∙◌, ◌⊎◌, inl, inr, none, some, List, [],
  ◌∷◌, ◌==◌, any, All, All-map-of, eqb, Bool-cases, arith, true≢false,
}
use anti_fraud_detector.Upload.Domain.{Uuid, Dataset, AnalysisJob, completed}
use anti_fraud_detector.Upload.Db.{Db, find_dataset, count_active, update_jobs, update_datasets}
use anti_fraud_detector.Upload.Db.Laws.{IsUnique, IsCalm, count_active-update_jobs-le}
use anti_fraud_detector.Upload.Repository.Rows.{is_some}

abbrev pub is_archived : Uuid → List Dataset → Bool
is_archived k ds = elim (find_dataset k ds) [ none ↦ false | some d ↦ is_some d.archived_at ]

abbrev pub HasDataset : List Dataset → AnalysisJob → Type 0
HasDataset ds j = any (λ d. eqb d.id j.dataset_id) ds ≡ true

abbrev pub IsReady : AnalysisJob → Type 0
IsReady j = j.result_ready ≡ (j.status == completed)

abbrev pub IsLive : Uuid → Db → Type 0
IsLive k db = is_archived k db.datasets ≡ false

pub record Sound (db : Db) : Type 0 where
  -- primary keys
  pub unique : IsUnique db.jobs
  -- foreign keys
  pub owned : All (HasDataset db.datasets) db.jobs
  -- the result is ready exactly if the job is completed
  pub ready : All IsReady db.jobs
  -- a dataset has one unfinished job at most, and none once it is archived
  pub one_active : (k : Uuid) → count_active k db.jobs ≤ 1
  pub archived_idle : (k : Uuid) → IsLive k db ⊎ (count_active k db.jobs ≡ 0)

-- What an archived dataset says of its jobs, in both forms.
pub idle_if :
    (k : Uuid) (db : Db)
    → (is_archived k db.datasets ≡ true → count_active k db.jobs ≡ 0)
    → IsLive k db ⊎ (count_active k db.jobs ≡ 0)
idle_if k db h = elim (Bool-cases (is_archived k db.datasets)) [ inl e ↦ inr (h e) | inr e ↦ inl e ]

pub Sound-idle :
    {db : Db}
    → Sound db
    → (k : Uuid) → is_archived k db.datasets ≡ true
    → count_active k db.jobs ≡ 0
Sound-idle s k a = elim (s.archived_idle k) [
  | inl live ↦ absurd (true≢false (sym a ∙ live))
  | inr idle ↦ idle
]

-- Updates of a row keep its key.
module _ (k : Uuid) (f : AnalysisJob → AnalysisJob)
    (same : (j : AnalysisJob) → (f j).id ≡ j.id) where
  update_jobs-All :
      (P : AnalysisJob → Type 0) (js : List AnalysisJob)
      → ((j : AnalysisJob) → P j → P (f j))
      → All P js
      → All P (update_jobs k f js)
  unfolding update_jobs
  update_jobs-All P [] h a = tt
  update_jobs-All P (j ∷ js) h a = elim (Bool-cases (eqb j.id k)) [
    | inl e ↦ rw e (h j a.0, update_jobs-All P js h a.1)
    | inr e ↦ rw e (a.0, update_jobs-All P js h a.1)
  ]

  update_jobs-IsUnique : (js : List AnalysisJob) → IsUnique js → IsUnique (update_jobs k f js)
  unfolding update_jobs
  update_jobs-IsUnique [] u = tt
  update_jobs-IsUnique (j ∷ js) u = elim (Bool-cases (eqb j.id k)) [
    | inl e ↦ rw e (
      update_jobs-All (λ i. eqb i.id (f j).id ≡ false) js keep
          (subst (λ x. All (λ i. eqb i.id x ≡ false) js) (sym (same j)) u.0),
      update_jobs-IsUnique js u.1,
    )
    | inr e ↦ rw e (
      update_jobs-All (λ i. eqb i.id j.id ≡ false) js (keep_id j.id) u.0,
      update_jobs-IsUnique js u.1,
    )
  ]
    where
      keep_id : (x : Uuid) (i : AnalysisJob) → eqb i.id x ≡ false → eqb (f i).id x ≡ false
      keep_id x i h = subst (λ y. eqb y x ≡ false) (sym (same i)) h

      keep : (i : AnalysisJob) → eqb i.id (f j).id ≡ false → eqb (f i).id (f j).id ≡ false
      keep = keep_id (f j).id

module _ (k : Uuid) (f : Dataset → Dataset) (same : (d : Dataset) → (f d).id ≡ d.id) where
  pub update_datasets-any_id :
      (i : Uuid) (ds : List Dataset)
      → any (λ d. eqb d.id i) (update_datasets k f ds) ≡ any (λ d. eqb d.id i) ds
  unfolding update_datasets
  update_datasets-any_id i [] = refl
  update_datasets-any_id i (d ∷ ds) = ground (arith, same d, update_datasets-any_id i ds)

  -- An update archives at most the dataset that it names.
  pub update_datasets-is_archived :
      (i : Uuid) (ds : List Dataset)
      → is_archived i (update_datasets k f ds) ≡ true
      → (is_archived i ds ≡ true) ⊎ (eqb k i ≡ true)
  unfolding update_datasets
  update_datasets-is_archived i [] a = inl a
  update_datasets-is_archived i (d ∷ ds) a =
      ground (arith, same d, update_datasets-is_archived i ds)

module _ (d : Uuid) (status : String) where
  pub change-archived :
      (i : Uuid) (ds : List Dataset)
      → is_archived i (update_datasets d (λ e. record e { status = status }) ds) ≡ true
      → is_archived i ds ≡ true
  unfolding update_datasets
  change-archived i [] a = a
  change-archived i (e ∷ ds) a = ground (arith, change-archived i ds)

  pub status-any_id :
      (i : Uuid) (ds : List Dataset)
      → any (λ e. eqb e.id i) (update_datasets d (λ e. record e { status = status }) ds)
        ≡ any (λ e. eqb e.id i) ds
  status-any_id = update_datasets-any_id d (λ e. record e { status = status }) (λ e. refl)

-- A record of a change of one row of jobs, and of the status of one dataset.
pub record RowChange (k d : Uuid) (f : AnalysisJob → AnalysisJob) (status : String) (db db' : Db)
    : Type 0 where
  pub jobs_set : db'.jobs ≡ update_jobs k f db.jobs
  pub datasets_set :
      db'.datasets ≡ update_datasets d (λ e. record e { status = status }) db.datasets

module _ (k d : Uuid) (f : AnalysisJob → AnalysisJob) (status : String)
    (same : (j : AnalysisJob) → (f j).id ≡ j.id)
    (stays : (j : AnalysisJob) → (f j).dataset_id ≡ j.dataset_id) where
  change-owned :
      (ds : List Dataset) (js : List AnalysisJob)
      → All (HasDataset ds) js
      → All
          (HasDataset (update_datasets d (λ e. record e { status = status }) ds))
          (update_jobs k f js)
  change-owned ds js h =
      let ds' = update_datasets d (λ e. record e { status = status }) ds in
      update_jobs-All k f same (HasDataset ds') js
        (λ j. subst (λ x. any (λ e. eqb e.id x) ds' ≡ true) (sym (stays j)))
        (All-map-of js
          (λ j o.
            update_datasets-any_id d (λ e. record e { status = status }) (λ e. refl) j.dataset_id ds
            ∙ o)
          h)

  -- Such a change keeps the invariant, if it leaves the result ready exactly if the job is completed
  -- and revives no finished job.
  pub RowChange-Sound :
      (db db' : Db)
      → ((j : AnalysisJob) → IsReady (f j))
      → All (IsCalm k f same) db.jobs
      → RowChange k d f status db db'
      → Sound db
      → Sound db'
  RowChange-Sound db db' fine calm c s =
      let fewer : (i : Uuid) → count_active i db'.jobs ≤ count_active i db.jobs =
        λ i. rw c.jobs_set (count_active-update_jobs-le k f same i db.jobs calm) in
      record {
        unique = rw c.jobs_set (update_jobs-IsUnique k f same db.jobs s.unique);
        owned = rw (c.jobs_set, c.datasets_set) (change-owned db.datasets db.jobs s.owned);
        ready = rw c.jobs_set (update_jobs-All k f same IsReady db.jobs (λ j _. fine j) s.ready);
        one_active = λ i. omega (arith, fewer i, s.one_active i);
        archived_idle = λ i. idle_if i db' (λ a.
            let before =
              change-archived d status i db.datasets
                (subst (λ ds. is_archived i ds ≡ true) c.datasets_set a) in
            omega (arith, fewer i, Sound-idle s i before));
      }
