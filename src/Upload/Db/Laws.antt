-- ===== src/Upload/Db/Laws.antt =====
-- What an UPDATE by primary key does to lookups and counts.
use anti_fraud_detector.Prelude.{
  ◌≤◌, true, false, ◌≡◌, some, List, [], ◌∷◌, if◌then◌else◌, eqb, eqb→eq, arith, All, All-map-of,
  Bool-cases, inl, inr,
}
use mathlib.Core.Option
use anti_fraud_detector.Upload.Domain.{Uuid, AnalysisJob, is_terminal}
use anti_fraud_detector.Upload.Db.{find_job, update_jobs, count_active}

module _ (k : Uuid) (f : AnalysisJob → AnalysisJob)
    (same : (j : AnalysisJob) → (f j).id ≡ j.id) where
  pub find_job-update_jobs :
      (i : Uuid) (js : List AnalysisJob)
      → find_job i (update_jobs k f js)
        ≡ (if eqb k i then Option.map f (find_job i js) else find_job i js)
  unfolding update_jobs
  find_job-update_jobs i [] = ground arith
  find_job-update_jobs i (j ∷ js) = ground (arith, same j, find_job-update_jobs i js)

  -- An update that moves no job to another dataset, and makes no finished job active again.
  abbrev pub IsCalm : AnalysisJob → Type 0
  IsCalm j =
      eqb j.id k ≡ true
      → ((f j).dataset_id ≡ j.dataset_id)
        × (is_terminal j.status ≡ true → is_terminal (f j).status ≡ true)

  -- No dataset gets more active jobs by it.
  pub count_active-update_jobs-le :
      (d : Uuid) (js : List AnalysisJob)
      → All IsCalm js
      → count_active d (update_jobs k f js) ≤ count_active d js
  unfolding update_jobs count_active
  count_active-update_jobs-le d [] h = omega arith
  count_active-update_jobs-le d (j ∷ js) h =
      ground (arith, h.0, count_active-update_jobs-le d js h.1)

-- Primary keys.
abbrev pub IsUnique : List AnalysisJob → Type 0
IsUnique [] = Unit
IsUnique (j ∷ js) = All (λ i. eqb i.id j.id ≡ false) js × IsUnique js

module _ (k : Uuid) (job : AnalysisJob) where
  absent :
      (i : Uuid) (js : List AnalysisJob)
      → i ≡ k
      → All (λ j. eqb j.id i ≡ false) js
      → All (λ j. eqb j.id k ≡ true → j ≡ job) js
  absent i js e h =
      All-map-of {Q = λ j. eqb j.id k ≡ true → j ≡ job} js (λ j n m. ground (arith, e)) h

  -- A job that is found by its key is the only one with it.
  pub found-is_only :
      (js : List AnalysisJob)
      → IsUnique js
      → find_job k js ≡ some job
      → All (λ j. eqb j.id k ≡ true → j ≡ job) js
  found-is_only [] u h = tt
  found-is_only (j ∷ js) u h = elim (Bool-cases (eqb j.id k)) [
    | inl e ↦ ((λ _. ground arith), absent j.id js (eqb→eq _ _ e) u.0)
    | inr e ↦ ((λ m. cc), found-is_only js u.1 (ground arith))
  ]
