-- ===== src/Upload/Status/Stages.antt =====
-- What the stages of the status view show.
use anti_fraud_detector.Prelude.{
  ℕ, suc, ◌*◌, String, true, ◌≡◌, refl, sym, inl, inr, List, [], ◌∷◌, if◌then◌else◌, eqb, ltb, map,
  All, text_cases, arith, true≢false,
}
use anti_fraud_detector.Upload.Domain.{
  ordered_pipeline_statuses, uploaded, normalizing, normalized, building_relations, scoring,
  completed, failed, among,
}
use anti_fraud_detector.Upload.Status.View.{
  StatusStage, status_index, status_progress, build_status_stages,
}

-- What holds of each status of the pipeline holds of any that is among them.
pipeline-elim :
    (P : String → Type 0)
    → P uploaded
    → P normalizing
    → P normalized
    → P building_relations
    → P scoring
    → P completed
    → (s : String) → among s ordered_pipeline_statuses ≡ true
    → P s
pipeline-elim P a b c d e f s h = at ordered_pipeline_statuses (a, (b, (c, (d, (e, (f, tt)))))) h
  where
    at : (cs : List String) → All P cs → among s cs ≡ true → P s
    at [] p h = absurd (true≢false (sym h))
    at (x ∷ cs) p h = elim (text_cases x s) [
      | inl (e, _) ↦ rw (← e) p.0
      | inr m ↦ at cs p.1 (ground arith)
    ]

-- The stages as a list of states: `n` stages done, then one in the state given, then the rest.
abbrev pub expected : ℕ → String → List String
expected n now = go 0 ordered_pipeline_statuses
  where
    go : ℕ → List String → List String
    go i [] = []
    go i (s ∷ ss) =
        (if ltb i n then "completed" else if eqb i n then now else "pending") ∷ go (suc i) ss

abbrev pub states : List StatusStage → List String
states = map (λ s. s.state)

-- For every status of the pipeline the progress is 20 percent for each stage passed.
pub status_progress-status_index :
    (s : String)
    → among s ordered_pipeline_statuses ≡ true
    → status_progress s ≡ 20 * status_index s
unfolding status_progress status_index
status_progress-status_index =
    pipeline-elim (λ s. status_progress s ≡ 20 * status_index s) refl refl refl refl refl refl

-- A job that failed in a step of the pipeline shows the steps before it as completed, that step as
-- failed and the later ones as pending, whatever the failed step was.
pub failed_stages :
    (s : String)
    → among s ordered_pipeline_statuses ≡ true
    → states (build_status_stages failed s) ≡ expected (status_index s) "failed"
unfolding build_status_stages status_index
failed_stages =
    pipeline-elim (λ s. states (build_status_stages failed s) ≡ expected (status_index s) "failed")
      refl refl refl refl refl refl
