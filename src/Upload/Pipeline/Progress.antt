-- ===== src/Upload/Pipeline/Progress.antt =====
-- The events of the pipeline move a job forward only, whatever their order and number.
use anti_fraud_detector.Prelude.{
  ℕ, ◌<◌, String, true, ◌≡◌, sym, ◌⊎◌, inl, inr, Option, none, some, List, [], ◌∷◌, if◌then◌else◌,
  ◌==◌, arith, text_cases, All, true≢false, if_ensures, subst,
}
use anti_fraud_detector.Prelude.Text.{CaseTable}
use anti_fraud_detector.Upload.Domain.{
  among, uploaded, normalizing, normalized, building_relations, scoring, completed,
}
use anti_fraud_detector.Upload.Pipeline.Handler.{
  Move, PipelineEvent, allowed_before, failure, plan_event, dataset_normalized_routing_key,
  relations_built_routing_key, scoring_completed_routing_key, pipeline_failed_routing_key,
}

-- How far a status is along the pipeline.
abbrev pub rank : String → ℕ
rank status =
    if status == uploaded
    then 0
    else if status == normalizing
    then 1
    else if status == normalized
    then 2
    else if status == building_relations
    then 3
    else if status == scoring
    then 4
    else if status == completed
    then 5
    else 6

abbrev pub IsForward : Move → Type 0
IsForward m = (s : String) → among s m.allowed ≡ true → rank s < rank m.status

abbrev IsForwardPlan : Option Move → Type 0
IsForwardPlan none = Unit
IsForwardPlan (some m) = IsForward m

-- A test among constants names the text.
among-cons :
    (s c : String) (cs : List String) → among s (c ∷ cs) ≡ true → (s ≡ c) ⊎ (among s cs ≡ true)
among-cons s c cs h = elim (text_cases c s) [
  | inl (e, _) ↦ inl (sym e)
  | inr no_match ↦ inr (ground arith)
]

-- A list of constants, each of which ranks below a bound.
rank-among :
    (bound : ℕ) (cs : List String)
    → All (λ c. rank c < bound) cs
    → (s : String) → among s cs ≡ true
    → rank s < bound
rank-among bound [] below s h = absurd (true≢false (sym h))
rank-among bound (c ∷ cs) below s h = elim (among-cons s c cs h) [
  | inl e ↦ rw e below.0
  | inr later ↦ rank-among bound cs below.1 s later
]

allowed_before-active : (stage : String) → All (λ c. rank c < 6) (allowed_before stage)
unfolding allowed_before
allowed_before-active stage = ground arith

failure-IsForward : (u : CaseTable) (event : PipelineEvent) → IsForward (failure u event)
unfolding failure
failure-IsForward u event =
    rank-among 6 (failure u event).allowed (allowed_before-active (failure u event).failed_stage)

-- Each move leads from a lower rank to a higher one.
plan_event-IsForwardPlan :
    (u : CaseTable) (routing_key : String) (event : PipelineEvent)
    → IsForwardPlan (plan_event u routing_key event)
unfolding plan_event
plan_event-IsForwardPlan u routing_key event =
    if_ensures IsForwardPlan (routing_key == dataset_normalized_routing_key)
      (rank-among 3 (normalizing ∷ []) (omega arith))
      (if_ensures IsForwardPlan (routing_key == relations_built_routing_key)
        (rank-among 4 (normalized ∷ building_relations ∷ []) (omega arith))
        (if_ensures IsForwardPlan (routing_key == scoring_completed_routing_key)
          (rank-among 5 (scoring ∷ []) (omega arith))
          (if_ensures IsForwardPlan (routing_key == pipeline_failed_routing_key)
            (failure-IsForward u event) tt)))

-- Every event that is understood asks for a status that is further along the pipeline than each of the
-- statuses from which it is allowed.
pub plan_event-rank :
    (u : CaseTable) (routing_key : String) (event : PipelineEvent) {move : Move}
    → plan_event u routing_key event ≡ some move
    → IsForward move
plan_event-rank u routing_key event h =
    subst IsForwardPlan h (plan_event-IsForwardPlan u routing_key event)
