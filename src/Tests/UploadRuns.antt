-- ===== src/Tests/UploadRuns.antt =====
-- Runs of backend/upload-service: one dataset with one job, from its upload to a retry.
use anti_fraud_detector.Prelude.{
  ◌*◌, String, Bool, true, false, ◌≡◌, ◌≢◌, ◌⊎◌, inl, refl, none, some, List, [], ◌∷◌, ◌==◌, arith,
  any, true≢false, map, sym, ap, ◌∙◌,
}
use anti_fraud_detector.Prelude.Text.{trim_space}
use anti_fraud_detector.Upload.Domain.{
  AnalysisJob, uploaded, normalizing, building_relations, scoring, failed,
}
use anti_fraud_detector.Upload.Db.{
  Db, done, in_tx, find_job, count_active, insert_audit_row, update_jobs, update_datasets,
}
use anti_fraud_detector.Upload.Repository.Rows.{create_dataset_with_file_and_job, job_with_dataset}
use anti_fraud_detector.Upload.Repository.Lifecycle.{
  claim_analysis_start, create_retry_job, archive_dataset, transition_from_event,
}
use anti_fraud_detector.Upload.Repository.Effects.{
  Retried, retry_effect, Archived, archive_outcome, archived_at,
}
use anti_fraud_detector.Upload.Pipeline.Handler.{
  PipelineEvent, Move, plan_event, handle_pipeline_event, read_event, react, apply_move,
  event_result,
}
use anti_fraud_detector.Upload.Pipeline.Progress.{IsForward, plan_event-rank}
use anti_fraud_detector.Upload.Pipeline.Trace.{
  Delivery, deliver_all, IsFurther, deliver_all-IsFurther,
}
use anti_fraud_detector.Upload.Invariant.Keep.{Sound}
use anti_fraud_detector.Upload.Invariant.Steps.{upload, claim, event, here, next, Reach-Sound}
use anti_fraud_detector.Upload.Invariant.Onward.{redelivery}
use anti_fraud_detector.Upload.Service.Start.{World, start_analysis_job, claimed_result, dispatch}
use anti_fraud_detector.Upload.Service.Once.{start_once}
use anti_fraud_detector.Upload.Status.View.{build_status_stages, status_index, status_progress}
use anti_fraud_detector.Upload.Status.Stages.{
  states, expected, failed_stages, status_progress-status_index,
}
use anti_fraud_detector.Tests.Samples.{
  ascii, healthy, parse_one, decode_all, job_in, tables, empty_tables, file_one, event_one,
}

abbrev running : Db
running = tables (job_in normalizing ∷ [])

abbrev waiting : Db
waiting = tables (job_in uploaded ∷ [])

abbrev stopped : Db
stopped = tables (job_in failed ∷ [])

abbrev normalized_twice : List (Delivery PipelineEvent)
normalized_twice =
    record { routing_key = "dataset.normalized"; body = event_one; now = 8; conn = healthy }
    ∷ record { routing_key = "dataset.normalized"; body = event_one; now = 9; conn = healthy }
    ∷ record { routing_key = "refund.relations.built"; body = event_one; now = 10; conn = healthy }
    ∷ []

deliver_all-IsFurther_example :
    (j' : AnalysisJob) × (find_job 1
        (deliver_all ascii decode_all parse_one normalized_twice running).jobs
      ≡ some j')
    × IsFurther (job_in normalizing) j'
deliver_all-IsFurther_example =
    deliver_all-IsFurther ascii decode_all parse_one normalized_twice running 1 (job_in normalizing)
      refl

-- The first delivery moves the job, and then a claim of it comes too late.
abbrev moved : Db
moved =
    (handle_pipeline_event ascii decode_all parse_one "dataset.normalized" event_one 8 healthy
      running).1

status_moved : map (λ (j : AnalysisJob). j.status) moved.jobs ≡ building_relations ∷ []
unfolding handle_pipeline_event read_event react plan_event apply_move event_result in_tx
    transition_from_event insert_audit_row trim_space update_datasets update_jobs
status_moved = refl

moved_on : moved ≢ running
moved_on e =
    let statuses : normalizing ∷ [] ≡ building_relations ∷ [] =
      sym (ap (λ (db : Db). map (λ (j : AnalysisJob). j.status) db.jobs) e) ∙ status_moved in
    true≢false (ap (λ ss. any (λ s. s == normalizing) ss) statuses)

redelivery_example :
    let later = (in_tx (claim_analysis_start 1 9) healthy moved).1 in
    (handle_pipeline_event ascii decode_all parse_one "dataset.normalized" event_one 9 healthy
      later).1
    ≡ later
redelivery_example =
    redelivery ascii decode_all parse_one "dataset.normalized" event_one 8 9 healthy healthy running
      (in_tx (claim_analysis_start 1 9) healthy moved).1 moved_on
      (next here (claim 1 9 healthy refl))

empty-Sound : Sound empty_tables
unfolding count_active
empty-Sound = record {
  unique = tt;
  owned = tt;
  ready = tt;
  one_active = λ k. omega arith;
  archived_idle = λ k. inl refl;
}

Reach-Sound_example :
    Sound
      (in_tx
        (claim_analysis_start 1 6)
        healthy
        (in_tx
          (create_dataset_with_file_and_job 1 file_one 1 "returns" "returns.csv" uploaded 5)
          healthy
          empty_tables).1).1
Reach-Sound_example = Reach-Sound ascii decode_all parse_one empty-Sound (
    next (next here (upload 1 file_one 1 "returns" "returns.csv" 5 healthy refl))
      (claim 1 6 healthy refl))

abbrev never : String → Bool
never s = false

abbrev world : World
world = record { db = waiting; outbox = [] }

sent_once :
    (start_analysis_job never true healthy healthy file_one (job_in uploaded) 6 world).1.outbox ≢ []
unfolding start_analysis_job claimed_result dispatch in_tx claim_analysis_start job_with_dataset
    insert_audit_row update_datasets update_jobs
sent_once e = ground arith

-- The world after the first start and one event of the pipeline.
abbrev later_world : World
later_world = record {
  db =
      (handle_pipeline_event ascii decode_all parse_one "dataset.normalized" event_one 8 healthy
        (start_analysis_job never true healthy healthy file_one (job_in uploaded) 6 world).1.db).1;
  outbox = [];
}

start_once_example :
    (start_analysis_job never true healthy healthy file_one
      (job_in uploaded)
      7
      later_world).1.outbox
    ≡ []
start_once_example =
    start_once never ascii decode_all parse_one true true healthy healthy healthy healthy file_one
      file_one (job_in uploaded) (job_in uploaded) 6 7 world later_world refl sent_once
      (next here (event "dataset.normalized" event_one 8 healthy refl))

retry_effect_example :
    let (result, db') = in_tx (create_retry_job "1" 1 2 9) healthy stopped in
    ((result ≢ done none) × (db' ≡ stopped)) ⊎ ((result ≡ done none) × Retried 1 2 9 stopped db')
retry_effect_example = retry_effect "1" 1 2 9 healthy stopped

archive_outcome_example :
    let (result, db') = in_tx (archive_dataset 1 9) healthy stopped in
    ((result ≢ done tt) × (db' ≡ stopped))
    ⊎ ((result ≡ done tt)
        × (((archived_at 1 stopped ≡ true) × (db' ≡ stopped))
            ⊎ ((archived_at 1 stopped ≡ false) × Archived 1 9 stopped db')))
archive_outcome_example = archive_outcome 1 9 healthy stopped

abbrev to_scoring : Move
to_scoring = record {
  allowed = "NORMALIZED" ∷ building_relations ∷ [];
  status = scoring;
  current_step = scoring;
  failed_stage = "";
  message = "";
}

planned : plan_event ascii "refund.relations.built" event_one ≡ some to_scoring
unfolding plan_event
planned = refl

plan_event-rank_example : IsForward to_scoring
plan_event-rank_example = plan_event-rank ascii "refund.relations.built" event_one planned

failed_stages_example :
    states (build_status_stages failed scoring) ≡ expected (status_index scoring) "failed"
failed_stages_example = failed_stages scoring refl

status_progress-status_index_example : status_progress scoring ≡ 20 * status_index scoring
status_progress-status_index_example = status_progress-status_index scoring refl
