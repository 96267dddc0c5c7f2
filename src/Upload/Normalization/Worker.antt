-- ===== src/Upload/Normalization/Worker.antt =====
-- HandleRabbitEvent, HandleDatasetUploaded and publishNormalizationFailure of
-- backend/upload-service/internal/service/normalization.go, with the object store, the directory of
-- normalized files and the broker around normalizeUploadedObject. JSON, UUIDs, the CSV reader, the path of a
-- file and the text of an error are arguments. A failing write is noticed when the rows are flushed. The
-- temporary file is renamed when it is complete and removed otherwise, so only the final file is kept here.
pub mod Reports
use anti_fraud_detector.Prelude.{
  ℕ, String, Bool, true, false, Option, none, some, List, [], ◌∷◌, ◌==◌, if◌then◌else◌, length,
}
use anti_fraud_detector.Prelude.Dict.{lookup, insert}
use anti_fraud_detector.Prelude.Floats.{FloatOps}
use anti_fraud_detector.Prelude.Text.{CaseTable, trim_space}
use anti_fraud_detector.Upload.Domain.{Uuid, Time}
use anti_fraud_detector.Upload.Db.{Db, Conn}
use anti_fraud_detector.Upload.Normalization.Fields.{Clock, NormalizedRow}
use anti_fraud_detector.Upload.Normalization.Rows.{
  SourceLine, SourceError, Written, written, refused, normalize_uploaded_object,
}
use anti_fraud_detector.Upload.Pipeline.Handler.{PipelineEvent, EventError, handle_pipeline_event}

-- The fields of dataset.uploaded that are read.
pub record UploadedEvent : Type 0 where
  pub dataset_id : String
  pub job_id : String
  pub file_path : String

pub record NormalizedEvent : Type 0 where
  pub dataset_id : String
  pub job_id : String
  pub records_path : String
  pub record_count : ℕ
  pub schema_version : String

pub record FailedEvent : Type 0 where
  pub dataset_id : String
  pub job_id : String
  pub stage : String
  pub message : String

pub data Notice : Type 0 where
  dataset_normalized : NormalizedEvent → Notice
  normalization_failed : FailedEvent → Notice

-- The steps that can fail, and why a normalization fails.
pub data WorkStep : Type 0 where
  get_object make_directory create_temporary flush_rows close_temporary rename_temporary : WorkStep

pub data Cause : Type 0 where
  no_path : Cause
  step_failed : WorkStep → Cause
  source_refused : SourceError → Cause

-- An error that is permanent, or one that the consumer retries.
pub data WorkError : Type 0 where
  permanent retryable : String → WorkError

-- The objects of the bucket, the normalized files, and the events sent.
pub record Works (Content : Type 0) : Type 0 where
  pub objects : List (String × Content)
  pub files : List (String × List NormalizedRow)
  pub sent : List Notice

pub record Tools (F Content Body : Type 0) : Type 0 where
  pub ops : FloatOps F
  pub case_table : CaseTable
  pub clock : Clock F
  pub decode : Body → Option UploadedEvent
  pub parse_uuid : String → Option Uuid
  pub read_csv : Content → List SourceLine
  pub path_of : String → String
  pub describe : Cause → String
  pub fails : WorkStep → Bool
  -- whether the broker takes the event of this call
  pub takes : Bool

abbrev pub dataset_uploaded_routing_key : String
dataset_uploaded_routing_key = "dataset.uploaded"

abbrev pub normalized_schema_version : String
normalized_schema_version = "refund-normalized.v1"

pub data Normalization : Type 0 where
  committed : String → List NormalizedRow → Normalization
  failed : Cause → Normalization

module _ {F Content Body : Type 0} (tools : Tools F Content Body) where
  commit_rows : UploadedEvent → Written → Normalization
  commit_rows event (refused e) = failed (source_refused e)
  commit_rows event (written rows) =
      if tools.fails flush_rows
      then failed (step_failed flush_rows)
      else if tools.fails close_temporary
      then failed (step_failed close_temporary)
      else if tools.fails rename_temporary
      then failed (step_failed rename_temporary)
      else committed (tools.path_of event.dataset_id) rows

  unfoldable pub normalize_object : UploadedEvent → Works Content → Normalization
  unfolding commit_rows
  normalize_object event w =
      if tools.fails get_object
      then failed (step_failed get_object)
      else elim (lookup event.file_path w.objects) [
        | none ↦ failed (step_failed get_object)
        | some content ↦
            if tools.fails make_directory
            then failed (step_failed make_directory)
            else if tools.fails create_temporary
            then failed (step_failed create_temporary)
            else commit_rows event (
                normalize_uploaded_object tools.ops tools.case_table tools.clock
                  (tools.read_csv content))
      ]

  publish_normalization_failure :
      UploadedEvent → Cause → Works Content → Option WorkError × Works Content
  publish_normalization_failure event cause w =
      let notice = normalization_failed (record {
        dataset_id = event.dataset_id;
        job_id = event.job_id;
        stage = "NORMALIZATION";
        message = tools.describe cause;
      }) in
      if tools.takes
      then (none, record w { sent = notice ∷ w.sent })
      else (some (retryable "normalization failed and failure event could not be published"), w)

  publish_normalized :
      UploadedEvent → Normalization → Works Content → Option WorkError × Works Content
  unfolding publish_normalization_failure
  publish_normalized event (failed cause) w = publish_normalization_failure event cause w
  publish_normalized event (committed path rows) w =
      let stored = record w { files = insert path rows w.files } in
      let notice = dataset_normalized (record {
        dataset_id = event.dataset_id;
        job_id = event.job_id;
        records_path = path;
        record_count = length rows;
        schema_version = normalized_schema_version;
      }) in
      if tools.takes
      then (none, record stored { sent = notice ∷ w.sent })
      else (some (retryable "publish dataset.normalized"), stored)

  normalize_event : UploadedEvent → Works Content → Option WorkError × Works Content
  unfolding publish_normalized publish_normalization_failure
  normalize_event event w = elim (tools.parse_uuid (trim_space event.dataset_id)) [
    | none ↦ (some (permanent "dataset.uploaded event has invalid datasetId"), w)
    | some d ↦ elim (tools.parse_uuid (trim_space event.job_id)) [
      | none ↦ (some (permanent "dataset.uploaded event has invalid jobId"), w)
      | some j ↦
          if trim_space event.file_path == ""
          then publish_normalization_failure event no_path w
          else publish_normalized event (normalize_object event w) w
    ]
  ]

  unfoldable pub handle_dataset_uploaded : Body → Works Content → Option WorkError × Works Content
  unfolding normalize_event
  handle_dataset_uploaded body w = elim (tools.decode body) [
    | none ↦ (some (permanent "invalid dataset.uploaded event JSON"), w)
    | some event ↦ normalize_event event w
  ]

-- The error of either handler.
pub data RabbitError : Type 0 where
  of_upload : WorkError → RabbitError
  of_pipeline : EventError → RabbitError

module _ {F Content Body : Type 0} (tools : Tools F Content Body)
    (decode : Body → Option PipelineEvent) where
  from_upload : Db → Option WorkError × Works Content → Option RabbitError × Db × Works Content
  from_upload db (none, w) = (none, db, w)
  from_upload db (some e, w) = (some (of_upload e), db, w)

  from_pipeline : Works Content → Option EventError × Db → Option RabbitError × Db × Works Content
  from_pipeline w (none, db) = (none, db, w)
  from_pipeline w (some e, db) = (some (of_pipeline e), db, w)

  unfoldable pub handle_rabbit_event :
      String → Body → Time → Conn → Db → Works Content → Option RabbitError × Db × Works Content
  unfolding from_upload from_pipeline
  handle_rabbit_event routing_key body now conn db w =
      if routing_key == dataset_uploaded_routing_key
      then from_upload db (handle_dataset_uploaded tools body w)
      else from_pipeline w (
          handle_pipeline_event tools.case_table decode tools.parse_uuid routing_key body now conn
            db)
