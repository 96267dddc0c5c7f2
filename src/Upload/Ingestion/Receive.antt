-- ===== src/Upload/Ingestion/Receive.antt =====
-- UploadDatasetDetailed of backend/upload-service/internal/service/ingestion.go, and UploadDataset and
-- ConfigureUploadLimits of service.go. What the operating system, the object store and Go's packages
-- answer is a record. The repository has CreateDatasetWithFileAndJob and the store has Delete, as those
-- of the service do; a Put that fails is taken to have stored nothing. Closing the temporary file and
-- logging are left out.
pub mod Laws
pub mod Backed
pub mod Later
use anti_fraud_detector.Prelude.{
  ℕ, suc, String, Bool, true, false, ◌&&◌, ◌||◌, not, List, [], ◌∷◌, ◌==◌, if◌then◌else◌, eqb, ltb,
  leb, length, map, take, any, ◌<>◌,
}
use anti_fraud_detector.Prelude.Int.{ℤ, pos, negsuc}
use anti_fraud_detector.Prelude.Dict.{insert, remove}
use anti_fraud_detector.Prelude.Floats.{FloatOps, itoa}
use anti_fraud_detector.Prelude.Text.{CaseTable}
use anti_fraud_detector.Upload.Domain.{Uuid, Time, UploadedFile, uploaded}
use anti_fraud_detector.Upload.Db.{Db, Conn, Result, done, fail, in_tx}
use anti_fraud_detector.Upload.Repository.Rows.{create_dataset_with_file_and_job}
use anti_fraud_detector.Upload.Normalization.Rows.{SourceLine}
use anti_fraud_detector.Upload.Ingestion.Names.{
  file_ext, is_csv_ext, sanitize_filename, is_csv_content_type,
}
use anti_fraud_detector.Upload.Ingestion.Issues.{ValidationIssue, Invalid, invalid_issue}
use anti_fraud_detector.Upload.Ingestion.Rows.{
  Rules, Validation, valid, invalid, validate_csv_stream,
}

-- The limits of the service, all above zero.
pub record Limits : Type 0 where
  pub max_file_size : ℕ
  pub max_rows : ℕ
  pub max_errors : ℕ

abbrev pub default_limits : Limits
default_limits = record { max_file_size = 52428800; max_rows = 250000; max_errors = 100 }

-- `if n > 0 { limit = n }`.
abbrev pub if_positive : ℤ → ℕ → ℕ
if_positive (pos n) old = if ltb 0 n then n else old
if_positive (negsuc n) old = old

unfoldable pub configure_upload_limits : ℤ → ℤ → ℤ → Limits → Limits
configure_upload_limits max_file_size max_rows max_errors l = record {
  max_file_size = if_positive max_file_size l.max_file_size;
  max_rows = if_positive max_rows l.max_rows;
  max_errors = if_positive max_errors l.max_errors;
}

abbrev pub Bytes : Type 0
Bytes = List ℕ

pub record Request : Type 0 where
  pub body : Bytes
  pub declared_size : ℤ
  pub filename : String
  pub content_type : String

-- The steps that can fail, in the order of the code.
pub data IoStep : Type 0 where
  create_temp copy first_rewind read_probe second_rewind third_rewind put delete : IoStep

pub record Machine (F : Type 0) : Type 0 where
  pub fails : IoStep → Bool
  -- bytes.TrimSpace leaves nothing, http.DetectContentType, csv.Reader, and "datasets/%s.csv"
  pub is_blank : Bytes → Bool
  pub detect_content_type : Bytes → String
  pub read_csv : Bytes → List SourceLine
  pub object_name : Uuid → String
  pub ops : FloatOps F
  pub case_table : CaseTable
  pub quote : String → String
  pub parses : String → String → Bool
  pub conn : Conn
  pub dataset_id : Uuid
  pub job_id : Uuid
  pub file_id : Uuid
  pub now : Time

pub data UploadError : Type 0 where
  rejected : Invalid → UploadError
  internal : String → UploadError

pub record UploadResult : Type 0 where
  pub dataset_id : Uuid
  pub job_id : Uuid
  pub filename : String
  pub row_count : ℕ
  pub size_bytes : ℕ
  pub warnings : List ValidationIssue

-- The tables, and the objects of the bucket by their names.
pub record World : Type 0 where
  pub db : Db
  pub objects : List (String × Bytes)

-- What is known before anything is stored.
pub data Inspected : Type 0 where
  stop : UploadError → Inspected
  clean : ℕ → List ValidationIssue → Inspected

pub data Outcome : Type 0 where
  stored : UploadResult → Outcome
  failed : UploadError → Outcome

abbrev pub reject : String → String → Inspected
reject code message = stop (rejected (invalid_issue code message))

abbrev pub exceeds : ℤ → ℕ → Bool
exceeds (pos n) limit = ltb limit n
exceeds (negsuc n) limit = false

module _ {F : Type 0} (machine : Machine F) (limits : Limits) where
  too_large : String
  too_large = "uploaded file exceeds " <> itoa limits.max_file_size <> " byte limit"

  abbrev pub rules_of : Rules F
  rules_of = record {
    ops = machine.ops;
    case_table = machine.case_table;
    quote = machine.quote;
    parses = machine.parses;
    max_rows = limits.max_rows;
    max_errors = limits.max_errors;
  }

  inspected_rows : Validation → Inspected
  inspected_rows (invalid i) = stop (rejected i)
  inspected_rows (valid rows warnings) =
      if machine.fails third_rewind then stop (internal "rewind upload") else clean rows warnings

  -- The look at the first 512 bytes, and the check of all the rows.
  inspect_content : Request → Bytes → Inspected
  unfolding inspected_rows
  inspect_content request content =
      let probe = take 512 content in
      if machine.fails read_probe
      then stop (internal "inspect upload")
      else if machine.is_blank probe && leb (length content) 512
      then reject "EMPTY_FILE" "uploaded CSV is empty"
      else if any (λ b. eqb b 0) probe
      then reject "INVALID_MIME" "uploaded file must be textual CSV"
      else if not (is_csv_content_type machine.case_table request.content_type)
          || not (is_csv_content_type machine.case_table (machine.detect_content_type probe))
      then reject "INVALID_MIME" "uploaded file must have a CSV or plain-text content type"
      else if machine.fails second_rewind
      then stop (internal "rewind upload")
      else inspected_rows (validate_csv_stream rules_of (machine.read_csv content))

  -- The copy to the temporary file reads one byte more than is allowed.
  unfoldable pub inspect : Request → Inspected
  unfolding too_large inspect_content
  inspect request =
      let content = take (suc limits.max_file_size) request.body in
      if not (is_csv_ext (file_ext (sanitize_filename request.filename)))
      then reject "INVALID_EXTENSION" "uploaded file must have .csv extension"
      else if exceeds request.declared_size limits.max_file_size
      then reject "FILE_TOO_LARGE" too_large
      else if machine.fails create_temp
      then stop (internal "create upload spool")
      else if machine.fails copy
      then stop (internal "read upload")
      else if ltb limits.max_file_size (length content)
      then reject "FILE_TOO_LARGE" too_large
      else if eqb (length content) 0
      then reject "EMPTY_FILE" "uploaded CSV is empty"
      else if machine.fails first_rewind
      then stop (internal "rewind upload")
      else inspect_content request content

  abbrev pub message_of : ValidationIssue → String
  message_of i = i.message

  -- The row of uploaded_files.
  abbrev pub file_row : Bytes → ℕ → List ValidationIssue → UploadedFile
  file_row content rows warnings = record {
    id = machine.file_id;
    dataset_id = machine.dataset_id;
    file_path = machine.object_name machine.dataset_id;
    file_type = "csv";
    uploaded_at = machine.now;
    size_bytes = length content;
    row_count = rows;
    warnings = map message_of warnings;
  }

  -- The object is deleted again when the records cannot be created.
  record_upload :
      String
      → Bytes
      → ℕ
      → List ValidationIssue
      → List (String × Bytes)
      → Result (Unit {0}) × Db
      → Outcome × World
  record_upload filename content rows warnings objects (fail e, db) =
      let kept =
        if machine.fails delete
        then objects
        else remove (machine.object_name machine.dataset_id) objects in
      (failed (internal "create upload records"), record { db = db; objects = kept })
  record_upload filename content rows warnings objects (done _, db) = (
    stored (record {
      dataset_id = machine.dataset_id;
      job_id = machine.job_id;
      filename = filename;
      row_count = rows;
      size_bytes = length content;
      warnings = warnings;
    }),
    record { db = db; objects = objects },
  )

  store_upload : Request → Inspected → World → Outcome × World
  unfolding record_upload
  store_upload request (stop e) w = (failed e, w)
  store_upload request (clean rows warnings) w =
      let filename = sanitize_filename request.filename in
      let content = take (suc limits.max_file_size) request.body in
      if machine.fails put
      then (failed (internal "upload object"), w)
      else record_upload filename content rows warnings
          (insert (machine.object_name machine.dataset_id) content w.objects)
          (in_tx
            (create_dataset_with_file_and_job machine.dataset_id (file_row content rows warnings)
              machine.job_id filename filename uploaded machine.now)
            machine.conn w.db)

  unfoldable pub upload_dataset_detailed : Request → World → Outcome × World
  unfolding store_upload
  upload_dataset_detailed request w = store_upload request (inspect request) w

-- The ids of the dataset and of the job, or the error.
pub data Ids : Type 0 where
  ids : Uuid → Uuid → Ids
  no_ids : UploadError → Ids

ids_of : Outcome → Ids
ids_of (stored r) = ids r.dataset_id r.job_id
ids_of (failed e) = no_ids e

unfoldable pub upload_dataset :
    {F : Type 0} → Machine F → Limits → Bytes → ℤ → String → World → Ids × World
unfolding ids_of
upload_dataset machine limits body size filename w =
    let result =
      upload_dataset_detailed machine limits
        (record {
          body = body;
          declared_size = size;
          filename = filename;
          content_type = "text/csv";
        })
        w in
    (ids_of result.0, result.1)
