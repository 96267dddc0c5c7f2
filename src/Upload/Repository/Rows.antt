-- ===== src/Upload/Repository/Rows.antt =====
-- Inserting and reading rows: the first half of
-- backend/upload-service/internal/repository/repository.go, and insertAudit.
use anti_fraud_detector.Prelude.{
  String, Bool, true, false, ◌&&◌, ◌||◌, Option, none, some, List, [], ◌∷◌, if◌then◌else◌, eqb, ltb,
}
use anti_fraud_detector.Upload.Domain.{Uuid, Time, Dataset, UploadedFile, AnalysisJob}
use anti_fraud_detector.Upload.Db.{
  Db, Tx, ◌>>◌, exec, query_row, find_job, find_dataset, insert_dataset, insert_file, insert_job,
  insert_audit_row,
}

-- insertAudit.
abbrev pub insert_audit :
    Uuid → Option Uuid → String → String → String → String → Time → Tx (Unit {0})
insert_audit dataset_id job_id event_type from_status to_status message now = exec (
    insert_audit_row (record {
      dataset_id = dataset_id;
      job_id = job_id;
      event_type = event_type;
      from_status = from_status;
      to_status = to_status;
      message = message;
      created_at = now;
    }))

abbrev pub new_dataset : Uuid → String → String → String → Time → Dataset
new_dataset id name original_filename status created_at = record {
  id = id;
  name = name;
  original_filename = original_filename;
  status = status;
  created_at = created_at;
  archived_at = none;
}

-- A row of analysis_jobs with the columns that its INSERT does not name at their defaults.
abbrev pub new_job : Uuid → Uuid → String → String → Option Uuid → Time → Time → AnalysisJob
new_job id dataset_id status current_step retry_of created_at updated_at = record {
  id = id;
  dataset_id = dataset_id;
  status = status;
  current_step = current_step;
  failed_stage = "";
  error = "";
  result_ready = false;
  retry_of_job_id = retry_of;
  created_at = created_at;
  updated_at = updated_at;
  started_at = none;
  completed_at = none;
  failed_at = none;
}

unfoldable pub create_dataset_with_file :
    Uuid → Uuid → String → String → String → String → String → Time → Time → Tx (Unit {0})
create_dataset_with_file file_id dataset_id name filename status path file_type uploaded_at now = do
  exec (insert_dataset (new_dataset dataset_id name filename status now))
  exec (
      insert_file (record {
        id = file_id;
        dataset_id = dataset_id;
        file_path = path;
        file_type = file_type;
        uploaded_at = uploaded_at;
        size_bytes = 0;
        row_count = 0;
        warnings = [];
      }))

unfoldable pub create_dataset_with_file_and_job :
    Uuid → UploadedFile → Uuid → String → String → String → Time → Tx (Unit {0})
create_dataset_with_file_and_job dataset_id file job_id name filename status now = do
  exec (insert_dataset (new_dataset dataset_id name filename status now))
  exec (insert_file (record file { dataset_id = dataset_id; uploaded_at = now }))
  exec (insert_job (new_job job_id dataset_id status status none now now))
  insert_audit dataset_id (some job_id) "dataset.uploaded" "" status
      "Dataset uploaded and validated." now

unfoldable pub create_analysis_job : Uuid → Uuid → String → String → Time → Time → Tx (Unit {0})
create_analysis_job job_id dataset_id status current_step created_at updated_at =
    exec (insert_job (new_job job_id dataset_id status current_step none created_at updated_at))

-- ORDER BY uploaded_at DESC LIMIT 1.
unfoldable pub latest_file : Uuid → List UploadedFile → Option UploadedFile
latest_file k [] = none
latest_file k (f ∷ fs) =
    let rest = latest_file k fs in
    if eqb f.dataset_id k
    then elim rest [
      | none ↦ some f
      | some g ↦ if ltb f.uploaded_at g.uploaded_at then some g else some f
    ]
    else rest

unfoldable pub get_uploaded_file_by_dataset_id : Uuid → Tx UploadedFile
get_uploaded_file_by_dataset_id k = query_row (λ db. latest_file k db.files)

unfoldable pub get_analysis_job_by_id : Uuid → Tx AnalysisJob
get_analysis_job_by_id k = query_row (λ db. find_job k db.jobs)

-- ORDER BY created_at DESC, id DESC.
abbrev pub is_later : AnalysisJob → AnalysisJob → Bool
is_later j i = ltb i.created_at j.created_at || (eqb i.created_at j.created_at && ltb i.id j.id)

unfoldable pub latest_job : Uuid → List AnalysisJob → Option AnalysisJob
latest_job k [] = none
latest_job k (j ∷ js) =
    let rest = latest_job k js in
    if eqb j.dataset_id k
    then elim rest [ none ↦ some j | some i ↦ if is_later i j then some i else some j ]
    else rest

unfoldable pub get_latest_analysis_job_by_dataset_id : Uuid → Tx AnalysisJob
get_latest_analysis_job_by_dataset_id k = query_row (λ db. latest_job k db.jobs)

-- The row of `analysis_jobs j JOIN datasets d ON d.id = j.dataset_id WHERE j.id = k`.
unfoldable pub job_with_dataset : Uuid → Db → Option (AnalysisJob × Dataset)
job_with_dataset k db = elim (find_job k db.jobs) [
  | none ↦ none
  | some j ↦ elim (find_dataset j.dataset_id db.datasets) [ none ↦ none | some d ↦ some (j, d) ]
]

abbrev pub is_some {ℓ} : {A : Type ℓ} → Option A → Bool
is_some none = false
is_some (some a) = true

-- COALESCE(old, new), and CASE WHEN test THEN new ELSE old END.
abbrev pub coalesce : Option Time → Time → Option Time
coalesce none now = some now
coalesce (some t) now = some t

abbrev pub case_when : Bool → Time → Option Time → Option Time
case_when test now old = if test then some now else old
