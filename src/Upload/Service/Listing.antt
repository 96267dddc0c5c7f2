-- ===== src/Upload/Service/Listing.antt =====
-- ListDatasets and GetDatasetDetails of backend/upload-service/internal/service/management.go, over the
-- queries of the repository. `int` has 64 bits: an offset that leaves them is negative, and the
-- database refuses it.
pub mod Pages
use anti_fraud_detector.Prelude.{
  ℕ, zero, suc, ◌+◌, ◌-◌, ◌*◌, ◌/◌, ◌%◌, ◌^◌, String, Bool, true, false, ◌&&◌, ◌||◌, not, Option,
  none, some, List, [], ◌==◌, if◌then◌else◌, ltb, length, map, ◌<>◌,
}
use anti_fraud_detector.Prelude.Int.{ℤ, pos, negsuc}
use anti_fraud_detector.Prelude.Text.{CaseTable, to_upper, trim_space}
use anti_fraud_detector.Upload.Domain.{
  Uuid, Time, AnalysisJob, AuditEvent, completed, is_allowed_status,
}
use anti_fraud_detector.Upload.Db.{
  DbError, driver, no_rows, Db, Conn, Result, done, fail, auto_commit,
}
use anti_fraud_detector.Upload.Repository.Listing.{
  DatasetFilter, DatasetListItem, list_datasets, get_dataset, list_analysis_jobs, list_audit_events,
}
use anti_fraud_detector.Upload.Status.View.{AnalysisStatusResponse, build_analysis_status_response}
use anti_fraud_detector.Upload.Service.Start.{
  ServiceError, not_found, invalid_upload, internal, Answer, answer, refuse, error_text,
}

pub record DatasetSummary : Type 0 where
  pub id : Uuid
  pub name : String
  pub filename : String
  pub status : String
  pub result_ready : Bool
  pub latest_job_id : Option Uuid
  pub row_count : ℕ
  pub size_bytes : ℕ
  pub warning_count : ℕ
  pub uploaded_at : Time

pub record DatasetListResponse : Type 0 where
  pub items : List DatasetSummary
  pub page : ℕ
  pub page_size : ℕ
  pub total : ℕ
  pub total_pages : ℕ

abbrev pub summary_of : DatasetListItem → DatasetSummary
summary_of item = record {
  id = item.dataset.id;
  name = item.dataset.name;
  filename = item.dataset.original_filename;
  status = elim item.latest_job [ none ↦ item.dataset.status | some j ↦ j.status ];
  result_ready = elim item.latest_job [
    | none ↦ false
    | some j ↦ j.result_ready || j.status == completed
  ];
  latest_job_id = elim item.latest_job [ none ↦ none | some j ↦ some j.id ];
  row_count = item.row_count;
  size_bytes = item.size_bytes;
  warning_count = length item.warnings;
  uploaded_at = item.dataset.created_at;
}

-- page < 1, pageSize < 1 and pageSize > 100.
abbrev pub at_least_one : ℤ → ℕ → ℕ
at_least_one (pos zero) default = default
at_least_one (pos (suc n)) default = suc n
at_least_one (negsuc n) default = default

unfoldable pub page_size_of : ℤ → ℕ
page_size_of n = let size = at_least_one n 20 in if ltb 100 size then 100 else size

-- (page - 1) * pageSize in 64 bits, if it is not negative.
unfoldable pub offset_of : ℕ → ℕ → Option ℕ
offset_of page size =
    let offset = (page - 1) * size % 2 ^ 64 in if ltb offset (2 ^ 63) then some offset else none

unfoldable pub total_pages_of : ℕ → ℕ → ℕ
total_pages_of total size = if ltb 0 total then (total + size - 1) / size else 0

abbrev pub is_later_than : Option Time → Option Time → Bool
is_later_than none to = false
is_later_than (some from) none = false
is_later_than (some from) (some to) = ltb to from

listed : ℕ → ℕ → Result (List DatasetListItem × ℕ) → Answer DatasetListResponse
listed page size (fail e) = refuse (internal (error_text e))
listed page size (done (items, total)) = answer (record {
  items = map summary_of items;
  page = page;
  page_size = size;
  total = total;
  total_pages = total_pages_of total size;
})

unfoldable pub list_page :
    CaseTable
    → (String → String)
    → String
    → Option Time
    → Option Time
    → ℤ
    → ℤ
    → Conn
    → Db
    → Answer DatasetListResponse
unfolding listed
list_page u quote raw_status from to asked_page asked_size conn db =
    let page = at_least_one asked_page 1 in
    let size = page_size_of asked_size in
    let status = to_upper u (trim_space raw_status) in
    if not (status == "") && not (is_allowed_status status)
    then refuse (invalid_upload ("unsupported status filter " <> quote status))
    else if is_later_than from to
    then refuse (invalid_upload "from must not be later than to")
    else elim (offset_of page size) [
      | none ↦ refuse (internal (error_text driver))
      | some offset ↦
          listed page size
            (auto_commit
              (list_datasets u
                (record { status = status; from = from; to = to; limit = size; offset = offset }))
              conn db).0
    ]

pub record DatasetDetailsResponse : Type 0 where
  pub dataset : DatasetListItem
  pub jobs : List AnalysisStatusResponse
  pub audit : List AuditEvent

dataset_error : DbError → ServiceError
dataset_error no_rows = not_found "dataset"
dataset_error e = internal (error_text e)

unfoldable pub get_dataset_details :
    CaseTable → (ℕ → Conn) → Uuid → Db → Answer DatasetDetailsResponse
unfolding dataset_error
get_dataset_details u conns k db = elim (auto_commit (get_dataset k) (conns 0) db).0 [
  | fail e ↦ refuse (dataset_error e)
  | done dataset ↦ elim (auto_commit (list_analysis_jobs k) (conns 1) db).0 [
    | fail e ↦ refuse (internal (error_text e))
    | done jobs ↦ elim (auto_commit (list_audit_events k) (conns 2) db).0 [
      | fail e ↦ refuse (internal (error_text e))
      | done audit ↦ answer (record {
        dataset = dataset;
        jobs = map (build_analysis_status_response u) jobs;
        audit = audit;
      })
    ]
  ]
]
