-- ===== src/Upload/Repository/Listing.antt =====
-- ListDatasets, GetDataset, ListAnalysisJobs and ListAuditEvents of
-- backend/upload-service/internal/repository/repository.go. The rows of a query come in the order of its
-- ORDER BY; audit events are kept newest first, so that of equal times the greater id comes first.
use anti_fraud_detector.Prelude.{
  ℕ, String, Bool, true, ◌&&◌, ◌||◌, not, Option, none, some, List, [], ◌==◌, eqb, ltb, length,
  keep, map, take, drop,
}
use anti_fraud_detector.Prelude.Sorting.{sort_stable}
use anti_fraud_detector.Prelude.Text.{CaseTable, to_upper}
use anti_fraud_detector.Upload.Domain.{Uuid, Time, Dataset, AnalysisJob, AuditEvent}
use anti_fraud_detector.Upload.Db.{Db, Tx, ◌>>=◌, return, query_row, find_dataset}
use anti_fraud_detector.Upload.Repository.Rows.{latest_file, latest_job, is_later, is_some}

pub record DatasetFilter : Type 0 where
  pub status : String
  pub from : Option Time
  pub to : Option Time
  pub limit : ℕ
  pub offset : ℕ

-- A row of datasets with the columns of its latest file and its latest job.
pub record DatasetListItem : Type 0 where
  pub dataset : Dataset
  pub file_type : String
  pub size_bytes : ℕ
  pub row_count : ℕ
  pub warnings : List String
  pub latest_job : Option AnalysisJob

abbrev pub dataset_item : Db → Dataset → DatasetListItem
dataset_item db d = elim (latest_file d.id db.files) [
  | none ↦ record {
    dataset = d;
    file_type = "csv";
    size_bytes = 0;
    row_count = 0;
    warnings = [];
    latest_job = latest_job d.id db.jobs;
  }
  | some f ↦ record {
    dataset = d;
    file_type = f.file_type;
    size_bytes = f.size_bytes;
    row_count = f.row_count;
    warnings = f.warnings;
    latest_job = latest_job d.id db.jobs;
  }
]

-- COALESCE(j.status, d.status).
abbrev pub shown_status : DatasetListItem → String
shown_status item = elim item.latest_job [ none ↦ item.dataset.status | some j ↦ j.status ]

-- The conditions of the WHERE clause, for the bounds that are given.
matches : String → Option Time → Option Time → DatasetListItem → Bool
matches status from to item =
    not (is_some item.dataset.archived_at)
    && (status == "" || shown_status item == status)
    && (elim from [ none ↦ true | some start ↦ not (ltb item.dataset.created_at start) ])
    && (elim to [ none ↦ true | some end ↦ not (ltb end item.dataset.created_at) ])

-- ORDER BY d.created_at DESC, d.id DESC.
abbrev pub newer_dataset : DatasetListItem → DatasetListItem → Bool
newer_dataset a b =
    ltb b.dataset.created_at a.dataset.created_at
    || (eqb a.dataset.created_at b.dataset.created_at && ltb b.dataset.id a.dataset.id)

-- The rows that match, in their order, before LIMIT and OFFSET.
unfoldable pub matching : CaseTable → String → Option Time → Option Time → Db → List DatasetListItem
unfolding matches
matching u status from to db =
    sort_stable newer_dataset
      (keep (matches (to_upper u status) from to) (map (dataset_item db) db.datasets))

-- A query that always gives a row or rows.
abbrev pub query : {A : Type 0} → (Db → A) → Tx A
query select = query_row (λ db. some (select db))

-- The count is one statement, and the page another one.
unfoldable pub list_datasets : CaseTable → DatasetFilter → Tx (List DatasetListItem × ℕ)
list_datasets u filter = do
  total ← query (λ db. length (matching u filter.status filter.from filter.to db))
  items ← query (λ db.
      take filter.limit (drop filter.offset (matching u filter.status filter.from filter.to db)))
  return (items, total)

unfoldable pub get_dataset : Uuid → Tx DatasetListItem
get_dataset k =
    query_row
      (λ db. elim (find_dataset k db.datasets) [ none ↦ none | some d ↦ some (dataset_item db d) ])

unfoldable pub list_analysis_jobs : Uuid → Tx (List AnalysisJob)
list_analysis_jobs k = query (λ db. sort_stable is_later (keep (λ j. eqb j.dataset_id k) db.jobs))

unfoldable pub list_audit_events : Uuid → Tx (List AuditEvent)
list_audit_events k = query (λ db.
    sort_stable (λ a b. ltb b.created_at a.created_at) (keep (λ a. eqb a.dataset_id k) db.audits))
