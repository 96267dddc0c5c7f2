-- ===== src/Tests/ListingRuns.antt =====
-- The pages of the datasets in backend/upload-service, for the tables with one dataset and one job, and the
-- preview of a file of two rows when one may be shown.
use anti_fraud_detector.Prelude.{
  List, true, some, ◌≤◌, ltb, take, String, false, ◌≡◌, refl, ◌&&◌, not, ◌==◌, none, [], ◌∷◌,
  length, map, arith,
}
use anti_fraud_detector.Prelude.Int.{pos}
use anti_fraud_detector.Prelude.Sorting.{sort_stable, insert}
use anti_fraud_detector.Prelude.Text.{is_space, to_upper, trim_space}
use anti_fraud_detector.Upload.Domain.{uploaded, is_allowed_status}
use anti_fraud_detector.Upload.Db.{Db, auto_commit}
use anti_fraud_detector.Upload.Repository.Listing.{matching, list_datasets}
use anti_fraud_detector.Upload.Repository.Rows.{latest_file}
use anti_fraud_detector.Upload.Service.Listing.{
  DatasetListResponse, page_size_of, total_pages_of, offset_of, list_page, summary_of,
}
use anti_fraud_detector.Upload.Service.Start.{Answer, answer, refuse}
use anti_fraud_detector.Upload.Service.Listing.Pages.{first_pages, pages-rows}
use anti_fraud_detector.Prelude.Dict.{insert as put, lookup}
use anti_fraud_detector.Upload.Normalization.Headers.{trim_mark}
use anti_fraud_detector.Upload.Normalization.Rows.{SourceLine, source_row}
use anti_fraud_detector.Upload.Service.Preview.{
  PreviewResponse, record_to_preview_row, value_of, keep_rows, parse_csv_preview, cells_of,
  parse_csv_preview-rows,
}
use anti_fraud_detector.Tests.Samples.{ascii, healthy, job_in, tables}

abbrev db : Db
db = tables (job_in uploaded ∷ [])

abbrev shown : String → String
shown s = s

one_row : length (matching ascii (to_upper ascii (trim_space "")) none none db) ≡ 1
unfolding matching sort_stable insert to_upper trim_space latest_file
one_row = refl

filter_known :
    (not (to_upper ascii (trim_space "") == "")
      && not (is_allowed_status (to_upper ascii (trim_space ""))))
    ≡ false
unfolding to_upper trim_space
filter_known = refl

abbrev asked : Answer DatasetListResponse
asked = list_page ascii shown "" none none (pos 1) (pos 10) healthy db

-- The answer to the first page, whatever it is.
abbrev answered : DatasetListResponse
answered = elim asked [
  | answer r ↦ r
  | refuse e ↦ record { items = []; page = 0; page_size = 0; total = 0; total_pages = 0 }
]

has_answer : asked ≡ answer answered
unfolding list_page auto_commit list_datasets offset_of page_size_of total_pages_of matching
    sort_stable insert to_upper trim_space latest_file is_space
has_answer = refl

pages-rows_example :
    let rows = matching ascii (to_upper ascii (trim_space "")) none none db in
    (answered.total ≡ length rows)
    × (first_pages ascii shown "" none none (pos 10) healthy db answered.total_pages
        ≡ map summary_of rows)
pages-rows_example =
    pages-rows ascii shown "" none none (pos 10) healthy db filter_known refl refl refl
      (rw one_row (ground arith)) (pos 1) answered has_answer

abbrev rows_of_file : List SourceLine
rows_of_file = source_row ("a1" ∷ []) ∷ source_row ("a2" ∷ []) ∷ []

abbrev preview : PreviewResponse
preview = record {
  headers = "id" ∷ [];
  rows = (("id", "a1") ∷ []) ∷ [];
  raw_rows = ("a1" ∷ []) ∷ [];
  row_count = 1;
  truncated = true;
}

preview_shown : parse_csv_preview 1 (source_row ("id" ∷ []) ∷ rows_of_file) ≡ some preview
unfolding parse_csv_preview keep_rows record_to_preview_row trim_space trim_mark put is_space
preview_shown = refl

parse_csv_preview-rows_example :
    (preview.raw_rows ≡ take 1 (cells_of rows_of_file))
    × (preview.truncated ≡ ltb 1 (length (cells_of rows_of_file)))
    × (preview.row_count ≡ length preview.raw_rows)
    × (preview.row_count ≤ 1)
    × ((h : String)
        → map (lookup h) preview.rows ≡ map (value_of h preview.headers) preview.raw_rows)
parse_csv_preview-rows_example =
    parse_csv_preview-rows 1 ("id" ∷ []) rows_of_file preview preview_shown
