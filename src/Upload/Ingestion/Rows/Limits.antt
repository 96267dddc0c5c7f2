-- ===== src/Upload/Ingestion/Rows/Limits.antt =====
-- How many issues validateCSVStream of backend/upload-service/internal/service/ingestion.go reports.
use anti_fraud_detector.Prelude.{ℕ, ◌≤◌, String, List, [], ◌∷◌, length, map, arith}
use anti_fraud_detector.Prelude.Text.{trim_space}
use anti_fraud_detector.Upload.Normalization.Headers.{
  HeaderIssue, Columns, columns, issue, validate_headers, no_headers, empty_header,
  duplicate_header, duplicate_semantic_header, missing_column,
}
use anti_fraud_detector.Upload.Normalization.Rows.{SourceLine, source_row, unreadable}
use anti_fraud_detector.Upload.Ingestion.Issues.{ValidationIssue, invalid_issue, header_issue}
use anti_fraud_detector.Upload.Ingestion.Rows.{
  Rules, Progress, nothing_read, Validation, valid, invalid, verdict, with_columns,
  validate_csv_stream,
}
use anti_fraud_detector.Upload.Ingestion.Rows.Checks.{
  IsKept, length-append_issue-le, validate_lines-keeps,
}

-- What the handler shows of a validation.
abbrev pub errors_of : Validation → List ValidationIssue
errors_of (valid rows warnings) = []
errors_of (invalid i) = i.errors

abbrev pub warnings_of : Validation → List ValidationIssue
warnings_of (valid rows warnings) = warnings
warnings_of (invalid i) = i.warnings

record IsBounded (max : ℕ) (p : Progress) : Type 0 where
  issues_fit : length p.issues ≤ max
  warnings_fit : length p.warnings ≤ max

IsBounded-kept : (max : ℕ) → IsKept max (IsBounded max)
IsBounded-kept max = record {
  by_issue = λ i p h. record {
    issues_fit = length-append_issue-le p.issues max i h.issues_fit;
    warnings_fit = h.warnings_fit;
  };
  by_warning = λ i p h. record {
    issues_fit = h.issues_fit;
    warnings_fit = length-append_issue-le p.warnings max i h.warnings_fit;
  };
  by_return = λ ids p h. record { issues_fit = h.issues_fit; warnings_fit = h.warnings_fit };
}

abbrev IsShort : ℕ → Validation → Type 0
IsShort max v = (length (errors_of v) ≤ max) × (length (warnings_of v) ≤ max)

module _ {F : Type 0} (rules : Rules F) (some_error : 1 ≤ rules.max_errors) where
  header_issue-IsShort :
      (quote : String → String) (i : HeaderIssue)
      → IsShort rules.max_errors (invalid (header_issue quote i))
  unfolding header_issue invalid_issue
  header_issue-IsShort quote no_headers = (some_error, ground arith)
  header_issue-IsShort quote empty_header = (some_error, ground arith)
  header_issue-IsShort quote (duplicate_header h) = (some_error, ground arith)
  header_issue-IsShort quote (duplicate_semantic_header a b c) = (some_error, ground arith)
  header_issue-IsShort quote (missing_column c) = (some_error, ground arith)

  verdict-IsShort :
      (p : Progress) → IsBounded rules.max_errors p → IsShort rules.max_errors (verdict rules p)
  unfolding verdict
  verdict-IsShort p h = let i = h.issues_fit in let w = h.warnings_fit in ground arith

  with_columns-IsShort :
      (width : ℕ) (lines : List SourceLine) (c : Columns)
      → IsShort rules.max_errors (with_columns rules width lines c)
  unfolding with_columns
  with_columns-IsShort width lines (issue i) = header_issue-IsShort rules.quote i
  with_columns-IsShort width lines (columns index) = verdict-IsShort _ (
      validate_lines-keeps rules (IsBounded rules.max_errors) (IsBounded-kept rules.max_errors)
        (λ rows records p h. record { issues_fit = h.issues_fit; warnings_fit = h.warnings_fit })
        index width lines nothing_read
        (record { issues_fit = ground arith; warnings_fit = ground arith }))

  -- Whatever the lines are, a validation that may report at least one error reports no more errors and no
  -- more warnings than its limit.
  pub validate_csv_stream-within :
      (lines : List SourceLine)
      → (length (errors_of (validate_csv_stream rules lines)) ≤ rules.max_errors)
        × (length (warnings_of (validate_csv_stream rules lines)) ≤ rules.max_errors)
  unfolding validate_csv_stream invalid_issue
  validate_csv_stream-within [] = (some_error, ground arith)
  validate_csv_stream-within (unreadable ∷ lines) = (some_error, ground arith)
  validate_csv_stream-within (source_row header ∷ lines) =
      with_columns-IsShort (length header) lines
        (validate_headers rules.case_table (map trim_space header))
