-- ===== src/Upload/Ingestion/Issues.antt =====
-- ValidationIssue, appendIssue, invalidIssue and the issues of validateHeaders, in
-- backend/upload-service/internal/service/ingestion.go and service.go. `quote` is the verb %q.
use anti_fraud_detector.Prelude.{ℕ, String, List, [], ◌∷◌, ◌++◌, if◌then◌else◌, ltb, length, ◌<>◌}
use anti_fraud_detector.Upload.Normalization.Headers.{
  HeaderIssue, no_headers, empty_header, duplicate_header, duplicate_semantic_header,
  missing_column,
}

pub record ValidationIssue : Type 0 where
  pub row : ℕ
  pub column : String
  pub code : String
  pub message : String

unfoldable pub append_issue : List ValidationIssue → ℕ → ValidationIssue → List ValidationIssue
append_issue issues max issue = if ltb (length issues) max then issues ++ issue ∷ [] else issues

-- InvalidUploadError.
pub record Invalid : Type 0 where
  pub message : String
  pub errors : List ValidationIssue
  pub warnings : List ValidationIssue

abbrev pub issue_of : ℕ → String → String → String → ValidationIssue
issue_of row column code message = record {
  row = row;
  column = column;
  code = code;
  message = message;
}

unfoldable pub invalid_issue : String → String → Invalid
invalid_issue code message = record {
  message = message;
  errors = issue_of 0 "" code message ∷ [];
  warnings = [];
}

unfoldable pub header_issue : (String → String) → HeaderIssue → Invalid
header_issue quote no_headers = invalid_issue "NO_HEADERS" "uploaded CSV has no headers"
header_issue quote empty_header =
    invalid_issue "EMPTY_HEADER" "uploaded CSV contains an empty header"
header_issue quote (duplicate_header header) =
    invalid_issue "DUPLICATE_HEADER" ("uploaded CSV contains duplicate header " <> quote header)
header_issue quote (duplicate_semantic_header previous header field) =
    invalid_issue "DUPLICATE_SEMANTIC_HEADER" (
      "uploaded CSV columns "
      <> quote previous
      <> " and "
      <> quote header
      <> " map to the same field "
      <> field)
header_issue quote (missing_column required) =
    invalid_issue "MISSING_COLUMN" ("uploaded CSV is missing required column " <> required)
