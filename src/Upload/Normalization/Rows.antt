-- ===== src/Upload/Normalization/Rows.antt =====
-- normalizeUploadedObject of backend/upload-service/internal/service/normalization.go: from the lines of
-- the source to the rows that are written. The first repetition of a row is kept, the others are
-- skipped, and two different rows of one return are refused. A failed write, or a failure of the file
-- system, is left out.
mod Signature
pub mod Kept
pub mod Ready
use anti_fraud_detector.Prelude.{
  ℕ, suc, String, Bool, true, false, not, Option, none, some, List, [], ◌∷◌, ◌==◌, if◌then◌else◌,
  eqb, length, map,
}
use anti_fraud_detector.Prelude.Dict.{lookup, insert}
use anti_fraud_detector.Prelude.Floats.{FloatOps}
use anti_fraud_detector.Prelude.Text.{CaseTable, trim_space, join}
use anti_fraud_detector.Upload.Normalization.Headers.{
  HeaderIssue, Columns, columns, issue, validate_headers,
}
use anti_fraud_detector.Upload.Normalization.Fields.{
  Clock, NormalizedRow, cells, RowResult, row, invalid, normalize_csv_row,
}

-- One Read of the CSV reader.
pub data SourceLine : Type 0 where
  source_row : List String → SourceLine
  unreadable : SourceLine

-- Why a source is refused; most reasons name the line.
pub data SourceError : Type 0 where
  bad_header : SourceError
  bad_columns : HeaderIssue → SourceError
  read_error : ℕ → SourceError
  column_count : ℕ → ℕ → ℕ → SourceError
  bad_row : ℕ → String → SourceError
  conflicting_duplicate : ℕ → String → SourceError
  empty_dataset : SourceError

pub data Written : Type 0 where
  written : List NormalizedRow → Written
  refused : SourceError → Written

abbrev pub also : NormalizedRow → Written → Written
also r (written rows) = written (r ∷ rows)
also r (refused e) = refused e

-- strings.Join(normalized, "\x1f").
abbrev pub signature : NormalizedRow → String
signature r = join (cells r) "\u{1f}"

-- A line that was read, checked and normalized, or why not.
pub data Prepared : Type 0 where
  ready : NormalizedRow → Prepared
  bad : SourceError → Prepared

-- What the loop does with the lines in order: `seen` are the signatures by return id.
unfoldable pub write_rows : ℕ → List (String × String) → List Prepared → Written
write_rows line seen [] = written []
write_rows line seen (bad e ∷ rows) = refused e
write_rows line seen (ready r ∷ rows) =
    let skip = write_rows (suc line) seen rows in
    let write = also r (write_rows (suc line) (insert r.return_id (signature r) seen) rows) in
    elim (lookup r.return_id seen) [
      | none ↦ write
      | some previous ↦
          if previous == signature r then skip else refused (conflicting_duplicate line r.return_id)
    ]

unfoldable pub checked : Written → Written
checked (written []) = refused empty_dataset
checked (written (r ∷ rows)) = written (r ∷ rows)
checked (refused e) = refused e

module _ {F : Type 0} (ops : FloatOps F) (u : CaseTable) (clock : Clock F) where
  unfoldable pub prepared : ℕ → RowResult → Prepared
  prepared line (row r) = ready r
  prepared line (invalid field) = bad (bad_row line field)

  unfoldable pub prepare : List (String × ℕ) → ℕ → ℕ → SourceLine → Prepared
  unfolding prepared
  prepare index width line unreadable = bad (read_error line)
  prepare index width line (source_row record_cells) =
      if not (eqb (length record_cells) width)
      then bad (column_count line (length record_cells) width)
      else prepared line (normalize_csv_row ops u clock (map trim_space record_cells) index)

  unfoldable pub prepare_all : List (String × ℕ) → ℕ → ℕ → List SourceLine → List Prepared
  unfolding prepare
  prepare_all index width line [] = []
  prepare_all index width line (l ∷ lines) =
      prepare index width line l ∷ prepare_all index width (suc line) lines

  unfoldable pub with_columns : ℕ → List SourceLine → Columns → Written
  unfolding checked
  with_columns width lines (issue i) = refused (bad_columns i)
  with_columns width lines (columns index) =
      checked (write_rows 2 [] (prepare_all index width 2 lines))

  unfoldable pub normalize_uploaded_object : List SourceLine → Written
  unfolding with_columns
  normalize_uploaded_object [] = refused bad_header
  normalize_uploaded_object (unreadable ∷ lines) = refused bad_header
  normalize_uploaded_object (source_row header ∷ lines) =
      with_columns (length header) lines (validate_headers u (map trim_space header))
