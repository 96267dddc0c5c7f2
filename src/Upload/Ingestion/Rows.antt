-- ===== src/Upload/Ingestion/Rows.antt =====
-- validateCSVStream, validateFiniteNumber and validateTimestampField of
-- backend/upload-service/internal/service/ingestion.go and service.go. Where the code indexes a row or
-- the map of columns, the header check and the width check make sure that there is an element.
pub mod Checks
pub mod Limits
pub mod Accepted
pub mod Stream
use anti_fraud_detector.Prelude.{
  ℕ, suc, ◌+◌, String, Bool, true, false, ◌&&◌, ◌||◌, not, Option, none, some, List, [], ◌∷◌, ◌==◌,
  if◌then◌else◌, eqb, ltb, leb, get_elem?, length, map, any, ◌<>◌,
}
use anti_fraud_detector.Prelude.Dict.{lookup, insert}
use anti_fraud_detector.Prelude.Floats.{FloatOps, itoa}
use anti_fraud_detector.Prelude.Text.{CaseTable, trim_space, join}
use anti_fraud_detector.Upload.Normalization.Headers.{
  Columns, columns, issue, required_semantic_columns, validate_headers,
}
use anti_fraud_detector.Upload.Normalization.Fields.{parse_flexible_float}
use anti_fraud_detector.Upload.Normalization.Rows.{SourceLine, source_row, unreadable}
use anti_fraud_detector.Upload.Ingestion.Names.{valid_decision}
use anti_fraud_detector.Upload.Ingestion.Issues.{
  ValidationIssue, issue_of, append_issue, Invalid, invalid_issue, header_issue,
}

pub record SeenReturn : Type 0 where
  pub row : ℕ
  pub signature : String

-- The variables of the loop.
pub record Progress : Type 0 where
  pub issues : List ValidationIssue
  pub warnings : List ValidationIssue
  pub return_ids : List (String × SeenReturn)
  pub rows : ℕ
  pub records : ℕ

abbrev pub nothing_read : Progress
nothing_read = record { issues = []; warnings = []; return_ids = []; rows = 0; records = 0 }

pub data Validation : Type 0 where
  valid : ℕ → List ValidationIssue → Validation
  invalid : Invalid → Validation

abbrev pub column_of : List (String × ℕ) → String → ℕ
column_of index name = elim (lookup name index) [ none ↦ 0 | some i ↦ i ]

abbrev pub cell : List String → ℕ → String
cell cells i = elim (get_elem? cells i) [ none ↦ "" | some value ↦ value ]

abbrev pub row_text : ℕ → String
row_text row = "row " <> itoa row

-- The layouts that time.Parse is tried with.
abbrev pub timestamp_layouts : List String
timestamp_layouts =
    "2006-01-02T15:04:05Z07:00" ∷ "2006-01-02 15:04:05" ∷ "2006-01-02" ∷ "02.01.2006 15:04"
    ∷ "01/02/2006 15:04" ∷ []

module _ (max_errors : ℕ) where
  abbrev pub add_issue : ℕ → String → String → String → Progress → Progress
  add_issue row column code message p = record p {
    issues = append_issue p.issues max_errors (issue_of row column code message);
  }

  abbrev pub add_warning : ℕ → String → String → String → Progress → Progress
  add_warning row column code message p = record p {
    warnings = append_issue p.warnings max_errors (issue_of row column code message);
  }

  unfoldable pub check_required :
      List (String × ℕ) → List String → ℕ → List String → Progress → Progress
  check_required index cells row [] p = p
  check_required index cells row (name ∷ names) p = check_required index cells row names (
      if trim_space (cell cells (column_of index name)) == ""
      then add_issue row name "EMPTY_REQUIRED"
          (row_text row <> " has empty required field " <> name) p
      else p)

  unfoldable pub check_return_id :
      (String → String) → List (String × ℕ) → List String → ℕ → Progress → Progress
  check_return_id quote index cells row p =
      let return_id = trim_space (cell cells (column_of index "return_id")) in
      let signature = join cells "\u{1f}" in
      if return_id == "" then p else elim (lookup return_id p.return_ids) [
        | some first ↦
            if first.signature == signature
            then add_warning row "return_id" "DUPLICATE_ROW"
                (row_text row
                  <> " duplicates row "
                  <> itoa first.row
                  <> " and will be removed during normalization")
                p
            else add_issue row "return_id" "DUPLICATE_RETURN_ID"
                ("conflicting duplicate return_id "
                  <> quote return_id
                  <> "; first seen on row "
                  <> itoa first.row)
                p
        | none ↦ record p {
          return_ids = insert return_id (record { row = row; signature = signature }) p.return_ids;
        }
      ]

  unfoldable pub check_decision :
      CaseTable → (String → String) → List (String × ℕ) → List String → ℕ → Progress → Progress
  check_decision u quote index cells row p =
      let i = column_of index "decision" in
      if ltb i (length cells) && not (valid_decision u (cell cells i))
      then add_issue row "decision" "INVALID_DECISION"
          (row_text row <> " has unsupported decision " <> quote (cell cells i)) p
      else p

  unfoldable pub check_timestamp :
      (String → String → Bool) → List (String × ℕ) → List String → ℕ → Progress → Progress
  check_timestamp parses index cells row p = elim (lookup "timestamp" index) [
    | none ↦ p
    | some i ↦
        let value = trim_space (cell cells i) in
        if any (λ layout. parses layout value) timestamp_layouts
        then p
        else add_issue row "timestamp" "INVALID_TIMESTAMP"
            (row_text row <> " has invalid timestamp") p
  ]

  unfoldable pub warn_minutes : List (String × ℕ) → List String → ℕ → Progress → Progress
  warn_minutes index cells row p = elim (lookup "decision_time_minutes" index) [
    | none ↦ p
    | some i ↦
        if trim_space (cell cells i) == ""
        then add_warning row "decision_time_minutes" "MISSING_OPTIONAL"
            (row_text row <> " has no decision_time_minutes") p
        else p
  ]

  module _ {F : Type 0} (ops : FloatOps F) where
    -- What a number that parses is checked for.
    check_value : String → ℕ → Bool → F → Progress → Progress
    check_value name row positive value p =
        if ops.is_nan value || ops.is_inf value
        then add_issue row name "INVALID_NUMBER"
            (row_text row <> " has invalid numeric value for " <> name) p
        else if positive && ops.le value (ops.lit 0)
        then add_issue row name "NON_POSITIVE_AMOUNT"
            (row_text row <> " must have positive " <> name) p
        else if not positive && ops.lt value (ops.lit 0)
        then add_issue row name "NEGATIVE_VALUE"
            (row_text row <> " must not have negative " <> name) p
        else p

    unfoldable pub validate_finite_number :
        List String → List (String × ℕ) → String → ℕ → Bool → Progress → Progress
    unfolding check_value
    validate_finite_number cells index name row positive p = elim (lookup name index) [
      | none ↦ p
      | some i ↦
          let raw = trim_space (cell cells i) in
          if raw == "" then p else elim (parse_flexible_float ops raw) [
            | none ↦
                add_issue row name "INVALID_NUMBER"
                  (row_text row <> " has invalid numeric value for " <> name) p
            | some value ↦ check_value name row positive value p
          ]
    ]

    unfoldable pub warn_zero_refund : List (String × ℕ) → List String → ℕ → Progress → Progress
    warn_zero_refund index cells row p = elim (lookup "refund_amount" index) [
      | none ↦ p
      | some i ↦
          if trim_space (cell cells i) == ""
          then p
          else elim (parse_flexible_float ops (cell cells i)) [
            | none ↦ p
            | some value ↦
                if ops.eq value (ops.lit 0)
                then add_warning row "refund_amount" "ZERO_REFUND_AMOUNT"
                    (row_text row <> " has zero refund_amount") p
                else p
          ]
    ]

-- What validateCSVStream is given: the limits, and the functions of Go's packages.
pub record Rules (F : Type 0) : Type 0 where
  pub ops : FloatOps F
  pub case_table : CaseTable
  pub quote : String → String
  pub parses : String → String → Bool
  pub max_rows : ℕ
  pub max_errors : ℕ

module _ {F : Type 0} (rules : Rules F) where
  -- The checks of a row of the right width.
  unfoldable pub check_row : List (String × ℕ) → List String → ℕ → Progress → Progress
  check_row index cells row p =
      let number = validate_finite_number rules.max_errors rules.ops cells index in
      warn_minutes rules.max_errors index cells row (
        check_timestamp rules.max_errors rules.parses index cells row (
          check_decision rules.max_errors rules.case_table rules.quote index cells row (
            warn_zero_refund rules.max_errors rules.ops index cells row (
              number "decision_time_minutes" row false (
                number "refund_amount" row false (
                  number "order_amount" row true (
                    check_return_id rules.max_errors rules.quote index cells row (
                      check_required rules.max_errors index cells row required_semantic_columns
                        p))))))))

  -- The loop; `p.records + 2` is the number of the row that is read, the header being row 1.
  unfoldable pub validate_lines : List (String × ℕ) → ℕ → List SourceLine → Progress → Progress
  validate_lines index width [] p = p
  validate_lines index width (unreadable ∷ lines) p =
      let q =
        add_issue rules.max_errors (p.records + 2) "" "MALFORMED_ROW" "row cannot be parsed as CSV"
          (record p { records = suc p.records }) in
      let rest = validate_lines index width lines q in
      if leb rules.max_errors (length q.issues) then q else rest
  validate_lines index width (source_row raw ∷ lines) p =
      let row = p.records + 2 in
      let q = record p { records = suc p.records; rows = suc p.rows } in
      let cells = map trim_space raw in
      let short =
        add_issue rules.max_errors row "" "ROW_WIDTH"
          ("row has " <> itoa (length cells) <> " columns; expected " <> itoa width) q in
      let checked = check_row index cells row q in
      let after_short = validate_lines index width lines short in
      let after_checked = validate_lines index width lines checked in
      if ltb rules.max_rows q.rows
      then add_issue rules.max_errors row "" "TOO_MANY_ROWS"
          ("CSV exceeds " <> itoa rules.max_rows <> " row limit") q
      else if not (eqb (length cells) width)
      then after_short
      else if leb rules.max_errors (length checked.issues)
      then checked
      else after_checked

  -- After the loop.
  verdict : Progress → Validation
  verdict p =
      let issues =
        if eqb p.rows 0 && eqb (length p.issues) 0
        then issue_of 0 "" "NO_ROWS" "uploaded CSV must contain at least one data row" ∷ []
        else p.issues in
      if ltb 0 (length issues)
      then invalid (record {
        message = "CSV validation failed with " <> itoa (length issues) <> " error(s)";
        errors = issues;
        warnings = p.warnings;
      })
      else valid p.rows p.warnings

  with_columns : ℕ → List SourceLine → Columns → Validation
  unfolding verdict
  with_columns width lines (issue i) = invalid (header_issue rules.quote i)
  with_columns width lines (columns index) = verdict (validate_lines index width lines nothing_read)

  unfoldable pub validate_csv_stream : List SourceLine → Validation
  unfolding with_columns
  validate_csv_stream [] = invalid (invalid_issue "EMPTY_FILE" "uploaded CSV is empty")
  validate_csv_stream (unreadable ∷ lines) =
      invalid (invalid_issue "INVALID_HEADER" "failed to read CSV headers")
  validate_csv_stream (source_row header ∷ lines) =
      with_columns (length header) lines (validate_headers rules.case_table (map trim_space header))
