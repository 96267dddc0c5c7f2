-- ===== src/Upload/Ingestion/Normalizes.antt =====
-- From validateCSVStream of backend/upload-service/internal/service/ingestion.go to
-- normalizeUploadedObject of normalization.go: what an accepted source normalizes to.
use anti_fraud_detector.Prelude.{
  ℕ, suc, ◌<◌, String, Bool, true, false, ◌≡◌, refl, sym, ap, subst, inl, inr, none, some, List, [],
  ◌∷◌, ◌==◌, get_elem?, length, map, All, arith, Option-cases, Bool-cases,
}
use anti_fraud_detector.Prelude.Int.{ℤ, pos}
use anti_fraud_detector.Prelude.Dict.{lookup}
use anti_fraud_detector.Prelude.Floats.{FloatOps}
use anti_fraud_detector.Prelude.Text.{CaseTable, trim_space}
use anti_fraud_detector.Upload.Normalization.Headers.{
  columns, validate_headers, required_semantic_columns,
}
use anti_fraud_detector.Upload.Normalization.Headers.Found.{HasColumn, validate_headers-HasColumn}
use anti_fraud_detector.Upload.Normalization.Fields.{
  Clock, NormalizedRow, row, field_value, parse_flexible_float, minutes_of, normalize_csv_row,
}
use anti_fraud_detector.Upload.Normalization.Fields.Reads.{normalize_csv_row-row}
use anti_fraud_detector.Upload.Normalization.Rows.{
  SourceLine, source_row, prepare, prepared, prepare_all, checked, write_rows, with_columns,
  normalize_uploaded_object,
}
use anti_fraud_detector.Upload.Normalization.Rows.Ready.{
  IsReady, IsWrittenOrConflict, checked-IsWrittenOrConflict,
}
use anti_fraud_detector.Upload.Ingestion.Issues.{ValidationIssue}
use anti_fraud_detector.Upload.Ingestion.Rows.{Rules, column_of, cell, valid, validate_csv_stream}
use anti_fraud_detector.Upload.Ingestion.Rows.Accepted.{number_is_fine, IsFineRow, IsFine, fine_row}
use anti_fraud_detector.Upload.Ingestion.Rows.Stream.{validate_csv_stream-IsAccepted}

length-map-trim : (xs : List String) → length (map trim_space xs) ≡ length xs
length-map-trim [] = refl
length-map-trim (x ∷ xs) = ap suc (length-map-trim xs)

trim_space-nil : trim_space "" ≡ ""
unfolding trim_space
trim_space-nil = refl

-- The value of a field is the trimmed cell of its column.
field_value-cell :
    (cells : List String) (index : List (String × ℕ)) (name : String) (i : ℕ)
    → lookup name index ≡ some i
    → field_value cells index name ≡ trim_space (cell cells i)
unfolding field_value
field_value-cell cells index name i at = elim (Option-cases (get_elem? cells i)) [
  | inl missing ↦ ground (arith, at, missing, trim_space-nil)
  | inr (value, found) ↦ ground (arith, at, found)
]

module _ {F : Type 0} (ops : FloatOps F) (index : List (String × ℕ)) (cells : List String) where
  -- A cell that is filled and fine is read as a number.
  reads_number :
      (name : String) (positive : Bool)
      → number_is_fine ops index cells name positive ≡ true
      → HasColumn index name
      → (trim_space (cell cells (column_of index name)) == "") ≡ false
      → (value : F) × (parse_flexible_float ops (field_value cells index name) ≡ some value)
  unfolding number_is_fine
  reads_number name positive fine (i, at) filled =
      elim (Option-cases (parse_flexible_float ops (field_value cells index name))) [
        | inl unread ↦
            absurd
              (ground (arith, at, filled, fine, unread, field_value-cell cells index name i at))
        | inr read ↦ read
      ]

  blank_field :
      lookup "decision_time_minutes" index ≡ none
      → field_value cells index "decision_time_minutes" ≡ ""
  unfolding field_value
  blank_field missing = ground (arith, missing)

  minutes_blank :
      (clock : Clock F) (u : CaseTable) (raw : String)
      → (raw == "") ≡ true
      → minutes_of ops u clock raw ≡ some (pos 60)
  unfolding minutes_of
  minutes_blank clock u raw blank = ground (arith, blank)

  reads_minutes :
      (clock : Clock F)
      → (u : CaseTable) → number_is_fine ops index cells "decision_time_minutes" false ≡ true
      → (minutes : ℤ) × (minutes_of ops u clock (field_value cells index "decision_time_minutes")
          ≡ some minutes)
  unfolding number_is_fine minutes_of
  reads_minutes clock u fine = elim (Option-cases (lookup "decision_time_minutes" index)) [
    | inl missing ↦ (pos 60, minutes_blank clock u _ (ap (λ s. s == "") (blank_field missing)))
    | inr (i, at) ↦ elim (Bool-cases (trim_space (cell cells i) == "")) [
      | inl blank ↦
          (pos 60, ground (arith, blank, field_value-cell cells index "decision_time_minutes" i at))
      | inr filled ↦
          let (value, read) =
            reads_number "decision_time_minutes" false fine (i, at) (ground (arith, at, filled)) in
          (
            clock.to_integer value,
            ground (arith, filled, read, field_value-cell cells index "decision_time_minutes" i at),
          )
    ]
  ]

-- A row that is fine for the check is a row for the normalization.
fine_row_ready :
    {F : Type 0} (rules : Rules F) (clock : Clock F) (index : List (String × ℕ))
    (cells : List String)
    → All (HasColumn index) required_semantic_columns
    → IsFineRow rules index cells
    → (r : NormalizedRow) × (normalize_csv_row rules.ops rules.case_table clock cells index ≡ row r)
fine_row_ready rules clock index cells has fine =
    let amounts = has.1.1.1.1 in
    let filled = fine.filled.1.1.1.1 in
    let (x, x_read) =
      reads_number rules.ops index cells "order_amount" true fine.order_amount amounts.0 filled.0 in
    let (y, y_read) =
      reads_number rules.ops index cells "refund_amount" false fine.refund_amount amounts.1.0
        filled.1.0 in
    let (minutes, z_read) =
      reads_minutes rules.ops index cells clock rules.case_table fine.minutes in
    normalize_csv_row-row rules.ops rules.case_table clock cells index x y minutes x_read y_read
      z_read

module _ {F : Type 0} (rules : Rules F) (clock : Clock F) (index : List (String × ℕ)) (width : ℕ)
    (has : All (HasColumn index) required_semantic_columns) where
  prepare-IsReady :
      (line : ℕ) (l : SourceLine)
      → IsFine rules index width l
      → IsReady (prepare rules.ops rules.case_table clock index width line l)
  unfolding prepare prepared
  prepare-IsReady line l (fine_row raw wide fine) =
      let (r, same) = fine_row_ready rules clock index (map trim_space raw) has fine in
      (r, ground (arith, same, wide, length-map-trim raw))

  prepare_all-IsReady :
      (line : ℕ) (lines : List SourceLine)
      → All (IsFine rules index width) lines
      → All IsReady (prepare_all rules.ops rules.case_table clock index width line lines)
  unfolding prepare_all
  prepare_all-IsReady line [] fine = tt
  prepare_all-IsReady line (l ∷ lines) fine =
      (prepare-IsReady line l fine.0, prepare_all-IsReady (suc line) lines fine.1)

  length-prepare_all :
      (line : ℕ) (lines : List SourceLine)
      → length (prepare_all rules.ops rules.case_table clock index width line lines) ≡ length lines
  unfolding prepare_all
  length-prepare_all line [] = refl
  length-prepare_all line (l ∷ lines) = ap suc (length-prepare_all (suc line) lines)

normalize_named :
    {F : Type 0} (ops : FloatOps F) (u : CaseTable) (clock : Clock F) (header : List String)
    (index : List (String × ℕ)) (lines : List SourceLine)
    → validate_headers u (map trim_space header) ≡ columns index
    → normalize_uploaded_object ops u clock (source_row header ∷ lines)
      ≡ checked (write_rows 2 [] (prepare_all ops u clock index (length header) 2 lines))
unfolding normalize_uploaded_object with_columns
normalize_named ops u clock header index lines named = cc

-- A source that the upload accepts, when at least one error may be reported, is normalized to rows, or it
-- is refused since two of its rows with one return id differ; no other reason for a refusal is left.
pub validate_csv_stream-normalizes :
    {F : Type 0} (rules : Rules F) (clock : Clock F)
    → 0 < rules.max_errors
    → (lines : List SourceLine) (rows : ℕ) (warnings : List ValidationIssue)
    → validate_csv_stream rules lines ≡ valid rows warnings
    → IsWrittenOrConflict (normalize_uploaded_object rules.ops rules.case_table clock lines)
validate_csv_stream-normalizes rules clock some_error lines rows warnings e =
    let accepted = validate_csv_stream-IsAccepted rules some_error lines rows warnings e in
    let has = validate_headers-HasColumn rules.case_table _ accepted.index accepted.named in
    let rows_ready =
      prepare_all-IsReady rules clock accepted.index (length accepted.header) has 2 accepted.rest
        accepted.fine in
    let counted =
      length-prepare_all rules clock accepted.index (length accepted.header) has 2 accepted.rest in
    let counts = accepted.counted in
    let some_row = accepted.some_row in
    let done =
      checked-IsWrittenOrConflict _ rows_ready (ground (arith, counted, counts, some_row)) in
    let named =
      normalize_named rules.ops rules.case_table clock accepted.header accepted.index accepted.rest
        accepted.named in
    subst
      (λ ls. IsWrittenOrConflict (normalize_uploaded_object rules.ops rules.case_table clock ls))
      (sym accepted.split) (subst IsWrittenOrConflict (sym named) done)
