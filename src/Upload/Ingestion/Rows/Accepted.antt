-- ===== src/Upload/Ingestion/Rows/Accepted.antt =====
-- What a row is like that validateCSVStream of backend/upload-service/internal/service/ingestion.go has
-- nothing to say against, and that its checks make sure of it.
use anti_fraud_detector.Prelude.{
  ℕ, ◌<◌, String, Bool, true, false, ◌≡◌, refl, ◌≢◌, none, some, List, [], ◌∷◌, ◌==◌, ◌&&◌, ◌||◌,
  not, if◌then◌else◌, any, ltb, length, map, All, arith,
}
use anti_fraud_detector.Prelude.Dict.{lookup}
use anti_fraud_detector.Prelude.Floats.{FloatOps}
use anti_fraud_detector.Prelude.Text.{CaseTable, trim_space}
use anti_fraud_detector.Upload.Normalization.Headers.{required_semantic_columns}
use anti_fraud_detector.Upload.Normalization.Fields.{parse_flexible_float}
use anti_fraud_detector.Upload.Normalization.Rows.{SourceLine, source_row}
use anti_fraud_detector.Upload.Ingestion.Names.{valid_decision}
use anti_fraud_detector.Upload.Ingestion.Issues.{ValidationIssue, append_issue}
use anti_fraud_detector.Upload.Ingestion.Rows.{
  Rules, Progress, column_of, cell, check_required, check_return_id, check_decision,
  check_timestamp, timestamp_layouts, check_value, validate_finite_number, warn_zero_refund,
  check_row,
}
use anti_fraud_detector.Upload.Ingestion.Rows.Checks.{
  IsKept, append_issue-ne-nil, check_required-keeps, check_return_id-keeps, check_decision-keeps,
  check_timestamp-keeps, warn_minutes-keeps, validate_finite_number-keeps, warn_zero_refund-keeps,
}

-- The number that a cell holds is one that the code takes.
value_is_fine : {F : Type 0} → FloatOps F → Bool → F → Bool
value_is_fine ops positive value =
    not (ops.is_nan value || ops.is_inf value)
    && not (positive && ops.le value (ops.lit 0))
    && not (not positive && ops.lt value (ops.lit 0))

-- A cell is missing, blank, or a number.
unfoldable pub number_is_fine :
    {F : Type 0} → FloatOps F → List (String × ℕ) → List String → String → Bool → Bool
unfolding value_is_fine
number_is_fine ops index cells name positive = elim (lookup name index) [
  | none ↦ true
  | some i ↦
      (trim_space (cell cells i) == "")
      || elim (parse_flexible_float ops (trim_space (cell cells i))) [
        | none ↦ false
        | some value ↦ value_is_fine ops positive value
      ]
]

pub timestamp_is_fine : (String → String → Bool) → List (String × ℕ) → List String → Bool
timestamp_is_fine parses index cells = elim (lookup "timestamp" index) [
  | none ↦ true
  | some i ↦ any (λ layout. parses layout (trim_space (cell cells i))) timestamp_layouts
]

pub record IsFineRow {F : Type 0} (rules : Rules F) (index : List (String × ℕ))
    (cells : List String) : Type 0 where
  pub filled :
      All
        (λ name. (trim_space (cell cells (column_of index name)) == "") ≡ false)
        required_semantic_columns
  pub order_amount : number_is_fine rules.ops index cells "order_amount" true ≡ true
  pub refund_amount : number_is_fine rules.ops index cells "refund_amount" false ≡ true
  pub minutes : number_is_fine rules.ops index cells "decision_time_minutes" false ≡ true
  pub decision :
      (ltb (column_of index "decision") (length cells)
        && not (valid_decision rules.case_table (cell cells (column_of index "decision"))))
      ≡ false
  pub timestamp : timestamp_is_fine rules.parses index cells ≡ true

-- A readable line of the right width with such a row.
pub data IsFine {F : Type 0} (rules : Rules F) (index : List (String × ℕ)) (width : ℕ)
    : SourceLine → Type 0 where
  fine_row :
      (raw : List String)
      → length (map trim_space raw) ≡ width
      → IsFineRow rules index (map trim_space raw)
      → IsFine rules index width (source_row raw)

unfoldable pub HasIssue : Progress → Type 0
HasIssue p = p.issues ≢ []

pub HasIssue-kept : (max : ℕ) → 0 < max → IsKept max HasIssue
unfolding HasIssue
HasIssue-kept max some_error = record {
  by_issue = λ i p h. append_issue-ne-nil p.issues max i some_error;
  by_warning = λ i p h. h;
  by_return = λ ids p h. h;
}

nil_of : (issues : List ValidationIssue) → ¬ (issues ≢ []) → issues ≡ []
nil_of [] k = refl
nil_of (x ∷ issues) k = absurd (k (λ h. ground arith))

-- There is no issue after a step that keeps issues, so there was none before.
pub clean_before : (p q : Progress) → (HasIssue p → HasIssue q) → q.issues ≡ [] → p.issues ≡ []
unfolding HasIssue
clean_before p q keeps e = nil_of _ (λ h. keeps h e)

module _ (max : ℕ) (some_error : 0 < max) where
  if_clean :
      (test : Bool) (i : ValidationIssue) (p rest : Progress)
      → (if test then record p { issues = append_issue p.issues max i } else rest).issues ≡ []
      → (test ≡ false) × (rest.issues ≡ [])
  if_clean true i p rest e = absurd (append_issue-ne-nil p.issues max i some_error e)
  if_clean false i p rest e = (refl, e)

  module _ (index : List (String × ℕ)) (cells : List String) (row : ℕ) where
    check_required-clean :
        (names : List String) (p : Progress)
        → (check_required max index cells row names p).issues ≡ []
        → All (λ name. (trim_space (cell cells (column_of index name)) == "") ≡ false) names
    unfolding check_required
    check_required-clean [] p e = tt
    check_required-clean (name ∷ names) p e =
        let before =
          clean_before _ _
            (check_required-keeps max HasIssue (HasIssue-kept max some_error) index cells row names
              _)
            e in
        ((if_clean _ _ p p before).0, check_required-clean names _ e)

    check_decision-clean :
        (u : CaseTable) (quote : String → String) (p : Progress)
        → (check_decision max u quote index cells row p).issues ≡ []
        → (ltb (column_of index "decision") (length cells)
            && not (valid_decision u (cell cells (column_of index "decision"))))
          ≡ false
    unfolding check_decision
    check_decision-clean u quote p e = (if_clean _ _ p p e).0

    check_timestamp-clean :
        (parses : String → String → Bool) (p : Progress)
        → (check_timestamp max parses index cells row p).issues ≡ []
        → timestamp_is_fine parses index cells ≡ true
    unfolding check_timestamp timestamp_is_fine
    check_timestamp-clean parses p e = grind (arith, append_issue-ne-nil)

    validate_finite_number-clean :
        {F : Type 0} (ops : FloatOps F) (name : String) (positive : Bool) (p : Progress)
        → (validate_finite_number max ops cells index name row positive p).issues ≡ []
        → number_is_fine ops index cells name positive ≡ true
    unfolding validate_finite_number number_is_fine check_value value_is_fine
    validate_finite_number-clean ops name positive p e = grind (arith, append_issue-ne-nil)

module _ {F : Type 0} (rules : Rules F) (some_error : 0 < rules.max_errors)
    (index : List (String × ℕ)) (cells : List String) (row : ℕ) where
  kept : IsKept rules.max_errors HasIssue
  kept = HasIssue-kept rules.max_errors some_error

  number_before :
      (name : String) (positive : Bool) (p : Progress)
      → (validate_finite_number rules.max_errors rules.ops cells index name row positive p).issues
        ≡ []
      → p.issues ≡ []
  number_before name positive p e =
      clean_before _ _
        (validate_finite_number-keeps rules.max_errors HasIssue kept index cells row rules.ops name
          positive p)
        e

  -- A row is fine when its checks add no issue, and there was none before.
  pub check_row-IsFineRow :
      (p : Progress)
      → (check_row rules index cells row p).issues ≡ []
      → IsFineRow rules index cells × (p.issues ≡ [])
  unfolding check_row
  check_row-IsFineRow p e8 =
      let required = check_required rules.max_errors index cells row required_semantic_columns p in
      let returned = check_return_id rules.max_errors rules.quote index cells row required in
      let ordered =
        validate_finite_number rules.max_errors rules.ops cells index "order_amount" row true
          returned in
      let refunded =
        validate_finite_number rules.max_errors rules.ops cells index "refund_amount" row false
          ordered in
      let timed =
        validate_finite_number rules.max_errors rules.ops cells index "decision_time_minutes" row
          false refunded in
      let warned = warn_zero_refund rules.max_errors rules.ops index cells row timed in
      let decided =
        check_decision rules.max_errors rules.case_table rules.quote index cells row warned in
      let stamped = check_timestamp rules.max_errors rules.parses index cells row decided in
      let e7 =
        clean_before stamped _
          (warn_minutes-keeps rules.max_errors HasIssue kept index cells row stamped) e8 in
      let e6 =
        clean_before decided _
          (check_timestamp-keeps rules.max_errors HasIssue kept index cells row rules.parses
            decided)
          e7 in
      let e5 =
        clean_before warned _
          (check_decision-keeps rules.max_errors HasIssue kept index cells row rules.case_table
            rules.quote warned)
          e6 in
      let e4 =
        clean_before timed _
          (warn_zero_refund-keeps rules.max_errors HasIssue kept index cells row rules.ops timed)
          e5 in
      let e3 = number_before "decision_time_minutes" false refunded e4 in
      let e2 = number_before "refund_amount" false ordered e3 in
      let e1 = number_before "order_amount" true returned e2 in
      let e0 =
        clean_before required _
          (check_return_id-keeps rules.max_errors HasIssue kept index cells row rules.quote
            required)
          e1 in
      (
        record {
          filled =
              check_required-clean rules.max_errors some_error index cells row
                required_semantic_columns p e0;
          order_amount =
              validate_finite_number-clean rules.max_errors some_error index cells row rules.ops
                "order_amount" true returned e2;
          refund_amount =
              validate_finite_number-clean rules.max_errors some_error index cells row rules.ops
                "refund_amount" false ordered e3;
          minutes =
              validate_finite_number-clean rules.max_errors some_error index cells row rules.ops
                "decision_time_minutes" false refunded e4;
          decision =
              check_decision-clean rules.max_errors some_error index cells row rules.case_table
                rules.quote warned e6;
          timestamp =
              check_timestamp-clean rules.max_errors some_error index cells row rules.parses decided
                e7;
        },
        clean_before p _
            (check_required-keeps rules.max_errors HasIssue kept index cells row
              required_semantic_columns p)
            e0,
      )
