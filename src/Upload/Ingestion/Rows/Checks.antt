-- ===== src/Upload/Ingestion/Rows/Checks.antt =====
-- What the checks of a row in backend/upload-service/internal/service/ingestion.go keep of the progress:
-- whatever an issue, a warning and a return id that is noted keep.
use anti_fraud_detector.Prelude.{
  ℕ, suc, ◌+◌, ◌≤◌, ◌<◌, String, Bool, true, false, ◌≢◌, List, [], ◌∷◌, ◌==◌, ◌&&◌, ◌||◌, not, ltb,
  length, length-append, eqb, map, arith, if_ensures, option_ensures,
}
use anti_fraud_detector.Prelude.Dict.{lookup}
use anti_fraud_detector.Prelude.Floats.{FloatOps}
use anti_fraud_detector.Prelude.Text.{CaseTable, trim_space}
use anti_fraud_detector.Upload.Normalization.Headers.{required_semantic_columns}
use anti_fraud_detector.Upload.Normalization.Fields.{parse_flexible_float}
use anti_fraud_detector.Upload.Normalization.Rows.{SourceLine, source_row, unreadable}
use anti_fraud_detector.Upload.Ingestion.Issues.{ValidationIssue, append_issue}
use anti_fraud_detector.Upload.Ingestion.Rows.{
  SeenReturn, Rules, Progress, column_of, cell, check_required, check_return_id, check_decision,
  check_timestamp, warn_minutes, check_value, validate_lines, validate_finite_number,
  warn_zero_refund, check_row,
}

pub length-append_issue-le :
    (issues : List ValidationIssue) (max : ℕ) (i : ValidationIssue)
    → length issues ≤ max
    → length (append_issue issues max i) ≤ max
unfolding append_issue
length-append_issue-le issues max i h = ground (arith, length-append issues (i ∷ []))

pub append_issue-ne-nil :
    (issues : List ValidationIssue) (max : ℕ) (i : ValidationIssue)
    → 0 < max
    → append_issue issues max i ≢ []
unfolding append_issue
append_issue-ne-nil [] max i h e = ground arith
append_issue-ne-nil (x ∷ issues) max i h e = ground arith

-- A property of the progress that each note of a check keeps.
pub record IsKept (max : ℕ) (Holds : Progress → Type 0) : Type 0 where
  pub by_issue :
      (i : ValidationIssue) (p : Progress)
      → Holds p
      → Holds (record p { issues = append_issue p.issues max i })
  pub by_warning :
      (i : ValidationIssue) (p : Progress)
      → Holds p
      → Holds (record p { warnings = append_issue p.warnings max i })
  pub by_return :
      (ids : List (String × SeenReturn)) (p : Progress)
      → Holds p
      → Holds (record p { return_ids = ids })

-- The loop counts what it reads.
abbrev pub IsCounting : (Progress → Type 0) → Type 0
IsCounting Holds =
    (rows records : ℕ) (p : Progress)
    → Holds p
    → Holds (record p { rows = rows; records = records })

module _ (max : ℕ) (Holds : Progress → Type 0) (kept : IsKept max Holds) where
  module _ (index : List (String × ℕ)) (cells : List String) (row : ℕ) where
    pub check_required-keeps :
        (names : List String) (p : Progress)
        → Holds p
        → Holds (check_required max index cells row names p)
    unfolding check_required
    check_required-keeps [] p h = h
    check_required-keeps (name ∷ names) p h = check_required-keeps names _ (
        if_ensures Holds (trim_space (cell cells (column_of index name)) == "")
          (kept.by_issue _ p h) h)

    pub check_return_id-keeps :
        (quote : String → String) (p : Progress)
        → Holds p
        → Holds (check_return_id max quote index cells row p)
    unfolding check_return_id
    check_return_id-keeps quote p h =
        if_ensures Holds (trim_space (cell cells (column_of index "return_id")) == "") h (
          option_ensures Holds
            (lookup (trim_space (cell cells (column_of index "return_id"))) p.return_ids)
            (kept.by_return _ p h)
            (λ first. if_ensures Holds _ (kept.by_warning _ p h) (kept.by_issue _ p h)))

    pub check_decision-keeps :
        (u : CaseTable) (quote : String → String) (p : Progress)
        → Holds p
        → Holds (check_decision max u quote index cells row p)
    unfolding check_decision
    check_decision-keeps u quote p h = if_ensures Holds _ (kept.by_issue _ p h) h

    pub check_timestamp-keeps :
        (parses : String → String → Bool) (p : Progress)
        → Holds p
        → Holds (check_timestamp max parses index cells row p)
    unfolding check_timestamp
    check_timestamp-keeps parses p h =
        option_ensures Holds (lookup "timestamp" index) h
          (λ i. if_ensures Holds _ h (kept.by_issue _ p h))

    pub warn_minutes-keeps : (p : Progress) → Holds p → Holds (warn_minutes max index cells row p)
    unfolding warn_minutes
    warn_minutes-keeps p h =
        option_ensures Holds (lookup "decision_time_minutes" index) h
          (λ i. if_ensures Holds _ (kept.by_warning _ p h) h)

    module _ {F : Type 0} (ops : FloatOps F) where
      check_value-keeps :
          (name : String) (positive : Bool) (value : F) (p : Progress)
          → Holds p
          → Holds (check_value max ops name row positive value p)
      unfolding check_value
      check_value-keeps name positive value p h =
          if_ensures Holds (ops.is_nan value || ops.is_inf value) (kept.by_issue _ p h) (
            if_ensures Holds (positive && ops.le value (ops.lit 0)) (kept.by_issue _ p h)
              (if_ensures Holds (not positive && ops.lt value (ops.lit 0)) (kept.by_issue _ p h) h))

      pub validate_finite_number-keeps :
          (name : String) (positive : Bool) (p : Progress)
          → Holds p
          → Holds (validate_finite_number max ops cells index name row positive p)
      unfolding validate_finite_number
      validate_finite_number-keeps name positive p h =
          option_ensures Holds (lookup name index) h (λ i. if_ensures Holds _ h (
            option_ensures Holds (parse_flexible_float ops (trim_space (cell cells i)))
              (kept.by_issue _ p h) (λ value. check_value-keeps name positive value p h)))

      pub warn_zero_refund-keeps :
          (p : Progress) → Holds p → Holds (warn_zero_refund max ops index cells row p)
      unfolding warn_zero_refund
      warn_zero_refund-keeps p h = option_ensures Holds (lookup "refund_amount" index) h (λ i.
          if_ensures Holds _ h (
            option_ensures Holds (parse_flexible_float ops (cell cells i)) h
              (λ value. if_ensures Holds _ (kept.by_warning _ p h) h)))

-- The state of the loop after a row, for the property that is kept.
module _ {F : Type 0} (rules : Rules F) (Holds : Progress → Type 0)
    (kept : IsKept rules.max_errors Holds) where
  module _ (index : List (String × ℕ)) (cells : List String) (row : ℕ) where
    number_keeps :
        (name : String) (positive : Bool) (p : Progress)
        → Holds p
        → Holds (validate_finite_number rules.max_errors rules.ops cells index name row positive p)
    number_keeps =
        validate_finite_number-keeps rules.max_errors Holds kept index cells row rules.ops

    pub check_row-keeps : (p : Progress) → Holds p → Holds (check_row rules index cells row p)
    unfolding check_row
    check_row-keeps p h = warn_minutes-keeps rules.max_errors Holds kept index cells row _ (
        check_timestamp-keeps rules.max_errors Holds kept index cells row rules.parses _ (
          check_decision-keeps rules.max_errors Holds kept index cells row rules.case_table
            rules.quote _
            (warn_zero_refund-keeps rules.max_errors Holds kept index cells row rules.ops _ (
              number_keeps "decision_time_minutes" false _ (
                number_keeps "refund_amount" false _ (
                  number_keeps "order_amount" true _ (
                    check_return_id-keeps rules.max_errors Holds kept index cells row rules.quote _
                      (check_required-keeps rules.max_errors Holds kept index cells row
                        required_semantic_columns p h))))))))

  pub validate_lines-keeps :
      IsCounting Holds
      → (index : List (String × ℕ)) (width : ℕ) (lines : List SourceLine) (p : Progress) → Holds p
      → Holds (validate_lines rules index width lines p)
  unfolding validate_lines
  validate_lines-keeps counting index width [] p h = h
  validate_lines-keeps counting index width (unreadable ∷ lines) p h =
      let noted = kept.by_issue _ _ (counting p.rows (suc p.records) p h) in
      if_ensures Holds _ noted (validate_lines-keeps counting index width lines _ noted)
  validate_lines-keeps counting index width (source_row raw ∷ lines) p h =
      let counted = counting (suc p.rows) (suc p.records) p h in
      let short = kept.by_issue _ _ counted in
      let row_done = check_row-keeps index (map trim_space raw) (p.records + 2) _ counted in
      if_ensures Holds (ltb rules.max_rows (suc p.rows)) (kept.by_issue _ _ counted) (
        if_ensures Holds (not (eqb (length (map trim_space raw)) width))
          (validate_lines-keeps counting index width lines _ short)
          (if_ensures Holds _ row_done
            (validate_lines-keeps counting index width lines _ row_done)))
