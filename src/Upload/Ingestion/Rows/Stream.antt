-- ===== src/Upload/Ingestion/Rows/Stream.antt =====
-- What validateCSVStream of backend/upload-service/internal/service/ingestion.go makes sure of when it
-- accepts a source.
use anti_fraud_detector.Prelude.{
  ℕ, suc, ◌+◌, ◌≤◌, ◌<◌, String, Bool, true, false, ◌≡◌, refl, subst, ap, ◌∙◌, ◌⊎◌, inl, inr, List,
  [], ◌∷◌, not, if◌then◌else◌, ltb, leb, eqb, eqb→eq, length, map, All, arith, true≢false,
}
use anti_fraud_detector.Prelude.Text.{trim_space}
use anti_fraud_detector.Upload.Normalization.Headers.{Columns, columns, issue, validate_headers}
use anti_fraud_detector.Upload.Normalization.Rows.{SourceLine, source_row, unreadable}
use anti_fraud_detector.Upload.Ingestion.Issues.{ValidationIssue}
use anti_fraud_detector.Upload.Ingestion.Rows.{
  Rules, Progress, nothing_read, valid, verdict, with_columns, check_row, validate_lines,
  validate_csv_stream,
}
use anti_fraud_detector.Upload.Ingestion.Rows.Checks.{
  append_issue-ne-nil, check_row-keeps, validate_lines-keeps,
}
use anti_fraud_detector.Upload.Ingestion.Rows.Accepted.{
  IsFine, fine_row, HasIssue, HasIssue-kept, clean_before, check_row-IsFineRow,
}

List-cases :
    (xs : List ValidationIssue)
    → (xs ≡ []) ⊎ ((x : ValidationIssue) × (rest : List ValidationIssue) × (xs ≡ x ∷ rest))
List-cases [] = inl refl
List-cases (x ∷ xs) = inr (x, xs, refl)

module _ {F : Type 0} (rules : Rules F) (some_error : 0 < rules.max_errors)
    (index : List (String × ℕ)) (width : ℕ) where
  check_row_rows :
      (cells : List String) (row : ℕ) (p : Progress)
      → (check_row rules index cells row p).rows ≡ p.rows
  check_row_rows cells row p =
      check_row-keeps rules (λ q. q.rows ≡ p.rows)
        (record { by_issue = λ i q h. h; by_warning = λ i q h. h; by_return = λ ids q h. h }) index
        cells row p refl

  lines_before :
      (lines : List SourceLine) (p : Progress)
      → (validate_lines rules index width lines p).issues ≡ []
      → p.issues ≡ []
  unfolding HasIssue
  lines_before lines p = clean_before p (validate_lines rules index width lines p) (
      validate_lines-keeps rules HasIssue (HasIssue-kept rules.max_errors some_error)
        (λ rows records q h. h) index width lines p)

  -- When the loop stops at a limit, or goes on to lines that keep issues, and there is none in the end.
  stopped_clean :
      (test : Bool) (q rest : Progress)
      → (rest.issues ≡ [] → q.issues ≡ [])
      → (if test then q else rest).issues ≡ []
      → q.issues ≡ []
  stopped_clean true q rest before e = e
  stopped_clean false q rest before e = before e

  -- The four ways out of the loop on a row that was read.
  row_turn :
      (over wide full : Bool) (many short row_done rest : Progress)
      → HasIssue many
      → HasIssue short
      → (rest.issues ≡ [] → row_done.issues ≡ [])
      → (row_done.issues ≡ [] → full ≡ false)
      → (if over then many else if not wide then short else if full then row_done else rest).issues
        ≡ []
      → (over ≡ false)
        × (wide ≡ true)
        × (row_done.issues ≡ [])
        × ((if over then many else if not wide then short else if full then row_done else rest)
            ≡ rest)
  unfolding HasIssue
  row_turn true wide full many short row_done rest h k before stop e = absurd (h e)
  row_turn false false full many short row_done rest h k before stop e = absurd (k e)
  row_turn false true true many short row_done rest h k before stop e = absurd (true≢false (stop e))
  row_turn false true false many short row_done rest h k before stop e =
      (refl, refl, before e, refl)

  -- What no issue after the loop says of the lines that it was given.
  record IsClean (lines : List SourceLine) (p : Progress) : Type 0 where
    fine : All (IsFine rules index width) lines
    counted : (validate_lines rules index width lines p).rows ≡ length lines + p.rows
    fit : (length lines ≡ 0) ⊎ (length lines + p.rows ≤ rules.max_rows)

  lines-IsClean :
      (lines : List SourceLine) (p : Progress)
      → (validate_lines rules index width lines p).issues ≡ []
      → IsClean lines p
  unfolding validate_lines HasIssue
  lines-IsClean [] p e = record { fine = tt; counted = ground arith; fit = inl refl }
  lines-IsClean (unreadable ∷ lines) p e = absurd (
      append_issue-ne-nil p.issues rules.max_errors _ some_error
        (stopped_clean _ _ _ (lines_before lines _) e))
  lines-IsClean (source_row raw ∷ lines) p e =
      let q = record p { records = suc p.records; rows = suc p.rows } in
      let row_done = check_row rules index (map trim_space raw) (p.records + 2) q in
      let (under, wide, row_clean, same) =
        row_turn (ltb rules.max_rows (suc p.rows)) (eqb (length (map trim_space raw)) width)
          (leb rules.max_errors (length row_done.issues)) _ _ row_done
          (validate_lines rules index width lines row_done)
          (append_issue-ne-nil p.issues rules.max_errors _ some_error)
          (λ h. append_issue-ne-nil p.issues rules.max_errors _ some_error (lines_before lines _ h))
          (lines_before lines row_done) (λ h. ground (arith, h)) e in
      let row_fine =
        check_row-IsFineRow rules some_error index (map trim_space raw) (p.records + 2) q
          row_clean in
      let row_counted = check_row_rows (map trim_space raw) (p.records + 2) q in
      let later = lines-IsClean lines row_done (subst (λ r. r.issues ≡ []) same e) in
      let total = ap (λ r. r.rows) same ∙ later.counted in
      record {
        fine = (fine_row raw (eqb→eq _ _ wide) row_fine.0, later.fine);
        counted = ground (arith, total, row_counted);
        fit = inr (ground (arith, later.fit, row_counted, under));
      }

verdict-valid :
    {F : Type 0} (rules : Rules F) (p : Progress) (rows : ℕ) (warnings : List ValidationIssue)
    → verdict rules p ≡ valid rows warnings
    → (p.issues ≡ []) × (rows ≡ p.rows) × (1 ≤ rows)
unfolding verdict
verdict-valid rules p rows warnings e = elim (List-cases p.issues) [
  | inl none_left ↦ (none_left, ground arith, ground (arith, e, none_left))
  | inr (i, rest, some_left) ↦ absurd (ground (arith, e, some_left))
]

module _ {F : Type 0} (rules : Rules F) where
  -- The lines of an accepted source after its header, and the columns that the header names.
  pub record IsAccepted (lines : List SourceLine) (rows : ℕ) : Type 0 where
    pub header : List String
    pub rest : List SourceLine
    pub index : List (String × ℕ)
    pub split : lines ≡ source_row header ∷ rest
    pub named : validate_headers rules.case_table (map trim_space header) ≡ columns index
    pub fine : All (IsFine rules index (length header)) rest
    pub counted : rows ≡ length rest
    pub some_row : 1 ≤ rows
    pub fit : rows ≤ rules.max_rows

  columns-IsAccepted :
      0 < rules.max_errors
      → (header : List String) (lines : List SourceLine) (c : Columns)
      → validate_headers rules.case_table (map trim_space header) ≡ c
      → (rows : ℕ) (warnings : List ValidationIssue)
      → with_columns rules (length header) lines c ≡ valid rows warnings
      → IsAccepted (source_row header ∷ lines) rows
  unfolding with_columns
  columns-IsAccepted some_error header lines (issue i) named rows warnings e = absurd (ground arith)
  columns-IsAccepted some_error header lines (columns index) named rows warnings e =
      let (no_issue, same, some_row) =
        verdict-valid rules (validate_lines rules index (length header) lines nothing_read) rows
          warnings e in
      let clean =
        lines-IsClean rules some_error index (length header) lines nothing_read no_issue in
      let counted = clean.counted in
      let fit = clean.fit in
      record {
        header = header;
        rest = lines;
        index = index;
        split = refl;
        named = named;
        fine = clean.fine;
        counted = ground arith;
        some_row = some_row;
        fit = ground arith;
      }

  -- A source that is accepted, when at least one error may be reported, has a header with its columns, and
  -- after it as many lines as rows are counted: at least one and at most the limit, each of them
  -- readable and of the header's width, with the required cells filled, its numbers read and of the sign
  -- that is wanted, and its decision and timestamp understood.
  pub validate_csv_stream-IsAccepted :
      0 < rules.max_errors
      → (lines : List SourceLine) (rows : ℕ) (warnings : List ValidationIssue)
      → validate_csv_stream rules lines ≡ valid rows warnings
      → IsAccepted lines rows
  unfolding validate_csv_stream
  validate_csv_stream-IsAccepted some_error [] rows warnings e = absurd (ground arith)
  validate_csv_stream-IsAccepted some_error (unreadable ∷ lines) rows warnings e =
      absurd (ground arith)
  validate_csv_stream-IsAccepted some_error (source_row header ∷ lines) rows warnings e =
      columns-IsAccepted some_error header lines
        (validate_headers rules.case_table (map trim_space header)) refl rows warnings e
