-- ===== src/Relations/Records.antt =====
-- Reading and validating records: findRecord, validateHeader, validateRecords,
-- parseNormalizedReturnRecord, readString and loadRecordsFromCSV of
-- backend/relations-service/internal/service/service.go. The file is given as the rows that
-- encoding/csv reads from it, or the error in place of one; strconv.ParseBool and Atoi are arguments.
use anti_fraud_detector.Prelude.{
  ℕ, suc, String, Bool, false, ◌||◌, not, Option, none, some, List, [], ◌∷◌, ◌==◌, if◌then◌else◌,
  get_elem?, find, ◌<>◌,
}
use anti_fraud_detector.Prelude.Dict.{lookup, insert, contains}
use anti_fraud_detector.Prelude.Text.{CaseTable, to_upper, trim_space, trim_prefix, join}
use anti_fraud_detector.Prelude.Floats.{FloatOps, itoa}
use anti_fraud_detector.Prelude.Int.{ℤ}
use anti_fraud_detector.Relations.Domain.{NormalizedReturnRecord}

-- ErrDatasetNotFound, ErrReturnNotFound, ErrInvalidDataset with its text, and the errors of others.
pub data ServiceError : Type 0 where
  dataset_not_found return_not_found : ServiceError
  invalid_dataset : String → ServiceError
  other : String → ServiceError

pub data Result {ℓ} (A : Type ℓ) : Type ℓ where
  ok : A → Result A
  err : ServiceError → Result A

infixl 5 ◌>>=◌ ◌>>◌
abbrev pub ◌>>=◌ {ℓ κ} :
    {Value : Type ℓ} {Next : Type κ} → Result Value → (Value → Result Next) → Result Next
err cause >>= next = err cause
ok value >>= next = next value

abbrev pub ◌>>◌ {κ} : {Next : Type κ} → Result (Unit {0}) → Result Next → Result Next
check >> rest = check >>= λ passed. rest

-- The parsers of package strconv that are not floats.
pub record Parsers : Type 0 where
  pub parse_bool : String → Option Bool
  pub atoi : String → Option ℤ

-- One Read of the CSV reader.
pub data Line : Type 0 where
  read_row : List String → Line
  broken : String → Line

unfoldable pub find_record :
    {F : Type 0} → List (NormalizedReturnRecord F) → String → Option (NormalizedReturnRecord F)
find_record records return_id = find (λ r. r.return_id == return_id) records

abbrev pub required_columns : List String
required_columns =
    "order_id" ∷ "customer_id" ∷ "return_id" ∷ "support_agent_id" ∷ "order_amount" ∷ "refund_amount"
    ∷ "product_category" ∷ "return_reason" ∷ "decision" ∷ "manual_override"
    ∷ "decision_time_minutes" ∷ []

missing_columns : List (String × ℕ) → List String → List String
missing_columns index [] = []
missing_columns index (column ∷ columns) =
    let rest = missing_columns index columns in
    elim (lookup column index) [ none ↦ column ∷ rest | some i ↦ rest ]

header_result : List String → Result (Unit {0})
header_result [] = ok tt
header_result (c ∷ cs) = err (invalid_dataset ("missing required columns: " <> join (c ∷ cs) ", "))

unfoldable pub validate_header : List (String × ℕ) → Result (Unit {0})
unfolding missing_columns header_result
validate_header index = header_result (missing_columns index required_columns)

index_header : ℕ → List String → List (String × ℕ) → List (String × ℕ)
index_header i [] index = index
index_header i (name ∷ names) index = index_header (suc i) names (insert (trim_space name) i index)

-- The index of a header: a later column takes the place of an earlier one of the same name.
unfoldable pub column_index : List String → List (String × ℕ)
unfolding index_header
column_index header = index_header 0 header []

unfoldable pub read_string : List String → List (String × ℕ) → String → String
read_string row index column = elim (lookup column index) [
  | none ↦ ""
  | some i ↦ elim (get_elem? row i) [ none ↦ "" | some value ↦ trim_space value ]
]

unfoldable pub or_else : {A : Type 0} → Option A → String → Result A
or_else none message = err (other message)
or_else (some a) message = ok a

module _ {F : Type 0} where
  unfoldable pub validate_each :
      String → List String → List (NormalizedReturnRecord F) → Result (Unit {0})
  validate_each dataset_id seen [] = ok tt
  validate_each dataset_id seen (r ∷ rs) =
      let rest = validate_each dataset_id (r.return_id ∷ seen) rs in
      if not (r.dataset_id == dataset_id)
      then err (
          invalid_dataset (
            "record " <> r.return_id <> " belongs to dataset " <> r.dataset_id <> ", expected "
            <> dataset_id))
      else if r.return_id == ""
          || (r.customer_id == "" || (r.order_id == "" || r.support_agent_id == ""))
      then err (invalid_dataset "required identifier is empty")
      else if contains r.return_id seen
      then err
          (invalid_dataset ("duplicate returnId " <> r.return_id <> " in dataset " <> dataset_id))
      else rest

  unfoldable pub validate_records : String → List (NormalizedReturnRecord F) → Result (Unit {0})
  unfolding validate_each
  validate_records dataset_id [] =
      err (invalid_dataset ("dataset " <> dataset_id <> " has no records"))
  validate_records dataset_id (r ∷ rs) = validate_each dataset_id [] (r ∷ rs)

  module _ (ops : FloatOps F) (u : CaseTable) (parsers : Parsers) where
    parse_evidence : String → Result Bool
    parse_evidence value =
        if value == ""
        then ok false
        else or_else (parsers.parse_bool value) "invalid evidence_provided"

    unfoldable pub parse_normalized_return_record :
        String → List String → List (String × ℕ) → Result (NormalizedReturnRecord F)
    unfolding parse_evidence or_else
    parse_normalized_return_record dataset_id row index = do
      let read = read_string row index
      order_amount ← or_else (ops.parse (read "order_amount")) "order_amount"
      refund_amount ← or_else (ops.parse (read "refund_amount")) "refund_amount"
      manual_override ← or_else (parsers.parse_bool (read "manual_override")) "manual_override"
      minutes ← or_else (parsers.atoi (read "decision_time_minutes")) "decision_time_minutes"
      evidence ← parse_evidence (read "evidence_provided")
      ok (record {
        dataset_id = dataset_id;
        return_id = read "return_id";
        customer_id = read "customer_id";
        order_id = read "order_id";
        support_agent_id = read "support_agent_id";
        product_category = read "product_category";
        return_reason = read "return_reason";
        decision_id = "decision_" <> trim_prefix (read "return_id") "return_";
        decision_status = to_upper u (read "decision");
        refund_amount = refund_amount;
        order_amount = order_amount;
        evidence_provided = evidence;
        manual_override = manual_override;
        decision_time_minutes = minutes;
        timestamp = read "timestamp";
      })

    -- The error of a row, which is one of the parsers', gets the number of its line; the first row after
    -- the header is line 2.
    at_line : ℕ → Result (NormalizedReturnRecord F) → Result (NormalizedReturnRecord F)
    at_line line (ok r) = ok r
    at_line line (err (other message)) =
        err (invalid_dataset ("line " <> itoa line <> ": " <> message))
    at_line line (err e) = err e

    parse_lines :
        String → List (String × ℕ) → ℕ → List Line → Result (List (NormalizedReturnRecord F))
    parse_lines dataset_id index line [] = ok []
    parse_lines dataset_id index line (broken message ∷ lines) = err (other message)
    parse_lines dataset_id index line (read_row cells ∷ lines) =
        let rest = parse_lines dataset_id index (suc line) lines in
        at_line line (parse_normalized_return_record dataset_id cells index) >>= λ r.
        rest >>= λ rs. ok (r ∷ rs)

    nonempty : List (NormalizedReturnRecord F) → Result (Unit {0})
    nonempty [] = err (invalid_dataset "normalized refund dataset is empty")
    nonempty (r ∷ rs) = ok tt

    -- loadRecordsFromCSV once the file is open; no line at all is a read error.
    unfoldable pub load_records_from_csv :
        String → List Line → Result (List (NormalizedReturnRecord F))
    unfolding parse_lines at_line nonempty
    load_records_from_csv dataset_id [] = err (other "EOF")
    load_records_from_csv dataset_id (broken message ∷ lines) = err (other message)
    load_records_from_csv dataset_id (read_row header ∷ lines) = do
      let index = column_index header
      validate_header index
      records ← parse_lines dataset_id index 2 lines
      nonempty records
      validate_records dataset_id records
      ok records
