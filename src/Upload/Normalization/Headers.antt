-- ===== src/Upload/Normalization/Headers.antt =====
-- validateHeaders, normalizeHeader and headerAliases of
-- backend/upload-service/internal/service/service.go.
pub mod Found
use Prim.Native.Char.{code}
use anti_fraud_detector.Prelude.{
  ℕ, suc, String, none, some, List, [], ◌∷◌, ◌==◌, if◌then◌else◌, eqb,
}
use anti_fraud_detector.Prelude.Dict.{lookup, insert, contains}
use anti_fraud_detector.Prelude.Text.{CaseTable, to_lower, trim_space, replace_all}

pub data HeaderIssue : Type 0 where
  no_headers empty_header : HeaderIssue
  duplicate_header : String → HeaderIssue
  duplicate_semantic_header : String → String → String → HeaderIssue
  missing_column : String → HeaderIssue

pub data Columns : Type 0 where
  columns : List (String × ℕ) → Columns
  issue : HeaderIssue → Columns

unfoldable pub trim_mark : String → String
trim_mark String.[] = String.[]
trim_mark (String.◌∷◌ c s) = if eqb (code c) 65279 then s else String.◌∷◌ c s

unfoldable pub normalize_header : CaseTable → String → String
unfolding trim_mark
normalize_header u value =
    replace_all 32 "_" (replace_all 45 "_" (trim_space (to_lower u (trim_mark value))))

abbrev pub required_semantic_columns : List String
required_semantic_columns =
    "order_id" ∷ "customer_id" ∷ "return_id" ∷ "support_agent_id" ∷ "order_amount" ∷ "refund_amount"
    ∷ "decision" ∷ "timestamp" ∷ []

abbrev pub header_aliases : List (String × String)
header_aliases =
    ("order_id", "order_id")
    ∷ ("purchase_id", "order_id")
    ∷ ("customer_id", "customer_id")
    ∷ ("buyer_id", "customer_id")
    ∷ ("client_id", "customer_id")
    ∷ ("return_id", "return_id")
    ∷ ("refund_request_id", "return_id")
    ∷ ("support_agent_id", "support_agent_id")
    ∷ ("agent_id", "support_agent_id")
    ∷ ("support_user_id", "support_agent_id")
    ∷ ("order_amount", "order_amount")
    ∷ ("purchase_amount", "order_amount")
    ∷ ("refund_amount", "refund_amount")
    ∷ ("return_amount", "refund_amount")
    ∷ ("decision", "decision")
    ∷ ("status", "decision")
    ∷ ("approval_status", "decision")
    ∷ ("timestamp", "timestamp")
    ∷ ("created_at", "timestamp")
    ∷ ("decision_time", "timestamp")
    ∷ ("decision_time_minutes", "decision_time_minutes")
    ∷ ("resolution_minutes", "decision_time_minutes")
    ∷ ("product_category", "product_category")
    ∷ ("category", "product_category")
    ∷ ("return_reason", "return_reason")
    ∷ ("reason", "return_reason")
    ∷ ("evidence_provided", "evidence_provided")
    ∷ ("evidence", "evidence_provided")
    ∷ ("has_photo", "evidence_provided")
    ∷ ("proof_provided", "evidence_provided")
    ∷ ("manual_override", "manual_override")
    ∷ ("override", "manual_override")
    ∷ []

-- The loop over the headers: the names seen, the header of each field, and its column.
read_headers :
    CaseTable → ℕ → List String → List (String × String) → List (String × ℕ) → List String → Columns
read_headers u index seen semantic_seen found [] = columns found
read_headers u index seen semantic_seen found (header ∷ headers) =
    let normalized = normalize_header u header in
    let unknown = read_headers u (suc index) (normalized ∷ seen) semantic_seen found headers in
    let known = λ (field : String).
      read_headers u (suc index) (normalized ∷ seen) (insert field header semantic_seen)
        (insert field index found) headers in
    if normalized == ""
    then issue empty_header
    else if contains normalized seen
    then issue (duplicate_header header)
    else elim (lookup normalized header_aliases) [
      | none ↦ unknown
      | some field ↦ elim (lookup field semantic_seen) [
        | some previous ↦ issue (duplicate_semantic_header previous header field)
        | none ↦ known field
      ]
    ]

require : List (String × ℕ) → List String → Columns
require found [] = columns found
require found (required ∷ rest) =
    let others = require found rest in
    elim (lookup required found) [ none ↦ issue (missing_column required) | some i ↦ others ]

check_required : Columns → Columns
unfolding require
check_required (issue i) = issue i
check_required (columns found) = require found required_semantic_columns

unfoldable pub validate_headers : CaseTable → List String → Columns
unfolding read_headers check_required
validate_headers u [] = issue no_headers
validate_headers u (header ∷ headers) =
    check_required (read_headers u 0 [] [] [] (header ∷ headers))
