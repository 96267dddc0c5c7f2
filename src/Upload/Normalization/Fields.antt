-- ===== src/Upload/Normalization/Fields.antt =====
-- parseFlexibleFloat of backend/upload-service/internal/service/service.go, and normalizeCSVRow with its
-- helpers of normalization.go. strconv.ParseInt, the layouts of package time, and int(x) of a float64
-- are arguments. Of an error in a row the field is kept, and the text of its cause is left out.
pub mod Reads
use Prim.Native.Char.{Char, code}
use anti_fraud_detector.Prelude.{
  ℕ, suc, String, Bool, true, false, ◌&&◌, ◌||◌, Option, none, some, List, [], ◌∷◌, ◌==◌,
  if◌then◌else◌, eqb, ltb, leb, get_elem?, ◌<>◌, any,
}
use anti_fraud_detector.Prelude.Int.{ℤ, pos, negsuc}
use anti_fraud_detector.Prelude.Dict.{lookup}
use anti_fraud_detector.Prelude.Floats.{FloatOps, itoa}
use anti_fraud_detector.Prelude.Text.{
  CaseTable, to_lower, to_upper, trim_space, is_space, has_prefix, trim_prefix, replace_all,
}

-- What the code calls of packages strconv and time, in the order in which it tries them.
pub record Clock (F : Type 0) : Type 0 where
  pub to_integer : F → ℤ
  pub parse_seconds : String → Option String
  pub parse_layouts : String → Option String

is_numeric : Char → Bool
is_numeric c =
    (leb 48 (code c) && leb (code c) 57)
    || eqb (code c) 46
    || eqb (code c) 44
    || eqb (code c) 45
    || eqb (code c) 43

-- Spaces, $, €, ₽, £, ' and _.
is_formatting : Char → Bool
is_formatting c =
    is_space c
    || eqb (code c) 36
    || eqb (code c) 8364
    || eqb (code c) 8381
    || eqb (code c) 163
    || eqb (code c) 39
    || eqb (code c) 95

clean_number : String → Option String
unfolding is_numeric is_formatting
clean_number String.[] = some ""
clean_number (String.◌∷◌ c s) = elim (clean_number s) [
  | none ↦ none
  | some rest ↦
      if is_numeric c then some (String.◌∷◌ c rest) else if is_formatting c then some rest else none
]

-- strings.LastIndex of one character, in characters and not in bytes: only the order is used.
last_index : ℕ → ℕ → Option ℕ → String → Option ℕ
last_index sought i found String.[] = found
last_index sought i found (String.◌∷◌ c s) =
    last_index sought (suc i) (if eqb (code c) sought then some i else found) s

decimal_point : Option ℕ → Option ℕ → String → String
decimal_point (some dot) (some comma) s =
    if ltb dot comma then replace_all 44 "." (replace_all 46 "" s) else replace_all 44 "" s
decimal_point none (some comma) s = replace_all 44 "." s
decimal_point dot none s = s

unfoldable pub parse_flexible_float : {F : Type 0} → FloatOps F → String → Option F
unfolding clean_number last_index decimal_point
parse_flexible_float ops value = elim (clean_number (trim_space value)) [
  | none ↦ none
  | some s ↦ ops.parse (decimal_point (last_index 46 0 none s) (last_index 44 0 none s) s)
]

unfoldable pub rewrite_identifier : String → String → String → String
rewrite_identifier value source_prefix target_prefix =
    if has_prefix value source_prefix
    then target_prefix <> trim_prefix value source_prefix
    else value

abbrev one_of : String → List String → Bool
one_of value cases = any (λ c. c == value) cases

unfoldable pub normalize_boolean : CaseTable → String → Bool
normalize_boolean u value =
    one_of (to_lower u (trim_space value)) ("true" ∷ "yes" ∷ "y" ∷ "1" ∷ "t" ∷ [])

unfoldable pub normalize_decision : CaseTable → String → String
normalize_decision u value =
    let lower = to_lower u (trim_space value) in
    if one_of lower ("approved" ∷ "approve" ∷ "ok" ∷ "accepted" ∷ "accept" ∷ "yes" ∷ [])
    then "APPROVED"
    else if one_of lower
        ("declined" ∷ "decline" ∷ "rejected" ∷ "reject" ∷ "denied" ∷ "deny" ∷ "no" ∷ [])
    then "DECLINED"
    else to_upper u (trim_space value)

unfoldable pub normalize_timestamp : {F : Type 0} → Clock F → String → String
normalize_timestamp clock raw =
    let value = trim_space raw in
    elim (clock.parse_seconds value) [
      | some shown ↦ shown
      | none ↦ elim (clock.parse_layouts value) [ some shown ↦ shown | none ↦ value ]
    ]

format_bool : Bool → String
format_bool true = "true"
format_bool false = "false"

format_int : ℤ → String
format_int (pos n) = itoa n
format_int (negsuc n) = "-" <> itoa (suc n)

pub record NormalizedRow : Type 0 where
  pub order_id : String
  pub customer_id : String
  pub return_id : String
  pub support_agent_id : String
  pub order_amount : String
  pub refund_amount : String
  pub product_category : String
  pub return_reason : String
  pub evidence_provided : String
  pub decision : String
  pub manual_override : String
  pub decision_time_minutes : String
  pub timestamp : String

-- The row as it is written, in the order of normalizedColumns.
abbrev pub cells : NormalizedRow → List String
cells r =
    r.order_id ∷ r.customer_id ∷ r.return_id ∷ r.support_agent_id ∷ r.order_amount ∷ r.refund_amount
    ∷ r.product_category ∷ r.return_reason ∷ r.evidence_provided ∷ r.decision ∷ r.manual_override
    ∷ r.decision_time_minutes ∷ r.timestamp ∷ []

-- A row, or the field that is not a number.
pub data RowResult : Type 0 where
  row : NormalizedRow → RowResult
  invalid : String → RowResult

unfoldable pub field_value : List String → List (String × ℕ) → String → String
field_value record_cells columns name = elim (lookup name columns) [
  | none ↦ ""
  | some i ↦ elim (get_elem? record_cells i) [ none ↦ "" | some value ↦ trim_space value ]
]

module _ {F : Type 0} (ops : FloatOps F) (u : CaseTable) (clock : Clock F) where
  unfoldable pub minutes_of : String → Option ℤ
  minutes_of raw =
      if raw == ""
      then some (pos 60)
      else elim (parse_flexible_float ops raw) [ none ↦ none | some x ↦ some (clock.to_integer x) ]

  build_row : (String → String) → F → F → ℤ → NormalizedRow
  unfolding format_bool format_int
  build_row value order_amount refund_amount minutes = record {
    order_id = rewrite_identifier (value "order_id") "purchase_" "order_";
    customer_id = rewrite_identifier (value "customer_id") "buyer_" "customer_";
    return_id = rewrite_identifier (value "return_id") "refund_req_" "return_";
    support_agent_id = value "support_agent_id";
    order_amount = ops.format_cents order_amount;
    refund_amount = ops.format_cents refund_amount;
    product_category = to_lower u (value "product_category");
    return_reason = value "return_reason";
    evidence_provided = format_bool (normalize_boolean u (value "evidence_provided"));
    decision = normalize_decision u (value "decision");
    manual_override = format_bool (normalize_boolean u (value "manual_override"));
    decision_time_minutes = format_int minutes;
    timestamp = normalize_timestamp clock (value "timestamp");
  }

  unfoldable pub normalize_csv_row : List String → List (String × ℕ) → RowResult
  unfolding minutes_of build_row
  normalize_csv_row record_cells columns =
      let value = field_value record_cells columns in
      elim (parse_flexible_float ops (value "order_amount")) [
        | none ↦ invalid "order_amount"
        | some order_amount ↦ elim (parse_flexible_float ops (value "refund_amount")) [
          | none ↦ invalid "refund_amount"
          | some refund_amount ↦ elim (minutes_of (value "decision_time_minutes")) [
            | none ↦ invalid "decision_time_minutes"
            | some minutes ↦ row (build_row value order_amount refund_amount minutes)
          ]
        ]
      ]
