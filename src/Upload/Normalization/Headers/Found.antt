-- ===== src/Upload/Normalization/Headers/Found.antt =====
-- Which columns validateHeaders of backend/upload-service/internal/service/service.go makes sure of.
use anti_fraud_detector.Prelude.{
  ℕ, String, ◌≡◌, inl, inr, some, List, [], ◌∷◌, All, arith, Option-cases, subst,
}
use anti_fraud_detector.Prelude.Dict.{lookup}
use anti_fraud_detector.Prelude.Text.{CaseTable}
use anti_fraud_detector.Upload.Normalization.Headers.{
  Columns, columns, issue, require, check_required, required_semantic_columns, validate_headers,
}

-- The field has a column.
abbrev pub HasColumn : List (String × ℕ) → String → Type 0
HasColumn index name = (i : ℕ) × (lookup name index ≡ some i)

require-HasColumn :
    (found index : List (String × ℕ)) (names : List String)
    → require found names ≡ columns index
    → (found ≡ index) × All (HasColumn found) names
unfolding require
require-HasColumn found index [] e = (ground arith, tt)
require-HasColumn found index (name ∷ names) e = elim (Option-cases (lookup name found)) [
  | inl missing ↦ absurd (ground (arith, missing))
  | inr (i, at) ↦
      let (same, others) = require-HasColumn found index names (ground (arith, at, e)) in
      (same, ((i, at), others))
]

required-HasColumn :
    (c : Columns) (index : List (String × ℕ))
    → check_required c ≡ columns index
    → All (HasColumn index) required_semantic_columns
unfolding check_required
required-HasColumn (issue i) index e = absurd (ground arith)
required-HasColumn (columns found) index e =
    let (same, all) = require-HasColumn found index required_semantic_columns e in
    subst (λ columns_of. All (HasColumn columns_of) required_semantic_columns) same all

-- A header that is accepted has a column for each of the required fields.
pub validate_headers-HasColumn :
    (u : CaseTable) (headers : List String) (index : List (String × ℕ))
    → validate_headers u headers ≡ columns index
    → All (HasColumn index) required_semantic_columns
unfolding validate_headers
validate_headers-HasColumn u [] index e = absurd (ground arith)
validate_headers-HasColumn u (header ∷ headers) index e = required-HasColumn _ index e
