-- ===== src/Upload/Ingestion/Names.antt =====
-- sanitizeFilename, isCSVContentType, validDecision and the test of the extension in
-- backend/upload-service/internal/service/ingestion.go.
use Prim.Native.Char.{Char, code}
use anti_fraud_detector.Prelude.{
  ℕ, ◌-◌, String, Bool, true, false, ◌&&◌, ◌||◌, not, List, [], ◌∷◌, ◌==◌, if◌then◌else◌, eqb, ltb,
  leb, ◌<>◌, any,
}
use anti_fraud_detector.Prelude.Text.{
  CaseTable, base, to_lower, to_upper, trim_space, keep_runes, count_runes, take_runes, replace_all,
}

has_rune : ℕ → String → Bool
has_rune sought String.[] = false
has_rune sought (String.◌∷◌ c s) =
    let rest = has_rune sought s in if eqb (code c) sought then true else rest

-- filepath.Ext: from the last dot that no slash follows.
unfoldable pub file_ext : String → String
unfolding has_rune
file_ext String.[] = ""
file_ext (String.◌∷◌ c s) =
    let later = file_ext s in
    if not (later == "")
    then later
    else if eqb (code c) 46 && not (has_rune 47 s)
    then String.◌∷◌ c s
    else ""

-- strings.EqualFold(ext, ".csv"): the long s folds to s.
unfoldable pub is_csv_ext : String → Bool
is_csv_ext (String.◌∷◌ a (String.◌∷◌ b (String.◌∷◌ c (String.◌∷◌ d String.[])))) =
    eqb (code a) 46
    && (eqb (code b) 99 || eqb (code b) 67)
    && (eqb (code c) 115 || eqb (code c) 83 || eqb (code c) 383)
    && (eqb (code d) 118 || eqb (code d) 86)
is_csv_ext s = false

-- The runes that strings.Map keeps: no control character and no separator.
is_kept : Char → Bool
is_kept c = not (
    ltb (code c) 32 || (leb 127 (code c) && leb (code c) 159) || eqb (code c) 47 || eqb (code c) 92)

-- At most 200 runes, the extension at the end among them.
limit_name : String → String
limit_name name =
    if ltb 200 (count_runes name)
    then (let ext = file_ext name in
        if leb 200 (count_runes ext)
        then trim_space (take_runes 1 name)
        else trim_space (take_runes (200 - count_runes ext) name) <> ext)
    else name

unfoldable pub sanitize_filename : String → String
unfolding is_kept limit_name
sanitize_filename name =
    let cleaned = trim_space (keep_runes is_kept (base (replace_all 92 "/" name))) in
    limit_name (if cleaned == "" || cleaned == "." then "dataset.csv" else cleaned)

-- strings.Split(value, ";")[0].
before_semicolon : String → String
before_semicolon String.[] = ""
before_semicolon (String.◌∷◌ c s) =
    let rest = before_semicolon s in if eqb (code c) 59 then "" else String.◌∷◌ c rest

abbrev one_of : String → List String → Bool
one_of value cases = any (λ c. c == value) cases

unfoldable pub is_csv_content_type : CaseTable → String → Bool
unfolding before_semicolon
is_csv_content_type u value =
    if value == ""
    then true
    else one_of (to_lower u (trim_space (before_semicolon value))) (
        "text/csv" ∷ "application/csv" ∷ "application/vnd.ms-excel" ∷ "text/plain"
        ∷ "application/octet-stream" ∷ [])

unfoldable pub valid_decision : CaseTable → String → Bool
valid_decision u value =
    one_of (to_upper u (trim_space value))
      ("APPROVED" ∷ "APPROVE" ∷ "DECLINED" ∷ "DECLINE" ∷ "REJECTED" ∷ "REJECT" ∷ [])
