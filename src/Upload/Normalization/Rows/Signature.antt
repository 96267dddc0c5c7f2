-- ===== src/Upload/Normalization/Rows/Signature.antt =====
-- The signature by which normalizeUploadedObject of
-- backend/upload-service/internal/service/normalization.go compares two rows, and the character that
-- joins the cells in it.
use mathlib.Core.Path.{ap₂}
use Prim.Native.Char.{Char, code}
use Prim.Native.String.{char_at, ◌++◌}
use Prim.Native.String.append
use anti_fraud_detector.Prelude.{
  ℕ, String, Bool, true, false, ◌≡◌, refl, sym, ap, ◌∙◌, true≢false, ◌&&◌, not, List, [], ◌∷◌, eqb,
  length, All, arith,
}
use anti_fraud_detector.Prelude.Text.{join}
use anti_fraud_detector.Upload.Normalization.Fields.{NormalizedRow, cells}
use anti_fraud_detector.Upload.Normalization.Rows.{signature}

-- No character of the text is U+001F.
abbrev pub is_plain : String → Bool
is_plain String.[] = true
is_plain (String.◌∷◌ c s) = not (eqb (code c) 31) && is_plain s

abbrev IsPlain : String → Type 0
IsPlain s = is_plain s ≡ true

abbrev mark : Char
mark = char_at "\u{1f}" 0

head_code : String → ℕ
head_code String.[] = 0
head_code (String.◌∷◌ c s) = code c

tail_of : String → String
tail_of String.[] = String.[]
tail_of (String.◌∷◌ c s) = s

head_of : Char → String → Char
head_of d String.[] = d
head_of d (String.◌∷◌ c s) = c

IsPlain-tail : (c : Char) (s : String) → IsPlain (String.◌∷◌ c s) → IsPlain s
IsPlain-tail c s p = ground (arith, p)

tails : (c d : Char) (s t : String) → String.◌∷◌ c s ≡ String.◌∷◌ d t → s ≡ t
unfolding tail_of
tails c d s t e = ap tail_of e

heads : (c d : Char) (s t : String) → String.◌∷◌ c s ≡ String.◌∷◌ d t → c ≡ d
unfolding head_of
heads c d s t e = ap (head_of c) e

-- The text that joins the cells is the mark alone.
marked : (s : String) → "\u{1f}" ++ s ≡ String.◌∷◌ mark s
marked s = append.cons mark "" s ∙ ap (λ t. String.◌∷◌ mark t) (append.nil s)

not_mark : (c : Char) (s : String) → IsPlain (String.◌∷◌ c s) → eqb (code c) 31 ≡ false
not_mark c s p = ground (arith, p)

-- What stands before the first mark, and what stands after it.
first_mark :
    (a b x y : String)
    → IsPlain a
    → IsPlain b
    → a ++ String.◌∷◌ mark x ≡ b ++ String.◌∷◌ mark y
    → (a ≡ b) × (x ≡ y)
unfolding head_code
first_mark String.[] String.[] x y p q e =
    (refl, tails mark mark x y (sym (append.nil _) ∙ e ∙ append.nil _))
first_mark String.[] (String.◌∷◌ d b) x y p q e = absurd (
    true≢false (
      ap (λ s. eqb (head_code s) 31) (sym (append.nil _) ∙ e ∙ append.cons d b _) ∙ not_mark d b q))
first_mark (String.◌∷◌ c a) String.[] x y p q e = absurd (
    true≢false (
      ap (λ s. eqb (head_code s) 31) (sym (append.nil _) ∙ sym e ∙ append.cons c a _)
      ∙ not_mark c a p))
first_mark (String.◌∷◌ c a) (String.◌∷◌ d b) x y p q e =
    let joined = sym (append.cons c a _) ∙ e ∙ append.cons d b _ in
    let (same, rest) =
      first_mark a b x y (IsPlain-tail c a p) (IsPlain-tail d b q) (tails c d _ _ joined) in
    (ap₂ (λ k s. String.◌∷◌ k s) (heads c d _ _ joined) same, rest)

-- Lists of as many plain texts with one join are equal.
join-same :
    (xs ys : List String)
    → length xs ≡ length ys
    → All IsPlain xs
    → All IsPlain ys
    → join xs "\u{1f}" ≡ join ys "\u{1f}"
    → xs ≡ ys
unfolding join
join-same [] [] n p q e = refl
join-same [] (y ∷ ys) n p q e = absurd (ground arith)
join-same (x ∷ xs) [] n p q e = absurd (ground arith)
join-same (x ∷ []) (y ∷ []) n p q e = ap (λ s. s ∷ []) e
join-same (x ∷ []) (y ∷ y' ∷ ys) n p q e = absurd (ground arith)
join-same (x ∷ x' ∷ xs) (y ∷ []) n p q e = absurd (ground arith)
join-same (x ∷ x' ∷ xs) (y ∷ y' ∷ ys) n p q e =
    let (same, rest) =
      first_mark x y _ _ p.0 q.0
        (ap (λ s. x ++ s) (sym (marked _)) ∙ e ∙ ap (λ s. y ++ s) (marked _)) in
    ap₂ (λ s l. s ∷ l) same (join-same (x' ∷ xs) (y' ∷ ys) (omega (arith, n)) p.1 q.1 rest)

-- No cell of the row holds the mark.
abbrev pub IsPlainRow : NormalizedRow → Type 0
IsPlainRow r = All IsPlain (cells r)

row_of : NormalizedRow → List String → NormalizedRow
row_of r (a ∷ b ∷ c ∷ d ∷ e ∷ f ∷ g ∷ h ∷ i ∷ j ∷ k ∷ l ∷ m ∷ []) = record {
  order_id = a;
  customer_id = b;
  return_id = c;
  support_agent_id = d;
  order_amount = e;
  refund_amount = f;
  product_category = g;
  return_reason = h;
  evidence_provided = i;
  decision = j;
  manual_override = k;
  decision_time_minutes = l;
  timestamp = m;
}
row_of r cs = r

-- Plain rows with one signature are equal.
pub signature-same :
    (r o : NormalizedRow) → IsPlainRow r → IsPlainRow o → signature r ≡ signature o → r ≡ o
unfolding row_of
signature-same r o p q e = ap (row_of r) (join-same (cells r) (cells o) (ground arith) p q e)
