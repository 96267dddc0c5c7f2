-- ===== src/Prelude/Text/Order.antt =====
-- `<` on Go strings: by bytes, which for UTF-8 is by code points. It is a strict total order.
use Prim.Native.Nat.{Ordering}
use Prim.Native.String.{String, compare}
use Prim.Native.String.compare
use mathlib.Core.Path.{◌≡◌, refl}
use mathlib.Core.Bool.{Bool, true, false}
use text.Mathlib.Text.{is_lt}
use text.Mathlib.TextEquality.{path_by_compare}
use native.Mathlib.Omega.{arith}

abbrev pub text_lt : String → String → Bool
text_lt s t = is_lt (compare s t)

pub text_lt_asymm : (s t : String) → text_lt s t ≡ true → text_lt t s ≡ false
text_lt_asymm String.[] String.[] h = ground arith
text_lt_asymm String.[] (String.◌∷◌ d t) h = ground (arith, compare.cons-nil d t)
text_lt_asymm (String.◌∷◌ c s) String.[] h = ground (arith, compare.cons-nil c s)
text_lt_asymm (String.◌∷◌ c s) (String.◌∷◌ d t) h =
    ground (arith, compare.cons-cons c d s t, compare.cons-cons d c t s, text_lt_asymm s t)

text_lt_trichotomy :
    (s t : String) → text_lt s t ≡ false → text_lt t s ≡ false → compare s t ≡ Ordering.eq
text_lt_trichotomy String.[] String.[] h k = refl
text_lt_trichotomy String.[] (String.◌∷◌ d t) h k = ground (arith, compare.nil-cons d t)
text_lt_trichotomy (String.◌∷◌ c s) String.[] h k = ground (arith, compare.nil-cons c s)
text_lt_trichotomy (String.◌∷◌ c s) (String.◌∷◌ d t) h k =
    ground (arith, compare.cons-cons c d s t, compare.cons-cons d c t s, text_lt_trichotomy s t)

pub text_lt_total : (s t : String) → text_lt s t ≡ false → text_lt t s ≡ false → s ≡ t
text_lt_total s t h k = path_by_compare s t (text_lt_trichotomy s t h k)

-- To be no greater is transitive.
pub text_lt_negtrans :
    (r s t : String) → text_lt s r ≡ false → text_lt t s ≡ false → text_lt t r ≡ false
text_lt_negtrans r s String.[] h k = ground (arith, bottom r s)
  where
    bottom :
        (r s : String)
        → text_lt s r ≡ false
        → text_lt String.[] s ≡ false
        → text_lt String.[] r ≡ false
    bottom String.[] s h k = refl
    bottom (String.◌∷◌ c r) String.[] h k = h
    bottom (String.◌∷◌ c r) (String.◌∷◌ d s) h k = ground (arith, compare.nil-cons d s)
text_lt_negtrans String.[] s (String.◌∷◌ e t) h k = ground (arith, compare.cons-nil e t)
text_lt_negtrans (String.◌∷◌ c r) String.[] (String.◌∷◌ e t) h k =
    ground (arith, compare.nil-cons c r)
text_lt_negtrans (String.◌∷◌ c r) (String.◌∷◌ d s) (String.◌∷◌ e t) h k = ground (
  arith,
  compare.cons-cons d c s r,
  compare.cons-cons e d t s,
  compare.cons-cons e c t r,
  text_lt_negtrans r s t,
)
