-- ===== src/Prelude/Floats.antt =====
-- float64 as an abstract type with the operations that the program uses, and decimal printing.
-- A literal such as 0.75 is written `lit 75`: the double nearest to 75 / 100.
use anti_fraud_detector.Prelude.Tests.{ltb, eqb, if◌then◌else◌}
use Prim.Native.Nat.{ℕ, zero, suc, ◌+◌, ◌/◌, ◌%◌, ◌<◌}
use Prim.Native.Char.{Char}
use Prim.Native.String.{String, char_at}
use mathlib.Core.Path.{◌≡◌}
use mathlib.Core.Bool.{Bool}
use mathlib.Core.Option.{Option}

pub record FloatOps (F : Type 0) : Type 0 where
  pub lit : ℕ → F
  pub of_int : ℕ → F
  pub to_int : F → ℕ
  pub lt : F → F → Bool
  pub le : F → F → Bool
  pub eq : F → F → Bool
  pub add : F → F → F
  pub mul : F → F → F
  pub div : F → F → F
  -- math.Round
  pub round_half : F → F
  -- strconv.ParseFloat(s, 64), math.IsNaN, math.IsInf, "%.0f", and FormatFloat(v, 'f', 2, 64)
  pub parse : String → Option F
  pub is_nan : F → Bool
  pub is_inf : F → Bool
  pub format_whole : F → String
  pub format_cents : F → String

-- What IEEE 754 says of decimal literals below 2 ^ 40: they are ordered as the decimals are.
pub record IsOrderedLits {F : Type 0} (ops : FloatOps F) : Type 0 where
  pub lit_lt : (m n : ℕ) → m < 2000 → n < 2000 → ops.lt (ops.lit m) (ops.lit n) ≡ ltb m n
  pub lit_eq : (m n : ℕ) → m < 2000 → n < 2000 → ops.eq (ops.lit m) (ops.lit n) ≡ eqb m n

digit : ℕ → Char
digit n = char_at "0123456789" (n % 10)

itoa_fuel : ℕ → ℕ → String → String
itoa_fuel zero n acc = acc
itoa_fuel (suc f) n acc =
    let shown = String.◌∷◌ (digit n) acc in
    let more = itoa_fuel f (n / 10) shown in if ltb n 10 then shown else more

-- "%d" and strconv.Itoa of a number that is not negative: n + 1 digits are more than enough.
unfoldable pub itoa : ℕ → String
unfolding itoa_fuel digit
itoa n = itoa_fuel (n + 1) n ""

-- round_half is applied to values times 100, as in `math.Round(value*100) / 100`.
unfoldable pub round_cents : {F : Type 0} → FloatOps F → F → F
round_cents ops value = ops.div (ops.round_half (ops.mul value (ops.lit 10000))) (ops.lit 10000)
