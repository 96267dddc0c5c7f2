-- ===== src/Prelude/Text.antt =====
-- What the program uses of Go's package `strings`, over texts of Unicode code points. Outside
-- ASCII the case mapping is a table that is a parameter.
mod Order
pub use Order.*
use Prim.Native.Nat.{ℕ, zero, suc, ◌-◌, ◌≤◌}
use native.Mathlib.Omega.{arith}
use Prim.Native.Char.{Char, code}
use Prim.Native.String.{String, char_at, ◌++◌}
use mathlib.Core.Bool.{Bool, true, false, ◌&&◌, ◌||◌}
use mathlib.Core.List.{List, [], ◌∷◌}
use text.Mathlib.Text.{◌==◌}
use anti_fraud_detector.Prelude.Tests.{leb, eqb, if◌then◌else◌}

-- unicode.ToUpper and unicode.ToLower from U+0080 on.
pub record CaseTable : Type 0 where
  pub upper : Char → Char
  pub lower : Char → Char

pub between : ℕ → ℕ → Char → Bool
between lo hi c = leb lo (code c) && leb (code c) hi

upper_rune : CaseTable → Char → Char
unfolding between
upper_rune u c =
    if between 97 122 c
    then char_at "ABCDEFGHIJKLMNOPQRSTUVWXYZ" (code c - 97)
    else if leb (code c) 127
    then c
    else u.upper c

lower_rune : CaseTable → Char → Char
unfolding between
lower_rune u c =
    if between 65 90 c
    then char_at "abcdefghijklmnopqrstuvwxyz" (code c - 65)
    else if leb (code c) 127
    then c
    else u.lower c

-- strings.ToUpper, strings.ToLower.
unfoldable pub to_upper : CaseTable → String → String
unfolding upper_rune
to_upper u String.[] = String.[]
to_upper u (String.◌∷◌ c s) = String.◌∷◌ (upper_rune u c) (to_upper u s)

unfoldable pub to_lower : CaseTable → String → String
unfolding lower_rune
to_lower u String.[] = String.[]
to_lower u (String.◌∷◌ c s) = String.◌∷◌ (lower_rune u c) (to_lower u s)

-- unicode.IsSpace, its whole table.
unfoldable pub is_space : Char → Bool
unfolding between
is_space c =
    between 9 13 c
    || eqb (code c) 32
    || eqb (code c) 133
    || eqb (code c) 160
    || eqb (code c) 5760
    || between 8192 8202 c
    || eqb (code c) 8232
    || eqb (code c) 8233
    || eqb (code c) 8239
    || eqb (code c) 8287
    || eqb (code c) 12288

trim_left : String → String
trim_left String.[] = String.[]
trim_left (String.◌∷◌ c s) = let rest = trim_left s in if is_space c then rest else String.◌∷◌ c s

cons_trimmed : Char → String → String
cons_trimmed c String.[] = if is_space c then String.[] else String.◌∷◌ c String.[]
cons_trimmed c (String.◌∷◌ d s) = String.◌∷◌ c (String.◌∷◌ d s)

trim_right : String → String
unfolding cons_trimmed
trim_right String.[] = String.[]
trim_right (String.◌∷◌ c s) = cons_trimmed c (trim_right s)

-- strings.TrimSpace.
unfoldable pub trim_space : String → String
unfolding trim_left trim_right is_space
trim_space s = trim_right (trim_left s)

-- strings.HasPrefix and strings.TrimPrefix.
unfoldable pub has_prefix : String → String → Bool
has_prefix s String.[] = true
has_prefix String.[] (String.◌∷◌ d p) = false
has_prefix (String.◌∷◌ c s) (String.◌∷◌ d p) =
    let rest = has_prefix s p in if eqb (code c) (code d) then rest else false

drop_count : String → String → String
drop_count s String.[] = s
drop_count String.[] (String.◌∷◌ d p) = String.[]
drop_count (String.◌∷◌ c s) (String.◌∷◌ d p) = drop_count s p

unfoldable pub trim_prefix : String → String → String
unfolding has_prefix drop_count
trim_prefix s p = if has_prefix s p then drop_count s p else s

-- strings.ReplaceAll for an old text of one character.
unfoldable pub replace_all : ℕ → String → String → String
replace_all old new String.[] = String.[]
replace_all old new (String.◌∷◌ c s) =
    let rest = replace_all old new s in if eqb (code c) old then new ++ rest else String.◌∷◌ c rest

-- strings.Join.
unfoldable pub join : List String → String → String
join [] sep = ""
join (x ∷ []) sep = x
join (x ∷ y ∷ ys) sep = x ++ sep ++ join (y ∷ ys) sep

-- strings.Map with a function that keeps a rune or drops it, len([]rune(s)), and string(runes[:n]).
unfoldable pub keep_runes : (Char → Bool) → String → String
keep_runes p String.[] = String.[]
keep_runes p (String.◌∷◌ c s) = let rest = keep_runes p s in if p c then String.◌∷◌ c rest else rest

abbrev pub count_runes : String → ℕ
count_runes String.[] = 0
count_runes (String.◌∷◌ c s) = suc (count_runes s)

abbrev pub take_runes : ℕ → String → String
take_runes zero s = String.[]
take_runes (suc n) String.[] = String.[]
take_runes (suc n) (String.◌∷◌ c s) = String.◌∷◌ c (take_runes n s)

pub count_runes-take_runes-le : (n : ℕ) (s : String) → count_runes (take_runes n s) ≤ n
count_runes-take_runes-le zero s = omega arith
count_runes-take_runes-le (suc n) String.[] = omega arith
count_runes-take_runes-le (suc n) (String.◌∷◌ c s) = omega (arith, count_runes-take_runes-le n s)

-- filepath.Base: what is after the last slash that is not at the end.
last_part : String → Bool → String → String
last_part part slash String.[] = part
last_part part slash (String.◌∷◌ c s) =
    let one = String.◌∷◌ c String.[] in
    if eqb (code c) 47
    then last_part part true s
    else last_part (if slash then one else part ++ one) false s

unfoldable pub base : String → String
unfolding last_part
base path =
    if path == ""
    then "."
    else let part = last_part "" false path in if part == "" then "/" else part
