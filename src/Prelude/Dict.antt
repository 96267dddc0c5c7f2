-- ===== src/Prelude/Dict.antt =====
-- Go maps with text keys as association lists, and sets of texts as lists.
use Prim.Native.String.{String}
use mathlib.Core.Path.{◌≡◌, refl}
use mathlib.Core.Logic.{inl, inr}
use mathlib.Core.Bool.{Bool, true, false}
use mathlib.Core.Option.{Option, none, some}
use mathlib.Core.List.{List, [], ◌∷◌}
use text.Mathlib.Text.{◌==◌}
use text.Mathlib.TextEquality.{eq_iff}
use native.Mathlib.Omega.{arith}
use Prim.Native.Nat.{◌≤◌}
use anti_fraud_detector.Prelude.Tests.{if◌then◌else◌, Bool-cases, text_cases}
use anti_fraud_detector.Prelude.Lists.{All, any, length}

abbrev pub Entries {ℓ} : Type ℓ → Type ℓ
Entries Value = List (String × Value)

module _ {ℓ} {Value : Type ℓ} where
  unfoldable pub lookup : String → Entries Value → Option Value
  lookup key [] = none
  lookup key ((name, held) ∷ entries) =
      let later = lookup key entries in if name == key then some held else later

  -- An entry with the key is replaced where it stands; a new key goes to the end.
  unfoldable pub insert : String → Value → Entries Value → Entries Value
  insert key value [] = (key, value) ∷ []
  insert key value ((name, held) ∷ entries) =
      let later = insert key value entries in
      if name == key then (key, value) ∷ entries else (name, held) ∷ later

  pub lookup-insert :
      (written read : String) (value : Value) (entries : Entries Value)
      → lookup read (insert written value entries)
        ≡ (if written == read then some value else lookup read entries)
  unfolding insert lookup
  lookup-insert written read value [] = refl
  lookup-insert written read value ((name, held) ∷ entries) =
      let later = lookup-insert written read value entries in
      ground (arith, later, eq_iff name written, eq_iff name read, eq_iff written read)

  unfoldable pub remove : String → Entries Value → Entries Value
  remove key [] = []
  remove key ((name, held) ∷ entries) =
      let later = remove key entries in if name == key then later else (name, held) ∷ later

  pub lookup-remove :
      (removed read : String) (entries : Entries Value)
      → lookup read (remove removed entries)
        ≡ (if removed == read then none else lookup read entries)
  unfolding remove lookup
  lookup-remove removed read [] = ground arith
  lookup-remove removed read ((name, held) ∷ entries) =
      let later = lookup-remove removed read entries in
      ground (arith, later, eq_iff name removed, eq_iff name read, eq_iff removed read)

-- A set of texts, and the loop that keeps the first value of each key.
abbrev pub contains : String → List String → Bool
contains k ks = any (λ j. j == k) ks

module _ {ℓ} {A : Type ℓ} (key : A → String) where
  unfoldable pub dedupe : List String → List A → List A
  dedupe seen [] = []
  dedupe seen (x ∷ xs) =
      let skipped = dedupe seen xs in
      let kept = x ∷ dedupe (key x ∷ seen) xs in if contains (key x) seen then skipped else kept

  -- No two members have one key.
  abbrev pub IsDistinct : List A → Type 0
  IsDistinct [] = Unit
  IsDistinct (x ∷ xs) = All (λ y. (key y == key x) ≡ false) xs × IsDistinct xs

  dedupe-avoids :
      (k : String) (seen : List String) (xs : List A)
      → contains k seen ≡ true
      → All (λ y. (key y == k) ≡ false) (dedupe seen xs)
  unfolding dedupe
  dedupe-avoids k seen [] h = tt
  dedupe-avoids k seen (x ∷ xs) h = elim (Bool-cases (contains (key x) seen)) [
    | inl e ↦ rw e (dedupe-avoids k seen xs h)
    | inr e ↦ rw e (
      ground (arith, eq_iff (key x) k, e, h),
      dedupe-avoids k (key x ∷ seen) xs (ground (arith, h)),
    )
  ]

  pub dedupe-IsDistinct : (seen : List String) (xs : List A) → IsDistinct (dedupe seen xs)
  unfolding dedupe
  dedupe-IsDistinct seen [] = tt
  dedupe-IsDistinct seen (x ∷ xs) = elim (Bool-cases (contains (key x) seen)) [
    | inl e ↦ rw e (dedupe-IsDistinct seen xs)
    | inr e ↦ rw e (
      dedupe-avoids (key x) (key x ∷ seen) xs (ground (arith, eq_iff (key x) (key x))),
      dedupe-IsDistinct (key x ∷ seen) xs,
    )
  ]

  pub dedupe-All {κ} :
      (P : A → Type κ) (seen : List String) (xs : List A) → All P xs → All P (dedupe seen xs)
  unfolding dedupe
  dedupe-All P seen [] h = tt
  dedupe-All P seen (x ∷ xs) h = elim (Bool-cases (contains (key x) seen)) [
    | inl e ↦ rw e (dedupe-All P seen xs h.1)
    | inr e ↦ rw e (h.0, dedupe-All P (key x ∷ seen) xs h.1)
  ]

  pub length-dedupe-le : (seen : List String) (xs : List A) → length (dedupe seen xs) ≤ length xs
  unfolding dedupe
  length-dedupe-le seen [] = omega arith
  length-dedupe-le seen (x ∷ xs) =
      ground (arith, length-dedupe-le seen xs, length-dedupe-le (key x ∷ seen) xs)

  -- No key is lost.
  pub dedupe-any :
      (k : String) (seen : List String) (xs : List A)
      → contains k seen ≡ false
      → any (λ x. key x == k) (dedupe seen xs) ≡ any (λ x. key x == k) xs
  unfolding dedupe
  dedupe-any k seen [] h = refl
  dedupe-any k seen (x ∷ xs) h = elim (text_cases (key x) k) [
    | inl (same, e) ↦ ground (arith, same, e, h)
    | inr other ↦ ground (arith, other, h, dedupe-any k seen xs, dedupe-any k (key x ∷ seen) xs)
  ]
