-- ===== src/Prelude/Tests.antt =====
-- Boolean tests on the native numbers, the conditional, and case splits that keep the equation.
use Prim.Native.Nat.{ℕ, compare, Ordering}
use Prim.Native.String.{String}
use mathlib.Core.Path.{◌≡◌, refl}
use mathlib.Core.Logic.{◌≢◌, ◌⊎◌, inl, inr}
use mathlib.Core.Bool.{Bool, true, false}
use mathlib.Core.Option.{Option, none, some}
use text.Mathlib.Text.{◌==◌}
use text.Mathlib.TextEquality.{eq_iff}
use native.Mathlib.Omega.{arith}

abbrev pub ltb : ℕ → ℕ → Bool
ltb a b = elim (compare a b) [ Ordering.lt ↦ true | _ ↦ false ]

abbrev pub leb : ℕ → ℕ → Bool
leb a b = elim (compare a b) [ Ordering.gt ↦ false | _ ↦ true ]

-- Equality of numbers; `◌==◌` is that of texts.
abbrev pub eqb : ℕ → ℕ → Bool
eqb a b = elim (compare a b) [ Ordering.eq ↦ true | _ ↦ false ]

infix 1 if◌then◌else◌
abbrev pub if◌then◌else◌ {ℓ} : {A : Type ℓ} → Bool → A → A → A
if true then x else y = x
if false then x else y = y

pub eqb→eq : (a b : ℕ) → eqb a b ≡ true → a ≡ b
eqb→eq a b h = ground arith

pub eqb→ne : (a b : ℕ) → eqb a b ≡ false → a ≢ b
eqb→ne a b h e = ground arith

pub eqb_refl : (a : ℕ) → eqb a a ≡ true
eqb_refl a = ground arith

pub Bool-cases : (b : Bool) → (b ≡ true) ⊎ (b ≡ false)
Bool-cases true = inl refl
Bool-cases false = inr refl

pub Option-cases {ℓ} : {A : Type ℓ} (o : Option A) → (o ≡ none) ⊎ ((a : A) × (o ≡ some a))
Option-cases none = inl refl
Option-cases (some a) = inr (a, refl)

-- A text is another one or it is not, and the test says which.
pub text_cases : (s t : String) → ((s ≡ t) × ((s == t) ≡ true)) ⊎ ((s == t) ≡ false)
text_cases s t = elim (Bool-cases (s == t)) [ inl e ↦ inl ((eq_iff s t).0 e, e) | inr e ↦ inr e ]

pub true≢false : true ≡ false → ⊥
true≢false h = cc

-- What holds of both branches holds of the conditional.
pub if_ensures {κ ℓ} :
    {Value : Type κ} (Holds : Value → Type ℓ) (test : Bool) {yes no : Value}
    → Holds yes
    → Holds no
    → Holds (if test then yes else no)
if_ensures Holds false of_yes of_no = of_no
if_ensures Holds true of_yes of_no = of_yes

-- What holds of every case of a split on an optional value holds of the split.
pub option_ensures {ℓ κ μ} :
    {A : Type ℓ} {Value : Type κ} (Holds : Value → Type μ) (o : Option A) {nothing : Value}
    {found : A → Value}
    → Holds nothing
    → ((a : A) → Holds (found a))
    → Holds (elim o [ none ↦ nothing | some a ↦ found a ])
option_ensures Holds none of_nothing of_found = of_nothing
option_ensures Holds (some a) of_nothing of_found = of_found a

-- The same where each case has its equation.
pub option_decides {ℓ κ μ} :
    {A : Type ℓ} {Value : Type κ} (Holds : Value → Type μ) (o : Option A) {nothing : Value}
    {found : A → Value}
    → (o ≡ none → Holds nothing)
    → ((a : A) → o ≡ some a → Holds (found a))
    → Holds (elim o [ none ↦ nothing | some a ↦ found a ])
option_decides Holds none of_nothing of_found = of_nothing refl
option_decides Holds (some a) of_nothing of_found = of_found a refl
