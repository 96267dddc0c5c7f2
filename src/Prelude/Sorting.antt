-- ===== src/Prelude/Sorting.antt =====
-- sort.SliceStable, sort.Slice and sort.Strings as a stable insertion sort: for a strict weak order
-- the stable result is unique, so the algorithm does not matter.
use Prim.Native.Nat.{ℕ, zero, suc}
use mathlib.Core.Path.{◌≡◌, refl, ap, ap₂, ◌∙◌}
use mathlib.Core.Logic.{inl, inr}
use mathlib.Core.Bool.{Bool, true, false}
use mathlib.Core.List.{List, [], ◌∷◌, map, Permᴰ}
use native.Mathlib.Omega.{arith}
use anti_fraud_detector.Prelude.Tests.{if◌then◌else◌, Bool-cases}
use anti_fraud_detector.Prelude.Lists.{length, take, count, any, All, All-map-of, All-take}
use anti_fraud_detector.Prelude.Text.{text_lt, text_lt_asymm, text_lt_negtrans}

-- The laws of a `less` that sorting needs.
pub record IsWeakOrder {ℓ} {A : Type ℓ} (less : A → A → Bool) : Type ℓ where
  pub asymm : (a b : A) → less a b ≡ true → less b a ≡ false
  pub negtrans : (a b c : A) → less b a ≡ false → less c b ≡ false → less c a ≡ false

pub text_lt-IsWeakOrder : IsWeakOrder text_lt
text_lt-IsWeakOrder = record { asymm = text_lt_asymm; negtrans = text_lt_negtrans }

module _ {ℓ} {A : Type ℓ} (less : A → A → Bool) where
  unfoldable pub insert : A → List A → List A
  insert x [] = x ∷ []
  insert x (y ∷ ys) = let rest = insert x ys in if less y x then y ∷ rest else x ∷ y ∷ ys

  unfoldable pub sort_stable : List A → List A
  unfolding insert
  sort_stable [] = []
  sort_stable (x ∷ xs) = insert x (sort_stable xs)

  -- No member is less than one before it.
  abbrev pub IsSorted : List A → Type ℓ
  IsSorted [] = Unit
  IsSorted (x ∷ xs) = All (λ y. less y x ≡ false) xs × IsSorted xs

  All-insert {κ} : (P : A → Type κ) (x : A) (l : List A) → P x → All P l → All P (insert x l)
  unfolding insert
  All-insert P x [] p h = (p, tt)
  All-insert P x (y ∷ ys) p h = elim (Bool-cases (less y x)) [
    | inl e ↦ rw e (h.0, All-insert P x ys p h.1)
    | inr e ↦ rw e (p, h)
  ]

  pub All-sort_stable {κ} : (P : A → Type κ) (l : List A) → All P l → All P (sort_stable l)
  unfolding sort_stable
  All-sort_stable P [] h = tt
  All-sort_stable P (x ∷ xs) h = All-insert P x (sort_stable xs) h.0 (All-sort_stable P xs h.1)

  count-insert : (p : A → Bool) (x : A) (l : List A) → count p (insert x l) ≡ count p (x ∷ l)
  unfolding insert
  count-insert p x [] = refl
  count-insert p x (y ∷ ys) = ground (arith, count-insert p x ys)

  -- Sorting keeps how many members pass any test.
  pub count-sort_stable : (p : A → Bool) (l : List A) → count p (sort_stable l) ≡ count p l
  unfolding sort_stable
  count-sort_stable p [] = refl
  count-sort_stable p (x ∷ xs) =
      ground (arith, count-insert p x (sort_stable xs), count-sort_stable p xs)

  length-insert : (x : A) (l : List A) → length (insert x l) ≡ suc (length l)
  unfolding insert
  length-insert x [] = refl
  length-insert x (y ∷ ys) = ground (arith, length-insert x ys)

  pub length-sort_stable : (l : List A) → length (sort_stable l) ≡ length l
  unfolding sort_stable
  length-sort_stable [] = refl
  length-sort_stable (x ∷ xs) =
      omega (arith, length-insert x (sort_stable xs), length-sort_stable xs)

  any-insert : (p : A → Bool) (x : A) (l : List A) → any p (insert x l) ≡ any p (x ∷ l)
  unfolding insert
  any-insert p x [] = refl
  any-insert p x (y ∷ ys) = ground (arith, any-insert p x ys)

  -- Sorting keeps whether some member passes a test.
  pub any-sort_stable : (p : A → Bool) (l : List A) → any p (sort_stable l) ≡ any p l
  unfolding sort_stable
  any-sort_stable p [] = refl
  any-sort_stable p (x ∷ xs) = ground (arith, any-insert p x (sort_stable xs), any-sort_stable p xs)

  module _ (order : IsWeakOrder less) where
    insert-IsSorted : (x : A) (l : List A) → IsSorted l → IsSorted (insert x l)
    unfolding insert
    insert-IsSorted x [] h = (tt, tt)
    insert-IsSorted x (y ∷ ys) h = elim (Bool-cases (less y x)) [
      | inl e ↦ rw e (
        All-insert (λ z. less z y ≡ false) x ys (order.asymm y x e) h.0,
        insert-IsSorted x ys h.1,
      )
      | inr e ↦ rw e ((e, All-map-of ys (λ z k. order.negtrans x y z e k) h.0), h)
    ]

    pub sort_stable-IsSorted : (l : List A) → IsSorted (sort_stable l)
    unfolding sort_stable
    sort_stable-IsSorted [] = tt
    sort_stable-IsSorted (x ∷ xs) = insert-IsSorted x (sort_stable xs) (sort_stable-IsSorted xs)

    -- Where `less` tells any two members apart, the order of the input does not matter.
    module _ (total : (a b : A) → less a b ≡ false → less b a ≡ false → a ≡ b) where
      insert_comm : (x y : A) (l : List A) → insert x (insert y l) ≡ insert y (insert x l)
      unfolding insert
      insert_comm x y [] = ground (arith, order.asymm x y, order.asymm y x, total x y)
      insert_comm x y (z ∷ l) = ground (
        arith,
        insert_comm x y l,
        order.asymm x y,
        order.asymm y x,
        total x y,
        order.negtrans x y z,
        order.negtrans y x z,
        order.negtrans x z y,
        order.negtrans y z x,
      )

      pub sort_stable-perm : {k l : List A} → Permᴰ k l → sort_stable k ≡ sort_stable l
      unfolding sort_stable
      sort_stable-perm Permᴰ.nil = refl
      sort_stable-perm (Permᴰ.cons e p) = ap₂ insert e (sort_stable-perm p)
      sort_stable-perm (Permᴰ.swap {a = a} {b = b} {l = l} e f) =
          insert_comm a b (sort_stable l) ∙ ap₂ insert f (ap₂ insert e refl)
      sort_stable-perm (Permᴰ.trans p q) = sort_stable-perm p ∙ sort_stable-perm q

module _ {ℓ κ μ} {A : Type ℓ} {B : Type κ} (f : A → B) (less : A → A → Bool) (less' : B → B → Bool)
    (P : A → Type μ) (agree : (a b : A) → P a → P b → less' (f a) (f b) ≡ less a b) where
  insert-map :
      (x : A) (l : List A) → P x → All P l → insert less' (f x) (map f l) ≡ map f (insert less x l)
  unfolding insert
  insert-map x [] p h = refl
  insert-map x (y ∷ ys) p h = ground (arith, agree y x h.0 p, insert-map x ys p h.1)

  -- Sorting the images by an order that agrees with the one of the members.
  pub sort_stable-map :
      (l : List A) → All P l → sort_stable less' (map f l) ≡ map f (sort_stable less l)
  unfolding sort_stable
  sort_stable-map [] h = refl
  sort_stable-map (x ∷ xs) h =
      ap (λ l. insert less' (f x) l) (sort_stable-map xs h.1)
      ∙ insert-map x (sort_stable less xs) h.0 (All-sort_stable less P xs h.1)

  All-less-map :
      (x : A) (l : List A)
      → P x
      → All P l
      → All (λ y. less y x ≡ false) l
      → All (λ y. less' y (f x) ≡ false) (map f l)
  All-less-map x [] p h s = tt
  All-less-map x (y ∷ ys) p h s = (agree y x h.0 p ∙ s.0, All-less-map x ys p h.1 s.1)

  pub IsSorted-map : (l : List A) → All P l → IsSorted less l → IsSorted less' (map f l)
  IsSorted-map [] h s = tt
  IsSorted-map (x ∷ xs) h s = (All-less-map x xs h.0 h.1 s.0, IsSorted-map xs h.1 s.1)

pub IsSorted-take {ℓ} :
    {A : Type ℓ} (less : A → A → Bool) (n : ℕ) (l : List A)
    → IsSorted less l
    → IsSorted less (take n l)
IsSorted-take less zero l s = tt
IsSorted-take less (suc n) [] s = tt
IsSorted-take less (suc n) (x ∷ xs) s =
    (All-take (λ y. less y x ≡ false) n xs s.0, IsSorted-take less n xs s.1)
