-- ===== src/Relations/Related/Laws.antt =====
-- How many related returns there are, and in which order: service.go of
-- backend/relations-service/internal/service.
use anti_fraud_detector.Prelude.{
  ℕ, zero, suc, ◌<◌, Bool, ◌&&◌, ◌||◌, not, ◌≡◌, refl, sym, ap, subst, ◌∙◌, List, [], ◌∷◌, ◌==◌,
  if◌then◌else◌, ltb, eqb, length, take, map, count, All, arith, Bool-cases, inl, inr,
}
use anti_fraud_detector.Prelude.Text.{text_lt, text_lt_asymm, text_lt_negtrans}
use anti_fraud_detector.Prelude.Sorting.{
  sort_stable, IsWeakOrder, IsSorted, IsSorted-map, IsSorted-take, sort_stable-map,
  sort_stable-IsSorted, All-sort_stable, length-sort_stable,
}
use anti_fraud_detector.Prelude.Floats.{FloatOps, IsOrderedLits}
use anti_fraud_detector.Relations.Domain.{NormalizedReturnRecord, RelatedReturn}
use anti_fraud_detector.Relations.Related.{relate, related_items, stronger, cut, related_returns}

-- A record is listed for another return that has its customer, or its agent and its reason.
module _ {F : Type 0} where
  abbrev pub is_related : NormalizedReturnRecord F → NormalizedReturnRecord F → Bool
  is_related target r =
      not (r.return_id == target.return_id)
      && ((r.customer_id == target.customer_id)
          || ((r.support_agent_id == target.support_agent_id)
              && (r.return_reason == target.return_reason)))

  length-related_items :
      {G : Type 0} (lit : ℕ → G) (target : NormalizedReturnRecord F)
      (rs : List (NormalizedReturnRecord F))
      → length (related_items lit target rs) ≡ count (is_related target) rs
  unfolding related_items relate
  length-related_items lit target [] = refl
  length-related_items lit target (r ∷ rs) = ground (arith, length-related_items lit target rs)

module _ {F : Type 0} (ops : FloatOps F) where
  -- Nothing is dropped below the limit: there are as many related returns as records with the
  -- customer, or the agent and reason, of the target, up to a positive limit, and the answer is
  -- marked truncated exactly when there are more.
  pub length-related_returns :
      (target : NormalizedReturnRecord F) (rs : List (NormalizedReturnRecord F)) (limit : ℕ)
      → 0 < limit
      → let result = related_returns ops target rs limit in
        let n = count (is_related target) rs in
        (length result.items ≡ (if ltb limit n then limit else n))
        × (result.truncated ≡ ltb limit n)
  unfolding related_returns cut
  length-related_returns target rs limit h =
      let all = sort_stable (stronger ops) (related_items ops.lit target rs) in
      ground (
        arith,
        length-sort_stable (stronger ops) (related_items ops.lit target rs),
        length-related_items ops.lit target rs,
        length-take limit all,
      )
    where
      length-take :
          (n : ℕ) (l : List (RelatedReturn F))
          → length (take n l) ≡ (if ltb n (length l) then n else length l)
      length-take zero l = ground arith
      length-take (suc n) [] = ground arith
      length-take (suc n) (x ∷ l) = ground (arith, length-take n l)

-- The related returns with their strengths in hundredths, and their order.
abbrev before : RelatedReturn ℕ → RelatedReturn ℕ → Bool
before a b =
    if eqb a.strength b.strength then text_lt a.return_id b.return_id else ltb b.strength a.strength

before-IsWeakOrder : IsWeakOrder before
before-IsWeakOrder = record {
  asymm = λ a b h. ground (arith, text_lt_asymm a.return_id b.return_id);
  negtrans = λ a b c h k. ground (arith, text_lt_negtrans a.return_id b.return_id c.return_id);
}

module _ {F : Type 0} (ops : FloatOps F) (target : NormalizedReturnRecord F) where
  abbrev with_lit : RelatedReturn ℕ → RelatedReturn F
  with_lit i = record {
    return_id = i.return_id;
    relation_type = i.relation_type;
    reason = i.reason;
    strength = ops.lit i.strength;
    customer_id = i.customer_id;
    support_agent_id = i.support_agent_id;
  }

  abbrev IsSmall : RelatedReturn ℕ → Type 0
  IsSmall i = i.strength < 2000

  abbrev ranked : List (NormalizedReturnRecord F) → List (RelatedReturn ℕ)
  ranked rs = related_items (λ n. n) target rs

  related_items-ranked :
      (rs : List (NormalizedReturnRecord F))
      → (related_items ops.lit target rs ≡ map with_lit (ranked rs)) × All IsSmall (ranked rs)
  unfolding related_items relate
  related_items-ranked [] = (refl, tt)
  related_items-ranked (r ∷ rs) = ground (arith, related_items-ranked rs)

module _ {F : Type 0} (ops : FloatOps F) (order : IsOrderedLits ops)
    (target : NormalizedReturnRecord F) (rs : List (NormalizedReturnRecord F)) where
  before-with_lit :
      (a b : RelatedReturn ℕ)
      → IsSmall ops target a
      → IsSmall ops target b
      → stronger ops (with_lit ops target a) (with_lit ops target b) ≡ before a b
  before-with_lit a b h k =
      ground (arith, order.lit_eq a.strength b.strength h k, order.lit_lt b.strength a.strength k h)

  all-IsSorted :
      IsSorted (stronger ops) (sort_stable (stronger ops) (related_items ops.lit target rs))
  all-IsSorted =
      let (same, small) = related_items-ranked ops target rs in
      let f = with_lit ops target in
      subst (λ l. IsSorted (stronger ops) l)
        (sym (
          ap (sort_stable (stronger ops)) same
          ∙ sort_stable-map f before (stronger ops) (IsSmall ops target) before-with_lit
              (ranked ops target rs) small))
        (IsSorted-map f before (stronger ops) (IsSmall ops target) before-with_lit _
          (All-sort_stable before (IsSmall ops target) (ranked ops target rs) small)
          (sort_stable-IsSorted before before-IsWeakOrder (ranked ops target rs)))

  -- Whatever the limit, no related return comes after a weaker one, and of two equally strong ones
  -- none comes after one with a greater return id, where the literal strengths are ordered as the
  -- decimals are.
  pub related_returns-IsSorted :
      (limit : ℕ)
      → IsSorted
          (λ a b.
            if ops.eq a.strength b.strength
            then text_lt a.return_id b.return_id
            else ops.lt b.strength a.strength)
          (related_returns ops target rs limit).items
  unfolding related_returns cut
  related_returns-IsSorted limit =
      let all = sort_stable (stronger ops) (related_items ops.lit target rs) in
      elim (Bool-cases (ltb 0 limit && ltb limit (length all))) [
        | inl e ↦ rw e (IsSorted-take (stronger ops) limit all all-IsSorted)
        | inr e ↦ rw e all-IsSorted
      ]
