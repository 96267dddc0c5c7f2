-- ===== src/Relations/Related.antt =====
-- relatedReturns and GetRelatedReturns of backend/relations-service/internal/service/service.go.
pub mod Laws
use anti_fraud_detector.Prelude.{
  ℕ, zero, suc, ◌<◌, String, Bool, true, false, ◌&&◌, ◌||◌, not, ◌≡◌, refl, sym, ap, subst, ◌∙◌,
  Option, none, some, List, [], ◌∷◌, ◌==◌, if◌then◌else◌, ltb, leb, eqb, length, take, map, count,
  All, arith, Bool-cases, inl, inr,
}
use anti_fraud_detector.Prelude.Text.{text_lt, text_lt_asymm, text_lt_negtrans}
use anti_fraud_detector.Prelude.Sorting.{
  sort_stable, IsWeakOrder, IsSorted, IsSorted-map, IsSorted-take, sort_stable-map,
  sort_stable-IsSorted, All-sort_stable, length-sort_stable,
}
use anti_fraud_detector.Prelude.Floats.{FloatOps, IsOrderedLits}
use anti_fraud_detector.Relations.Domain.{
  NormalizedReturnRecord, RelatedReturn, default_related_limit,
}
use anti_fraud_detector.Relations.Records.{Result, ok, err, return_not_found, ◌>>=◌, find_record}
use anti_fraud_detector.Relations.Store.{Service, require_dataset}

pub record RelatedResult (F : Type 0) : Type 0 where
  pub items : List (RelatedReturn F)
  pub truncated : Bool

pub record RelatedReturnsResponse (F : Type 0) : Type 0 where
  pub dataset_id : String
  pub return_id : String
  pub related_returns : List (RelatedReturn F)
  pub limit : ℕ
  pub truncated : Bool

module _ {F G : Type 0} (lit : ℕ → G) where
  abbrev related_as : NormalizedReturnRecord F → String → String → ℕ → Option (RelatedReturn G)
  related_as r relation_type reason strength = some (record {
    return_id = r.return_id;
    relation_type = relation_type;
    reason = reason;
    strength = lit strength;
    customer_id = r.customer_id;
    support_agent_id = r.support_agent_id;
  })

  -- The body of the loop; `none` is its `continue`.
  unfoldable pub relate :
      NormalizedReturnRecord F → NormalizedReturnRecord F → Option (RelatedReturn G)
  relate target r =
      let customer = r.customer_id == target.customer_id in
      let agent = r.support_agent_id == target.support_agent_id in
      let reason = r.return_reason == target.return_reason in
      let category = r.product_category == target.product_category in
      if r.return_id == target.return_id
      then none
      else if customer && agent
      then related_as r "CUSTOMER_AGENT_PAIR" "Same customer and support agent pair." 100
      else if customer
      then related_as r "SAME_CUSTOMER" "Same customer refund history." 80
      else if agent && (reason && category)
      then related_as r "SIMILAR_AGENT_REASON_CATEGORY"
          "Same agent, return reason, and product category." 75
      else if agent && reason
      then related_as r "SAME_AGENT_REASON" "Same support agent and return reason." 60
      else none

  unfoldable pub related_items :
      NormalizedReturnRecord F → List (NormalizedReturnRecord F) → List (RelatedReturn G)
  related_items target [] = []
  related_items target (r ∷ rs) =
      let rest = related_items target rs in
      elim (relate target r) [ none ↦ rest | some item ↦ item ∷ rest ]

module _ {F : Type 0} (ops : FloatOps F) where
  -- The order of the slice: the stronger first, and by return id among equals.
  abbrev pub stronger : RelatedReturn F → RelatedReturn F → Bool
  stronger a b =
      if ops.eq a.strength b.strength
      then text_lt a.return_id b.return_id
      else ops.lt b.strength a.strength

  unfoldable pub cut : ℕ → List (RelatedReturn F) → RelatedResult F
  cut limit items =
      if ltb 0 limit && ltb limit (length items)
      then record { items = take limit items; truncated = true }
      else record { items = items; truncated = false }

  unfoldable pub related_returns :
      NormalizedReturnRecord F → List (NormalizedReturnRecord F) → ℕ → RelatedResult F
  unfolding cut
  related_returns target records limit =
      cut limit (sort_stable stronger (related_items ops.lit target records))

  unfoldable pub get_related_returns :
      String → String → ℕ → Service F → Result (RelatedReturnsResponse F)
  get_related_returns dataset_id return_id limit s = do
    state ← require_dataset dataset_id s
    elim (find_record state.records return_id) [
      | none ↦ err return_not_found
      | some target ↦
          let limit' = if leb limit 0 then default_related_limit else limit in
          let related = related_returns target state.records limit' in
          ok (record {
            dataset_id = dataset_id;
            return_id = return_id;
            related_returns = related.items;
            limit = limit';
            truncated = related.truncated;
          })
    ]
