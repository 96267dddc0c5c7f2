-- ===== src/Relations/Features/Laws.antt =====
-- What the features of a return say.
use anti_fraud_detector.Prelude.{
  ◌≤◌, ◌==◌, ◌&&◌, not, refl, ◌≡◌, ◌∙◌, List, [], length, count, count_mono, All, arith,
}
use anti_fraud_detector.Prelude.Floats.{FloatOps}
use anti_fraud_detector.Prelude.Dict.{dedupe-All}
use anti_fraud_detector.Prelude.Sorting.{All-sort_stable}
use anti_fraud_detector.Prelude.Text.{text_lt}
use anti_fraud_detector.Relations.Domain.{
  NormalizedReturnRecord, RelationFeatures, approved_decision,
}
use anti_fraud_detector.Relations.Numbers.{
  unique_strings, length-limit_strings-le, limit_strings-All, strongest_relation_type-max,
  max_int_bounds, count_of,
}
use anti_fraud_detector.Relations.Counters.{
  no_counts, count_records, is_approved, same_customer, same_agent, same_pair,
  same_reason_and_agent, is_similar,
}
use anti_fraud_detector.Relations.Counters.Laws.{
  count_records-IsTally, IsRelatedId, count_records-related,
}
use anti_fraud_detector.Relations.Features.{calculate_features}

module _ {F : Type 0} (ops : FloatOps F) (t : NormalizedReturnRecord F)
    (rs : List (NormalizedReturnRecord F)) where
  -- The counts of the response as numbers of records.
  pub record IsCounted (f : RelationFeatures F) : Type 0 where
    pub returns : f.customer_return_count ≡ count (λ r. r.customer_id == t.customer_id) rs
    pub approved :
        f.customer_approved_refund_count
        ≡ count (λ r. r.customer_id == t.customer_id && r.decision_status == approved_decision) rs
    pub decisions :
        f.agent_decision_count ≡ count (λ r. r.support_agent_id == t.support_agent_id) rs
    pub high_values :
        f.agent_high_value_approval_count
        ≡ count
            (λ r.
              r.support_agent_id == t.support_agent_id
              && (r.decision_status == approved_decision && ops.le (ops.lit 30000) r.refund_amount))
            rs
    pub pairs :
        f.customer_agent_pair_count
        ≡ count (λ r. r.customer_id == t.customer_id && r.support_agent_id == t.support_agent_id) rs
    pub interactions : f.agent_customer_interaction_count ≡ f.customer_agent_pair_count
    pub reasons :
        f.same_reason_refund_count
        ≡ count
            (λ r. r.return_reason == t.return_reason && r.support_agent_id == t.support_agent_id)
            rs
    pub similar :
        f.similar_returns_count
        ≡ count
            (λ r.
              not (r.return_id == t.return_id)
              && (r.return_reason == t.return_reason
                  && (r.product_category == t.product_category
                      && r.support_agent_id == t.support_agent_id)))
            rs

  -- The eight counts of the features are numbers of records: of the customer, approved ones of the
  -- customer, of the agent, approved ones of the agent with an amount of 300 or more, of both (the pair
  -- count and the interaction count), of the agent and the reason, and other ones of the agent, the
  -- reason and the category.
  pub calculate_features-IsCounted : IsCounted (calculate_features ops t rs)
  unfolding calculate_features no_counts
  calculate_features-IsCounted =
      let tally = count_records-IsTally ops t rs no_counts in
      record {
        returns = tally.customer_returns ∙ omega arith;
        approved = tally.customer_approved ∙ omega arith;
        interactions = refl;
        high_values = tally.agent_high_value ∙ omega arith;
        decisions = tally.agent_decisions ∙ omega arith;
        pairs = tally.pairs ∙ omega arith;
        reasons = tally.same_reason ∙ omega arith;
        similar = tally.similar ∙ omega arith;
      }

  -- The approved refunds and the pairs with the agent are among the returns of the customer, and the
  -- pairs and the returns with the reason among the decisions of the agent.
  pub features_bounds :
      let f = calculate_features ops t rs in
      (f.customer_approved_refund_count ≤ f.customer_return_count)
      × (f.customer_agent_pair_count ≤ f.customer_return_count)
      × (f.customer_agent_pair_count ≤ f.agent_decision_count)
      × (f.same_reason_refund_count ≤ f.agent_decision_count)
      × (f.similar_returns_count ≤ f.same_reason_refund_count)
  features_bounds =
      let c = calculate_features-IsCounted in
      let approved =
        count_mono (λ r. same_customer ops t r && is_approved ops r) (same_customer ops t) rs
          (λ x h. ground (arith, h)) in
      let pairs =
        count_mono (same_pair ops t) (same_customer ops t) rs (λ x h. ground (arith, h)) in
      let by_agent =
        count_mono (same_pair ops t) (same_agent ops t) rs (λ x h. ground (arith, h)) in
      let reasons =
        count_mono (same_reason_and_agent ops t) (same_agent ops t) rs (λ x h. ground (arith, h)) in
      let similar =
        count_mono (is_similar ops t) (same_reason_and_agent ops t) rs (λ x h. ground (arith, h)) in
      (
        omega (arith, c, approved),
        omega (arith, c, pairs),
        omega (arith, c, by_agent),
        omega (arith, c, reasons),
        omega (arith, c, similar),
      )

  -- The cluster size is the count that the strongest relation stands for, and no less than the other
  -- three counts.
  pub features_cluster :
      let f = calculate_features ops t rs in
      let of_type =
        count_of f.customer_return_count f.agent_decision_count f.customer_agent_pair_count
          f.same_reason_refund_count in
      (of_type f.strongest_relation_type ≡ f.cluster_size)
      × (f.customer_return_count ≤ f.cluster_size)
      × (f.agent_decision_count ≤ f.cluster_size)
      × (f.customer_agent_pair_count ≤ f.cluster_size)
      × (f.same_reason_refund_count ≤ f.cluster_size)
  unfolding calculate_features
  features_cluster =
      let c = count_records ops t rs no_counts in
      let (a, b, d, e) =
        max_int_bounds c.customer_returns c.agent_decisions c.pairs c.same_reason in
      (
        strongest_relation_type-max c.customer_returns c.agent_decisions c.pairs c.same_reason,
        a,
        b,
        d,
        e,
      )

  -- At most eight related returns are named, and each is the id of another record with the same
  -- customer and agent, or with the same reason, category and agent.
  pub features_related :
      let ids = (calculate_features ops t rs).top_related_returns in
      (length ids ≤ 8) × All (IsRelatedId ops t rs) ids
  unfolding calculate_features unique_strings
  features_related =
      let found = (count_records ops t rs no_counts).top_related in
      (
        length-limit_strings-le (unique_strings found) 8 (omega arith),
        limit_strings-All (IsRelatedId ops t rs) (unique_strings found) 8 (
            All-sort_stable text_lt (IsRelatedId ops t rs) _ (
              dedupe-All (λ s. s) (IsRelatedId ops t rs) [] found
                (count_records-related ops t rs))),
      )
