-- ===== src/Relations/Features.antt =====
-- calculateFeatures, buildFeatureCache, explanationSummary and explanationSignals of
-- backend/relations-service/internal/service/service.go.
pub mod Laws
use anti_fraud_detector.Prelude.{
  ℕ, ◌*◌, String, Bool, true, false, ◌&&◌, List, [], ◌∷◌, ◌++◌, ◌==◌, if◌then◌else◌, ltb, leb,
  length, ◌<>◌,
}
use anti_fraud_detector.Prelude.Dict.{insert}
use anti_fraud_detector.Prelude.Text.{join}
use anti_fraud_detector.Prelude.Floats.{FloatOps, itoa}
use anti_fraud_detector.Relations.Domain.{
  NormalizedReturnRecord, RelationFeatures, ReturnFeaturesResponse, default_related_limit,
}
use anti_fraud_detector.Relations.Numbers.{
  ratio, ratio_float, max_int, strongest_relation_type, unique_strings, limit_strings,
}
use anti_fraud_detector.Relations.Counters.{Counters, no_counts, count_records}

unfoldable pub explanation_summary : String → String
explanation_summary strongest =
    if strongest == "CUSTOMER_RETURN_PATTERN"
    then "Customer refund history is the strongest relation signal."
    else if strongest == "AGENT_DECISION_PATTERN"
    then "Support agent decision history is the strongest relation signal."
    else if strongest == "CUSTOMER_AGENT_PAIR"
    then "Repeated customer-agent interaction is the strongest relation signal."
    else if strongest == "SAME_REASON_PATTERN"
    then "Shared return reason is the strongest relation signal."
    else "Relation features provide additional investigation context."

-- `if test { signals = append(signals, text) }`.
abbrev pub signal_if : Bool → String → List String
signal_if test text = if test then text ∷ [] else []

or_default : List String → List String
or_default [] = "No strong relation signal crossed the current thresholds." ∷ []
or_default (s ∷ signals) = s ∷ signals

module _ {F : Type 0} (ops : FloatOps F) where
  unfoldable pub explanation_signals : ℕ → ℕ → ℕ → ℕ → ℕ → ℕ → F → List String → List String
  unfolding or_default
  explanation_signals customer_returns agent_approved agent_decisions pairs same_reason cluster_size
        refund_ratio top_related =
      let approval = ratio ops agent_approved agent_decisions in
      or_default (
        signal_if (leb 5 customer_returns)
          ("Customer has " <> itoa customer_returns <> " refund requests.")
        ++ (signal_if (ltb 0 agent_decisions && ops.le (ops.lit 90) approval) (
              "Support agent approval rate is "
              <> ops.format_whole (ops.mul approval (ops.lit 10000))
              <> "%.")
            ++ (signal_if (leb 3 pairs)
                  ("Customer and support agent interacted on " <> itoa pairs <> " return requests.")
                ++ (signal_if (leb 5 same_reason) (
                      itoa same_reason
                      <> " returns handled by the same agent share this return reason.")
                    ++ (signal_if (ops.le (ops.lit 80) refund_ratio) (
                          "Refund amount is "
                          <> ops.format_whole (ops.mul refund_ratio (ops.lit 10000))
                          <> "% of the original order amount.")
                        ++ (signal_if (leb 5 cluster_size)
                              ("Relation cluster fallback size is " <> itoa cluster_size <> ".")
                            ++ signal_if (ltb 0 (length top_related)) (
                                "Related returns for investigation: "
                                <> join top_related ", "
                                <> ".")))))))

  -- The response that is built from the counters of the loop.
  features_of : NormalizedReturnRecord F → ℕ → Counters → RelationFeatures F
  features_of target total c =
      let top_related = limit_strings (unique_strings c.top_related) default_related_limit in
      let cluster_size =
        max_int (c.customer_returns ∷ c.agent_decisions ∷ c.pairs ∷ c.same_reason ∷ []) in
      let strongest =
        strongest_relation_type c.customer_returns c.agent_decisions c.pairs c.same_reason in
      let refund_ratio = ratio_float ops target.refund_amount target.order_amount in
      record {
        customer_return_count = c.customer_returns;
        customer_approved_refund_count = c.customer_approved;
        agent_decision_count = c.agent_decisions;
        agent_approval_rate = ratio ops c.agent_approved c.agent_decisions;
        agent_manual_override_rate = ratio ops c.agent_overrides c.agent_decisions;
        agent_high_value_approval_count = c.agent_high_value;
        customer_agent_pair_count = c.pairs;
        agent_customer_interaction_count = c.pairs;
        category_refund_rate = ratio ops c.category_returns total;
        refund_amount_ratio = refund_ratio;
        similar_returns_count = c.similar;
        same_reason_refund_count = c.same_reason;
        cluster_size = cluster_size;
        strongest_relation_type = strongest;
        top_related_returns = top_related;
        explanation_summary = explanation_summary strongest;
        explanation_signals =
            explanation_signals c.customer_returns c.agent_approved c.agent_decisions c.pairs
              c.same_reason cluster_size refund_ratio top_related;
      }

  unfoldable pub calculate_features :
      NormalizedReturnRecord F → List (NormalizedReturnRecord F) → RelationFeatures F
  unfolding features_of
  calculate_features target records =
      features_of target (length records) (count_records ops target records no_counts)

  abbrev pub features_response :
      String
      → ℕ
      → String
      → List (NormalizedReturnRecord F)
      → NormalizedReturnRecord F
      → ReturnFeaturesResponse F
  features_response dataset_id version calculated_at all r = record {
    return_id = r.return_id;
    dataset_id = dataset_id;
    customer_id = r.customer_id;
    support_agent_id = r.support_agent_id;
    feature_version = version;
    calculated_at = calculated_at;
    features = calculate_features r all;
  }

  unfoldable pub cache_records :
      String
      → ℕ
      → String
      → List (NormalizedReturnRecord F)
      → List (NormalizedReturnRecord F)
      → List (String × ReturnFeaturesResponse F)
      → List (String × ReturnFeaturesResponse F)
  cache_records dataset_id version calculated_at all [] features = features
  cache_records dataset_id version calculated_at all (r ∷ rs) features =
      cache_records dataset_id version calculated_at all rs
        (insert r.return_id (features_response dataset_id version calculated_at all r) features)

  unfoldable pub build_feature_cache :
      String
      → ℕ
      → String
      → List (NormalizedReturnRecord F)
      → List (String × ReturnFeaturesResponse F)
  unfolding cache_records
  build_feature_cache dataset_id version calculated_at records =
      cache_records dataset_id version calculated_at records records []
