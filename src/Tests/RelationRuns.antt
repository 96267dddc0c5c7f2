-- ===== src/Tests/RelationRuns.antt =====
-- Runs of backend/relations-service on a dataset of four returns.
use anti_fraud_detector.Prelude.{
  ◌&&◌, if◌then◌else◌, ℕ, ◌≤◌, String, false, ◌≡◌, ◌⊎◌, refl, [], ◌∷◌, ◌==◌, if◌then◌else◌, arith,
  length, count, All, ltb,
}
use mathlib.Core.List.{Permᴰ}
use anti_fraud_detector.Prelude.Dict.{lookup, dedupe, IsDistinct}
use anti_fraud_detector.Prelude.Text.{text_lt}
use anti_fraud_detector.Relations.Domain.{approved_decision}
use anti_fraud_detector.Prelude.Sorting.{IsSorted, sort_stable}
use anti_fraud_detector.Relations.Domain.{RelationFeatures}
use anti_fraud_detector.Relations.Numbers.{count_of}
use anti_fraud_detector.Relations.Counters.Laws.{IsRelatedId}
use anti_fraud_detector.Relations.Features.{calculate_features}
use anti_fraud_detector.Relations.Features.Laws.{
  IsCounted, calculate_features-IsCounted, features_bounds, features_cluster, features_related,
}
use anti_fraud_detector.Relations.Records.{ok, validate_records}
use anti_fraud_detector.Relations.Store.{DatasetState, new_state, replace_dataset}
use anti_fraud_detector.Relations.Store.Laws.{
  id_of, validate_records-IsDistinct, lookup-replace_dataset,
}
use anti_fraud_detector.Relations.Related.{RelatedResult, related_returns, related_items, relate}
use anti_fraud_detector.Relations.Related.Laws.{
  is_related, length-related_returns, related_returns-IsSorted,
}
use anti_fraud_detector.Relations.Graph.{
  GraphProjectionResponse, project, dedupe_nodes, base_nodes, item_node,
}
use anti_fraud_detector.Relations.Graph.Laws.{IsJoined, project-IsJoined, project-nodes}
use anti_fraud_detector.Relations.Summaries.{Tally, build_customer_history}
use anti_fraud_detector.Relations.Summaries.Laws.{
  build_customer_history-visit, build_customer_history-counts,
}
use anti_fraud_detector.Tests.Samples.{
  hundredths, hundredths-IsOrderedLits, ascii, r1, demo_records, noon, no_datasets,
}

abbrev state : DatasetState ℕ
state = new_state hundredths "demo" "test" "v1" noon demo_records

valid : validate_records "demo" demo_records ≡ ok tt
unfolding validate_records
valid = refl

abbrev other : String
other = "other"

lookup-replace_dataset_example :
    (lookup other
        (replace_dataset hundredths "demo" "test" "v1" noon demo_records no_datasets).1.datasets
      ≡ lookup other no_datasets.datasets)
    ⊎ (other ≡ "demo")
lookup-replace_dataset_example =
    lookup-replace_dataset hundredths "demo" "test" "v1" noon demo_records no_datasets other

validate_records-IsDistinct_example : IsDistinct id_of demo_records
validate_records-IsDistinct_example = validate_records-IsDistinct "demo" demo_records valid

abbrev features : RelationFeatures ℕ
features = calculate_features hundredths r1 demo_records

calculate_features-IsCounted_example : IsCounted hundredths r1 demo_records features
calculate_features-IsCounted_example = calculate_features-IsCounted hundredths r1 demo_records

features_bounds_example :
    (features.customer_approved_refund_count ≤ features.customer_return_count)
    × (features.customer_agent_pair_count ≤ features.customer_return_count)
    × (features.customer_agent_pair_count ≤ features.agent_decision_count)
    × (features.same_reason_refund_count ≤ features.agent_decision_count)
    × (features.similar_returns_count ≤ features.same_reason_refund_count)
features_bounds_example = features_bounds hundredths r1 demo_records

features_cluster_example :
    (count_of features.customer_return_count features.agent_decision_count
        features.customer_agent_pair_count features.same_reason_refund_count
        features.strongest_relation_type
      ≡ features.cluster_size)
    × (features.customer_return_count ≤ features.cluster_size)
    × (features.agent_decision_count ≤ features.cluster_size)
    × (features.customer_agent_pair_count ≤ features.cluster_size)
    × (features.same_reason_refund_count ≤ features.cluster_size)
features_cluster_example = features_cluster hundredths r1 demo_records

features_related_example :
    (length features.top_related_returns ≤ 8)
    × All (IsRelatedId hundredths r1 demo_records) features.top_related_returns
features_related_example = features_related hundredths r1 demo_records

length-related_returns_example :
    let result = related_returns hundredths r1 demo_records 2 in
    let n = count (is_related r1) demo_records in
    (length result.items ≡ (if ltb 2 n then 2 else n)) × (result.truncated ≡ ltb 2 n)
length-related_returns_example = length-related_returns hundredths r1 demo_records 2 (omega arith)

related_returns-IsSorted_example :
    IsSorted
      (λ a b.
        if hundredths.eq a.strength b.strength
        then text_lt a.return_id b.return_id
        else hundredths.lt b.strength a.strength)
      (related_returns hundredths r1 demo_records 2).items
related_returns-IsSorted_example =
    related_returns-IsSorted hundredths hundredths-IsOrderedLits r1 demo_records 2

abbrev related : RelatedResult ℕ
related = related_returns hundredths r1 demo_records 18

abbrev graph : GraphProjectionResponse ℕ
graph = project hundredths ascii "demo" "r1" 24 r1 features related

whole : graph.truncated ≡ false
unfolding project related_returns sort_stable related_items relate dedupe_nodes dedupe base_nodes
    item_node
whole = refl

project-IsJoined_example : All (IsJoined graph.nodes) graph.edges
project-IsJoined_example =
    project-IsJoined hundredths ascii r1 features "demo" "r1" 24 related whole

project-nodes_example : (length graph.nodes ≤ 24) × IsSorted (λ a b. text_lt a.id b.id) graph.nodes
project-nodes_example = project-nodes hundredths ascii r1 features "demo" "r1" 24 related

abbrev in_order : Tally → Tally
in_order counts = counts

abbrev swapped : Tally → Tally
swapped [] = []
swapped (c ∷ []) = c ∷ []
swapped (c ∷ d ∷ counts) = d ∷ c ∷ counts

same_entries : (counts : Tally) → Permᴰ counts counts
same_entries [] = Permᴰ.nil
same_entries (c ∷ counts) = Permᴰ.cons refl (same_entries counts)

swapped_entries : (counts : Tally) → Permᴰ (in_order counts) (swapped counts)
swapped_entries [] = Permᴰ.nil
swapped_entries (c ∷ []) = same_entries (c ∷ [])
swapped_entries (c ∷ d ∷ counts) = Permᴰ.swap refl refl

build_customer_history-visit_example :
    build_customer_history in_order "c1" demo_records
    ≡ build_customer_history swapped "c1" demo_records
build_customer_history-visit_example =
    build_customer_history-visit in_order swapped "c1" demo_records swapped_entries

build_customer_history-counts_example :
    let history = build_customer_history in_order "c1" demo_records in
    (history.return_count ≡ count (λ r. r.customer_id == "c1") demo_records)
    × (history.approved_refunds
        ≡ count (λ r. r.customer_id == "c1" && r.decision_status == approved_decision) demo_records)
build_customer_history-counts_example = build_customer_history-counts in_order "c1" demo_records
