-- ===== src/Relations/Defaults.antt =====
-- The lookups of backend/relations-service/internal/service/service.go that are of the default dataset:
-- GetReturnRelations, GetReturnFeatures, GetCustomerHistory and GetAgentSummary.
use anti_fraud_detector.Prelude.{String, []}
use anti_fraud_detector.Prelude.Floats.{FloatOps}
use anti_fraud_detector.Relations.Domain.{
  ReturnRelations, ReturnFeaturesResponse, CustomerHistory, default_dataset_id,
}
use anti_fraud_detector.Relations.Records.{Result, ok, err}
use anti_fraud_detector.Relations.Store.{Service, get_return_features_for_dataset}
use anti_fraud_detector.Relations.Graph.{get_return_relations_for_dataset}
use anti_fraud_detector.Relations.Summaries.{
  Tally, AgentSummary, get_customer_history_for_dataset, get_agent_summary_for_dataset,
}

module _ {F : Type 0} where
  unfoldable pub get_return_relations : String → Service F → Result (ReturnRelations F)
  get_return_relations return_id s = get_return_relations_for_dataset default_dataset_id return_id s

  unfoldable pub get_return_features : String → Service F → Result (ReturnFeaturesResponse F)
  get_return_features return_id s = get_return_features_for_dataset default_dataset_id return_id s

  history_or_blank : String → Result (CustomerHistory F) → CustomerHistory F
  history_or_blank customer_id (ok history) = history
  history_or_blank customer_id (err e) = record {
    customer_id = customer_id;
    orders_count = 0;
    return_count = 0;
    approved_refunds = 0;
    recent_returns = [];
    linked_agents = [];
  }

  unfoldable pub get_customer_history : (Tally → Tally) → String → Service F → CustomerHistory F
  unfolding history_or_blank
  get_customer_history visit customer_id s =
      history_or_blank customer_id
        (get_customer_history_for_dataset visit default_dataset_id customer_id s)

module _ {F : Type 0} (ops : FloatOps F) where
  summary_or_blank : String → Result (AgentSummary F) → AgentSummary F
  summary_or_blank agent_id (ok summary) = summary
  summary_or_blank agent_id (err e) = record {
    support_agent_id = agent_id;
    decisions_count = 0;
    approval_rate = ops.of_int 0;
    high_value_approval_count = 0;
    manual_override_count = 0;
    repeated_customer_pair_count = 0;
    top_risky_category = "";
  }

  unfoldable pub get_agent_summary : (Tally → Tally) → String → Service F → AgentSummary F
  unfolding summary_or_blank
  get_agent_summary visit agent_id s =
      summary_or_blank agent_id
        (get_agent_summary_for_dataset ops visit default_dataset_id agent_id s)
