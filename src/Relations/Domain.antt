-- ===== src/Relations/Domain.antt =====
-- The records of backend/relations-service/internal/domain/models.go, over the type F of float64.
use anti_fraud_detector.Prelude.{ℕ, String, Bool, List}
use anti_fraud_detector.Prelude.Int.{ℤ}

pub record NormalizedReturnRecord (F : Type 0) : Type 0 where
  pub dataset_id : String
  pub return_id : String
  pub customer_id : String
  pub order_id : String
  pub support_agent_id : String
  pub product_category : String
  pub return_reason : String
  pub decision_id : String
  pub decision_status : String
  pub refund_amount : F
  pub order_amount : F
  pub evidence_provided : Bool
  pub manual_override : Bool
  pub decision_time_minutes : ℤ
  pub timestamp : String

pub record RelationFeatures (F : Type 0) : Type 0 where
  pub customer_return_count : ℕ
  pub customer_approved_refund_count : ℕ
  pub agent_decision_count : ℕ
  pub agent_approval_rate : F
  pub agent_manual_override_rate : F
  pub agent_high_value_approval_count : ℕ
  pub customer_agent_pair_count : ℕ
  pub agent_customer_interaction_count : ℕ
  pub category_refund_rate : F
  pub refund_amount_ratio : F
  pub similar_returns_count : ℕ
  pub same_reason_refund_count : ℕ
  pub cluster_size : ℕ
  pub strongest_relation_type : String
  pub top_related_returns : List String
  pub explanation_summary : String
  pub explanation_signals : List String

pub record ReturnFeaturesResponse (F : Type 0) : Type 0 where
  pub return_id : String
  pub dataset_id : String
  pub customer_id : String
  pub support_agent_id : String
  pub feature_version : ℕ
  pub calculated_at : String
  pub features : RelationFeatures F

pub record DatasetMetadata : Type 0 where
  pub dataset_id : String
  pub records_count : ℕ
  pub schema_version : String
  pub source : String
  pub feature_version : ℕ
  pub loaded_at : String
  pub calculated_at : String

pub record RelatedReturn (F : Type 0) : Type 0 where
  pub return_id : String
  pub relation_type : String
  pub reason : String
  pub strength : F
  pub customer_id : String
  pub support_agent_id : String

pub record ReturnListItem (F : Type 0) : Type 0 where
  pub return_id : String
  pub order_id : String
  pub reason : String
  pub category : String
  pub refund_amount : F
  pub decision_status : String
  pub support_agent_id : String

pub record LinkedAgent : Type 0 where
  pub support_agent_id : String
  pub pair_count : ℕ

pub record CustomerHistory (F : Type 0) : Type 0 where
  pub customer_id : String
  pub orders_count : ℕ
  pub return_count : ℕ
  pub approved_refunds : ℕ
  pub recent_returns : List (ReturnListItem F)
  pub linked_agents : List LinkedAgent

pub record RankedAgentSummary (F : Type 0) : Type 0 where
  pub support_agent_id : String
  pub decisions_count : ℕ
  pub approval_rate : F
  pub manual_override_rate : F
  pub high_value_approval_count : ℕ
  pub repeated_customer_pair_count : ℕ
  pub average_cluster_size : F
  pub top_risky_category : String

pub record SupportDecision (F : Type 0) : Type 0 where
  pub decision_id : String
  pub status : String
  pub refund_amount : F
  pub manual_override : Bool
  pub decision_time_minutes : ℤ

pub record GraphRelation : Type 0 where
  pub from : String
  pub type : String
  pub to : String

pub record ReturnRelations (F : Type 0) : Type 0 where
  pub return_id : String
  pub customer_id : String
  pub order_id : String
  pub support_agent_id : String
  pub product_category : String
  pub decision : SupportDecision F
  pub relations : List GraphRelation

-- A value of the data of a node, which the code holds as interface{}.
pub data NodeValue (F : Type 0) : Type 0 where
  number : F → NodeValue F
  counted : ℕ → NodeValue F
  flag : Bool → NodeValue F
  text : String → NodeValue F

pub record GraphNode (F : Type 0) : Type 0 where
  pub id : String
  pub type : String
  pub label : String
  pub summary : String
  pub values : List (String × NodeValue F)

pub record GraphEdge (F : Type 0) : Type 0 where
  pub from : String
  pub to : String
  pub type : String
  pub label : String
  pub count : ℕ
  pub weight : F
  pub reason : String

abbrev pub approved_decision : String
approved_decision = "APPROVED"

abbrev pub default_dataset_id : String
default_dataset_id = "demo"

abbrev pub default_schema_version : String
default_schema_version = "refund-normalized.v1"

abbrev pub default_related_limit : ℕ
default_related_limit = 8

abbrev pub default_analytics_limit : ℕ
default_analytics_limit = 10

abbrev pub default_graph_limit : ℕ
default_graph_limit = 24
