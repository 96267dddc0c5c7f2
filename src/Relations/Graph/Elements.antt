-- ===== src/Relations/Graph/Elements.antt =====
-- The nodes and edges of GetGraphProjection, and their deduplication, in
-- backend/relations-service/internal/service/service.go.
use anti_fraud_detector.Prelude.{ℕ, String, Bool, List, [], ◌∷◌, ◌==◌, ◌<>◌, if◌then◌else◌}
use anti_fraud_detector.Prelude.Dict.{dedupe}
use anti_fraud_detector.Prelude.Sorting.{sort_stable}
use anti_fraud_detector.Prelude.Text.{CaseTable, text_lt, to_lower, replace_all}
use anti_fraud_detector.Prelude.Floats.{FloatOps}
use anti_fraud_detector.Relations.Domain.{
  NormalizedReturnRecord, RelatedReturn, RelationFeatures, GraphNode, GraphEdge, number, counted,
  flag, text,
}

unfoldable pub relation_label : CaseTable → String → String
relation_label u relation_type =
    if relation_type == "CUSTOMER_AGENT_PAIR"
    then "same customer-agent pair"
    else if relation_type == "SAME_CUSTOMER"
    then "same customer"
    else if relation_type == "SIMILAR_AGENT_REASON_CATEGORY"
    then "same agent/reason/category"
    else if relation_type == "SAME_AGENT_REASON"
    then "same agent/reason"
    else to_lower u (replace_all 95 " " relation_type)

module _ {F : Type 0} where
  abbrev pub node_id : GraphNode F → String
  node_id n = n.id

  abbrev pub edge_key : GraphEdge F → String
  edge_key e = e.from <> "|" <> e.to <> "|" <> e.type

  abbrev pub node_before : GraphNode F → GraphNode F → Bool
  node_before a b = text_lt a.id b.id

  abbrev pub edge_before : GraphEdge F → GraphEdge F → Bool
  edge_before a b = text_lt (a.from <> a.to <> a.type) (b.from <> b.to <> b.type)

  unfoldable pub dedupe_nodes : List (GraphNode F) → List (GraphNode F)
  dedupe_nodes nodes = sort_stable node_before (dedupe node_id [] nodes)

  unfoldable pub dedupe_edges : List (GraphEdge F) → List (GraphEdge F)
  dedupe_edges edges = sort_stable edge_before (dedupe edge_key [] edges)

module _ {F : Type 0} (ops : FloatOps F) where
  unfoldable pub item_count : RelatedReturn F → ℕ
  item_count item = if ops.le (ops.lit 100) item.strength then 2 else 1

  unfoldable pub base_nodes : NormalizedReturnRecord F → RelationFeatures F → List (GraphNode F)
  base_nodes t f =
      record {
        id = "return:" <> t.return_id;
        type = "return";
        label = t.return_id;
        summary = "Selected return request";
        values =
            ("refundAmount", number t.refund_amount)
            ∷ ("refundAmountRatio", number f.refund_amount_ratio)
            ∷ [];
      }
      ∷ record {
        id = "customer:" <> t.customer_id;
        type = "customer";
        label = t.customer_id;
        summary = "Customer who requested the refund";
        values = ("customerReturnCount", counted f.customer_return_count) ∷ [];
      }
      ∷ record {
        id = "order:" <> t.order_id;
        type = "order";
        label = t.order_id;
        summary = "Original order";
        values = ("orderAmount", number t.order_amount) ∷ [];
      }
      ∷ record {
        id = "agent:" <> t.support_agent_id;
        type = "supportAgent";
        label = t.support_agent_id;
        summary = "Support agent who handled the decision";
        values = ("agentApprovalRate", number f.agent_approval_rate) ∷ [];
      }
      ∷ record {
        id = "decision:" <> t.decision_id;
        type = "decision";
        label = t.decision_status;
        summary = "Support decision";
        values = ("manualOverride", flag t.manual_override) ∷ [];
      }
      ∷ record {
        id = "category:" <> t.product_category;
        type = "productCategory";
        label = t.product_category;
        summary = "Product category";
        values = ("categoryRefundRate", number f.category_refund_rate) ∷ [];
      }
      ∷ []

  unfoldable pub base_edges : NormalizedReturnRecord F → RelationFeatures F → List (GraphEdge F)
  base_edges t f =
      record {
        from = "customer:" <> t.customer_id;
        to = "order:" <> t.order_id;
        type = "PLACED_ORDER";
        label = "placed order";
        count = 1;
        weight = ops.lit 100;
        reason = "Customer placed the original order.";
      }
      ∷ record {
        from = "order:" <> t.order_id;
        to = "return:" <> t.return_id;
        type = "HAS_RETURN_REQUEST";
        label = "has return request";
        count = 1;
        weight = ops.lit 100;
        reason = "Order has the selected return request.";
      }
      ∷ record {
        from = "return:" <> t.return_id;
        to = "agent:" <> t.support_agent_id;
        type = "DECIDED_BY";
        label = "decided by";
        count = 1;
        weight = f.agent_approval_rate;
        reason = "Return was handled by this support agent.";
      }
      ∷ record {
        from = "agent:" <> t.support_agent_id;
        to = "decision:" <> t.decision_id;
        type = "MADE_DECISION";
        label = "made decision";
        count = 1;
        weight = ops.lit 100;
        reason = "Agent made the approval/rejection decision.";
      }
      ∷ record {
        from = "order:" <> t.order_id;
        to = "category:" <> t.product_category;
        type = "HAS_CATEGORY";
        label = "has category";
        count = 1;
        weight = f.category_refund_rate;
        reason = "Order belongs to this product category.";
      }
      ∷ []

  unfoldable pub item_node : RelatedReturn F → GraphNode F
  item_node item = record {
    id = "return:" <> item.return_id;
    type = "relatedReturn";
    label = item.return_id;
    summary = item.reason;
    values = ("strength", number item.strength) ∷ ("relationType", text item.relation_type) ∷ [];
  }

  unfoldable pub item_edge : CaseTable → NormalizedReturnRecord F → RelatedReturn F → GraphEdge F
  item_edge u t item = record {
    from = "return:" <> t.return_id;
    to = "return:" <> item.return_id;
    type = item.relation_type;
    label = relation_label u item.relation_type;
    count = item_count item;
    weight = item.strength;
    reason = item.reason;
  }
