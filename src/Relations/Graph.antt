-- ===== src/Relations/Graph.antt =====
-- buildReturnRelations, GetReturnRelationsForDataset and GetGraphProjection with its helpers, of
-- backend/relations-service/internal/service/service.go.
mod Elements
pub mod Laws
unfoldable pub use Elements.*
use anti_fraud_detector.Prelude.{
  ℕ, ◌-◌, String, Bool, true, false, ◌||◌, Option, none, some, List, [], ◌∷◌, ◌++◌, ◌==◌, ◌<>◌,
  if◌then◌else◌, ltb, leb, length, take, map,
}
use anti_fraud_detector.Prelude.Dict.{lookup, dedupe}
use anti_fraud_detector.Prelude.Sorting.{sort_stable}
use anti_fraud_detector.Prelude.Text.{CaseTable, text_lt, to_lower, replace_all}
use anti_fraud_detector.Prelude.Floats.{FloatOps}
use anti_fraud_detector.Relations.Domain.{
  NormalizedReturnRecord, RelatedReturn, ReturnFeaturesResponse, RelationFeatures, SupportDecision,
  GraphRelation, ReturnRelations, GraphNode, GraphEdge, number, counted, flag, text,
  approved_decision, default_graph_limit,
}
use anti_fraud_detector.Relations.Numbers.{max_int}
use anti_fraud_detector.Relations.Records.{Result, ok, err, return_not_found, ◌>>=◌, find_record}
use anti_fraud_detector.Relations.Store.{Service, require_dataset}
use anti_fraud_detector.Relations.Related.{RelatedResult, related_returns}

abbrev joins : String → String → String → GraphRelation
joins from type to = record { from = from; type = type; to = to }

module _ {F : Type 0} where
  unfoldable pub build_return_relations : NormalizedReturnRecord F → ReturnRelations F
  build_return_relations r =
      let decision_edge =
        if r.decision_status == approved_decision then "APPROVED_RETURN" else "DECLINED_RETURN" in
      record {
        return_id = r.return_id;
        customer_id = r.customer_id;
        order_id = r.order_id;
        support_agent_id = r.support_agent_id;
        product_category = r.product_category;
        decision = record {
          decision_id = r.decision_id;
          status = r.decision_status;
          refund_amount = r.refund_amount;
          manual_override = r.manual_override;
          decision_time_minutes = r.decision_time_minutes;
        };
        relations =
            joins r.customer_id "PLACED_ORDER" r.order_id
            ∷ joins r.customer_id "REQUESTED_RETURN" r.return_id
            ∷ joins r.order_id "HAS_RETURN_REQUEST" r.return_id
            ∷ joins r.return_id "DECIDED_BY" r.support_agent_id
            ∷ joins r.order_id "HAS_CATEGORY" r.product_category
            ∷ joins r.support_agent_id "MADE_DECISION" r.decision_id
            ∷ joins r.decision_id decision_edge r.return_id
            ∷ [];
      }

  unfoldable pub get_return_relations_for_dataset :
      String → String → Service F → Result (ReturnRelations F)
  get_return_relations_for_dataset dataset_id return_id s = do
    state ← require_dataset dataset_id s
    elim (find_record state.records return_id) [
      | none ↦ err return_not_found
      | some r ↦ ok (build_return_relations r)
    ]

pub record GraphProjectionResponse (F : Type 0) : Type 0 where
  pub dataset_id : String
  pub return_id : String
  pub nodes : List (GraphNode F)
  pub edges : List (GraphEdge F)
  pub limit : ℕ
  pub truncated : Bool

module _ {F : Type 0} (ops : FloatOps F) where
  -- What the loop over the related returns makes of the first nodes and edges.
  abbrev pub all_nodes :
      NormalizedReturnRecord F → RelationFeatures F → RelatedResult F → List (GraphNode F)
  all_nodes t f related = dedupe_nodes (base_nodes ops t f ++ map (item_node ops) related.items)

  abbrev pub all_edges :
      CaseTable
      → NormalizedReturnRecord F
      → RelationFeatures F
      → RelatedResult F
      → List (GraphEdge F)
  all_edges u t f related =
      dedupe_edges (base_edges ops t f ++ map (item_edge ops u t) related.items)

  unfoldable pub project :
      CaseTable
      → String
      → String
      → ℕ
      → NormalizedReturnRecord F
      → RelationFeatures F
      → RelatedResult F
      → GraphProjectionResponse F
  project u dataset_id return_id limit t f related =
      let nodes = all_nodes t f related in
      record {
        dataset_id = dataset_id;
        return_id = return_id;
        nodes = if ltb limit (length nodes) then take limit nodes else nodes;
        edges = all_edges u t f related;
        limit = limit;
        truncated = related.truncated || ltb limit (length nodes);
      }

  unfoldable pub get_graph_projection :
      CaseTable → String → String → ℕ → Service F → Result (GraphProjectionResponse F)
  get_graph_projection u dataset_id return_id limit s = do
    state ← require_dataset dataset_id s
    elim (find_record state.records return_id) [
      | none ↦ err return_not_found
      | some target ↦
          let limit' = if leb limit 0 then default_graph_limit else limit in
          elim (lookup return_id state.features) [
            | none ↦ err return_not_found
            | some features ↦
                let related =
                  related_returns ops target state.records (max_int (1 ∷ (limit' - 6) ∷ [])) in
                ok (project u dataset_id return_id limit' target features.features related)
          ]
    ]
