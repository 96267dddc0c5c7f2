-- ===== src/Relations/Graph/Laws.antt =====
-- Which nodes and edges a projection has: service.go of backend/relations-service/internal/service.
use anti_fraud_detector.Prelude.{
  ℕ, ◌≤◌, String, Bool, true, false, ◌||◌, ◌≡◌, refl, ◌∙◌, List, [], ◌∷◌, ◌++◌, ◌==◌, ◌<>◌,
  if◌then◌else◌, ltb, length, map, any, All, All-map-of, All-append, length-take-le, arith,
  Bool-cases, inl, inr, eq_refl,
}
use anti_fraud_detector.Prelude.Dict.{dedupe, dedupe-All, dedupe-any}
use anti_fraud_detector.Prelude.Sorting.{
  All-sort_stable, any-sort_stable, IsSorted, IsSorted-take, sort_stable-IsSorted, IsWeakOrder,
}
use anti_fraud_detector.Prelude.Text.{CaseTable, text_lt, text_lt_asymm, text_lt_negtrans}
use anti_fraud_detector.Prelude.Floats.{FloatOps}
use anti_fraud_detector.Relations.Domain.{
  NormalizedReturnRecord, RelatedReturn, RelationFeatures, GraphNode, GraphEdge,
}
use anti_fraud_detector.Relations.Related.{RelatedResult}
use anti_fraud_detector.Relations.Graph.{
  node_id, edge_key, node_before, edge_before, dedupe_nodes, dedupe_edges, base_nodes, base_edges,
  item_node, item_edge, all_nodes, all_edges, project, GraphProjectionResponse,
}

if_true : (b : Bool) → (if b then true else true) ≡ true
if_true b = ground arith

module _ {F : Type 0} where
  abbrev pub has_node : List (GraphNode F) → String → Bool
  has_node nodes id = any (λ n. n.id == id) nodes

  has_node-dedupe_nodes :
      (nodes : List (GraphNode F)) (k : String) → has_node (dedupe_nodes nodes) k ≡ has_node nodes k
  unfolding dedupe_nodes
  has_node-dedupe_nodes nodes k =
      any-sort_stable node_before (λ n. n.id == k) (dedupe node_id [] nodes)
      ∙ dedupe-any node_id k [] nodes refl

  All-dedupe_edges :
      (P : GraphEdge F → Type 0) (edges : List (GraphEdge F))
      → All P edges
      → All P (dedupe_edges edges)
  unfolding dedupe_edges
  All-dedupe_edges P edges h =
      All-sort_stable edge_before P (dedupe edge_key [] edges) (dedupe-All edge_key P [] edges h)

  here : (n : GraphNode F) (l : List (GraphNode F)) → has_node (n ∷ l) n.id ≡ true
  here n l = rw (eq_refl n.id)

  there :
      (k : String) (n : GraphNode F) (l : List (GraphNode F))
      → has_node l k ≡ true
      → has_node (n ∷ l) k ≡ true
  there k n l h = ground (arith, h)

  any-append :
      (p : GraphNode F → Bool) (k l : List (GraphNode F)) → any p (k ++ l) ≡ (any p k || any p l)
  any-append p [] l = refl
  any-append p (x ∷ k) l = ground (arith, any-append p k l)

  node_before-IsWeakOrder : IsWeakOrder (node_before {F = F})
  node_before-IsWeakOrder = record {
    asymm = λ a b h. text_lt_asymm a.id b.id h;
    negtrans = λ a b c h k. text_lt_negtrans a.id b.id c.id h k;
  }

  -- Both ends of an edge are among the nodes.
  abbrev pub IsJoined : List (GraphNode F) → GraphEdge F → Type 0
  IsJoined nodes e = (has_node nodes e.from ≡ true) × (has_node nodes e.to ≡ true)

module _ {F : Type 0} (ops : FloatOps F) (u : CaseTable) (t : NormalizedReturnRecord F)
    (f : RelationFeatures F) where
  abbrev base : List (GraphNode F)
  base = base_nodes ops t f

  -- The six nodes of the target are there.
  base_ids :
      (has_node base ("return:" <> t.return_id) ≡ true)
      × (has_node base ("customer:" <> t.customer_id) ≡ true)
      × (has_node base ("order:" <> t.order_id) ≡ true)
      × (has_node base ("agent:" <> t.support_agent_id) ≡ true)
      × (has_node base ("decision:" <> t.decision_id) ≡ true)
      × (has_node base ("category:" <> t.product_category) ≡ true)
  unfolding base_nodes
  base_ids = simp (eq_refl, if_true) (refl, refl, refl, refl, refl, refl)

  base_edges-IsJoined : All (IsJoined base) (base_edges ops t f)
  unfolding base_edges
  base_edges-IsJoined =
      let (return, customer, order, agent, decision, category) = base_ids in
      (
        (customer, order),
        ((order, return), ((return, agent), ((agent, decision), ((order, category), tt)))),
      )

  abbrev nodes_of : List (RelatedReturn F) → List (GraphNode F)
  nodes_of items = map (item_node ops) items

  item_edges-IsJoined :
      (items : List (RelatedReturn F))
      → All
          (λ (e : GraphEdge F).
            (has_node base e.from ≡ true) × (has_node (nodes_of items) e.to ≡ true))
          (map (item_edge ops u t) items)
  unfolding item_edge item_node
  item_edges-IsJoined [] = tt
  item_edges-IsJoined (i ∷ is) = (
    (base_ids.0, here (item_node ops i) (nodes_of is)),
    All-map-of (map (item_edge ops u t) is)
        (λ e h. (h.0, there e.to (item_node ops i) (nodes_of is) h.1)) (item_edges-IsJoined is),
  )

  edges-IsJoined :
      (items : List (RelatedReturn F))
      → All
          (IsJoined (base ++ nodes_of items))
          (base_edges ops t f ++ map (item_edge ops u t) items)
  edges-IsJoined items =
      All-append (IsJoined (base ++ nodes_of items)) (base_edges ops t f)
        (map (item_edge ops u t) items)
        (All-map-of (base_edges ops t f)
          (λ e h. (
            ground (arith, h.0, any-append (λ n. n.id == e.from) base (nodes_of items)),
            ground (arith, h.1, any-append (λ n. n.id == e.to) base (nodes_of items)),
          ))
          base_edges-IsJoined)
        (All-map-of (map (item_edge ops u t) items)
          (λ e h. (
            ground (arith, h.0, any-append (λ n. n.id == e.from) base (nodes_of items)),
            ground (arith, h.1, any-append (λ n. n.id == e.to) base (nodes_of items)),
          ))
          (item_edges-IsJoined items))

  module _ (dataset_id return_id : String) (limit : ℕ) (related : RelatedResult F) where
    abbrev graph : GraphProjectionResponse F
    graph = project ops u dataset_id return_id limit t f related

    abbrev joined : List (GraphNode F)
    joined = base ++ nodes_of related.items

    -- A projection that is not marked truncated is closed: both ends of each of its edges are among
    -- its nodes.
    pub project-IsJoined : graph.truncated ≡ false → All (IsJoined graph.nodes) graph.edges
    unfolding project
    project-IsJoined h = elim (Bool-cases (ltb limit (length (all_nodes ops t f related)))) [
      | inl e ↦ ground (arith, e, h)
      | inr e ↦
          let closed : All (IsJoined (all_nodes ops t f related)) (all_edges ops u t f related) =
            All-map-of {P = IsJoined joined} (all_edges ops u t f related)
              (λ x j. (
                has_node-dedupe_nodes joined x.from ∙ j.0,
                has_node-dedupe_nodes joined x.to ∙ j.1,
              ))
              (All-dedupe_edges (IsJoined joined)
                (base_edges ops t f ++ map (item_edge ops u t) related.items)
                (edges-IsJoined related.items)) in
          rw e closed
    ]

    -- The nodes of a projection are at most as many as the limit, and no node comes after one with a
    -- greater id.
    pub project-nodes :
        (length graph.nodes ≤ limit) × IsSorted (λ a b. text_lt a.id b.id) graph.nodes
    unfolding project dedupe_nodes
    project-nodes =
        let all = all_nodes ops t f related in
        let sorted : IsSorted node_before all =
          sort_stable-IsSorted node_before node_before-IsWeakOrder _ in
        elim (Bool-cases (ltb limit (length all))) [
          | inl e ↦ rw e (length-take-le limit all, IsSorted-take node_before limit all sorted)
          | inr e ↦ rw e (ground (arith, e), sorted)
        ]
