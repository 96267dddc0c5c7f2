-- ===== src/Relations/Summaries.antt =====
-- buildCustomerHistory, GetCustomerHistoryForDataset, GetCustomerBehaviorSummary, buildAgentSummary,
-- topKey, GetAgentSummaryForDataset and GetRankedAgents of
-- backend/relations-service/internal/service/service.go. The order in which `range` visits the keys of a
-- map is a parameter: a function that is given the entries and gives them in the order of the visit.
pub mod Laws
use anti_fraud_detector.Prelude.{
  ℕ, suc, ◌+◌, String, Bool, true, false, ◌&&◌, ◌||◌, Option, none, some, List, [], ◌∷◌, ◌++◌, not,
  ◌==◌, if◌then◌else◌, ltb, leb, eqb, length, take, map, count, keep,
}
use anti_fraud_detector.Prelude.Dict.{lookup, insert}
use anti_fraud_detector.Prelude.Sorting.{sort_stable}
use anti_fraud_detector.Prelude.Text.{text_lt}
use anti_fraud_detector.Prelude.Floats.{FloatOps, round_cents}
use anti_fraud_detector.Relations.Domain.{
  NormalizedReturnRecord, ReturnFeaturesResponse, ReturnListItem, LinkedAgent, CustomerHistory,
  RankedAgentSummary, approved_decision, default_analytics_limit,
}
use anti_fraud_detector.Relations.Numbers.{ratio, ratio_float}
use anti_fraud_detector.Relations.Records.{Result, ok, ◌>>=◌}
use anti_fraud_detector.Relations.Store.{Service, require_dataset}

-- A map[string]int, and `counts[key]++`.
abbrev pub Tally : Type 0
Tally = List (String × ℕ)

abbrev pub tally_of : String → Tally → ℕ
tally_of key counts = elim (lookup key counts) [ none ↦ 0 | some n ↦ n ]

abbrev pub bump : String → Tally → Tally
bump key counts = insert key (suc (tally_of key counts)) counts

unfoldable pub tally : List String → Tally → Tally
tally [] counts = counts
tally (k ∷ ks) counts = tally ks (bump k counts)

abbrev pub linked : String × ℕ → LinkedAgent
linked (agent_id, pair_count) = record { support_agent_id = agent_id; pair_count = pair_count }

abbrev pub agent_before : LinkedAgent → LinkedAgent → Bool
agent_before a b =
    if eqb a.pair_count b.pair_count
    then text_lt a.support_agent_id b.support_agent_id
    else ltb b.pair_count a.pair_count

top_from : String → ℕ → Tally → String
top_from top top_count [] = top
top_from top top_count ((key, n) ∷ counts) =
    let taken = top_from key n counts in
    let kept = top_from top top_count counts in
    if ltb top_count n || (top == "") then taken else kept

-- topKey, of the entries in the order of the visit.
unfoldable pub top_key : Tally → String
unfolding top_from
top_key counts = top_from "" 0 counts

unfoldable pub most : ℕ → Tally → ℕ
most greatest [] = greatest
most greatest ((key, n) ∷ counts) = most (if ltb greatest n then n else greatest) counts

unfoldable pub linked_agents : (Tally → Tally) → Tally → List LinkedAgent
linked_agents visit agent_pairs = sort_stable agent_before (map linked (visit agent_pairs))

-- What the loop of buildCustomerHistory gathers: the customer's records, the records of each agent,
-- and the approved ones.
pub record Gathered (F : Type 0) : Type 0 where
  pub own : List (NormalizedReturnRecord F)
  pub agent_pairs : Tally
  pub approved : ℕ

module _ {F : Type 0} where
  abbrev pub is_of_customer : String → NormalizedReturnRecord F → Bool
  is_of_customer customer_id r = r.customer_id == customer_id

  abbrev pub is_approved : NormalizedReturnRecord F → Bool
  is_approved r = r.decision_status == approved_decision

  abbrev newer : NormalizedReturnRecord F → NormalizedReturnRecord F → Bool
  newer a b = text_lt b.return_id a.return_id

  abbrev list_item : NormalizedReturnRecord F → ReturnListItem F
  list_item r = record {
    return_id = r.return_id;
    order_id = r.order_id;
    reason = r.return_reason;
    category = r.product_category;
    refund_amount = r.refund_amount;
    decision_status = r.decision_status;
    support_agent_id = r.support_agent_id;
  }

  -- The body of the loop.
  abbrev pub gather : String → NormalizedReturnRecord F → Gathered F → Gathered F
  gather customer_id r g = if not (r.customer_id == customer_id) then g else record {
    own = g.own ++ r ∷ [];
    agent_pairs = bump r.support_agent_id g.agent_pairs;
    approved = if is_approved r then suc g.approved else g.approved;
  }

  unfoldable pub gather_all : String → List (NormalizedReturnRecord F) → Gathered F → Gathered F
  gather_all customer_id [] g = g
  gather_all customer_id (r ∷ rs) g = gather_all customer_id rs (gather customer_id r g)

  abbrev pub nothing_gathered : Gathered F
  nothing_gathered = record { own = []; agent_pairs = []; approved = 0 }

  unfoldable pub build_customer_history :
      (Tally → Tally) → String → List (NormalizedReturnRecord F) → CustomerHistory F
  build_customer_history visit customer_id records =
      let g = gather_all customer_id records nothing_gathered in
      record {
        customer_id = customer_id;
        orders_count = length g.own;
        return_count = length g.own;
        approved_refunds = g.approved;
        recent_returns = map list_item (sort_stable newer g.own);
        linked_agents = linked_agents visit g.agent_pairs;
      }

  unfoldable pub get_customer_history_for_dataset :
      (Tally → Tally) → String → String → Service F → Result (CustomerHistory F)
  get_customer_history_for_dataset visit dataset_id customer_id s = do
    state ← require_dataset dataset_id s
    ok (build_customer_history visit customer_id state.records)

pub record CustomerBehaviorSummary (F : Type 0) : Type 0 where
  pub dataset_id : String
  pub customer_id : String
  pub return_count : ℕ
  pub approved_refund_count : ℕ
  pub total_refund_amount : F
  pub average_refund_ratio : F
  pub related_agents : List LinkedAgent
  pub recent_returns : List (ReturnListItem F)

pub record AgentSummary (F : Type 0) : Type 0 where
  pub support_agent_id : String
  pub decisions_count : ℕ
  pub approval_rate : F
  pub high_value_approval_count : ℕ
  pub manual_override_count : ℕ
  pub repeated_customer_pair_count : ℕ
  pub top_risky_category : String

pub record RankedAgentsResponse (F : Type 0) : Type 0 where
  pub dataset_id : String
  pub agents : List (RankedAgentSummary F)
  pub limit : ℕ
  pub sort : String

module _ {F : Type 0} (ops : FloatOps F) where
  -- The loop that adds up amounts and ratios.
  unfoldable pub refund_totals : F → F → List (NormalizedReturnRecord F) → F × F
  refund_totals amount ratios [] = (amount, ratios)
  refund_totals amount ratios (r ∷ rs) =
      refund_totals (ops.add amount r.refund_amount)
        (ops.add ratios (ratio_float ops r.refund_amount r.order_amount)) rs

  unfoldable pub get_customer_behavior_summary :
      (Tally → Tally) → String → String → ℕ → Service F → Result (CustomerBehaviorSummary F)
  get_customer_behavior_summary visit dataset_id customer_id limit s = do
    state ← require_dataset dataset_id s
    let limit' = if leb limit 0 then default_analytics_limit else limit
    let history = build_customer_history visit customer_id state.records
    let own = keep (is_of_customer customer_id) state.records
    let (amount, ratios) = refund_totals (ops.lit 0) (ops.lit 0) own
    let recent = history.recent_returns
    ok (record {
      dataset_id = dataset_id;
      customer_id = customer_id;
      return_count = history.return_count;
      approved_refund_count = history.approved_refunds;
      total_refund_amount = round_cents ops amount;
      average_refund_ratio = ratio_float ops ratios (ops.of_int (length own));
      related_agents = history.linked_agents;
      recent_returns = if ltb limit' (length recent) then take limit' recent else recent;
    })

  abbrev is_of_agent : String → NormalizedReturnRecord F → Bool
  is_of_agent agent_id r = r.support_agent_id == agent_id

  abbrev is_high_value : NormalizedReturnRecord F → Bool
  is_high_value r = is_approved r && ops.le (ops.lit 30000) r.refund_amount

  unfoldable pub total_cluster_size :
      List (String × ReturnFeaturesResponse F) → List (NormalizedReturnRecord F) → ℕ
  total_cluster_size features [] = 0
  total_cluster_size features (r ∷ rs) =
      let rest = total_cluster_size features rs in
      elim (lookup r.return_id features) [
        | none ↦ rest
        | some cached ↦ cached.features.cluster_size + rest
      ]

  unfoldable pub build_agent_summary :
      (Tally → Tally)
      → String
      → List (NormalizedReturnRecord F)
      → List (String × ReturnFeaturesResponse F)
      → RankedAgentSummary F
  build_agent_summary visit agent_id records features =
      let own = keep (is_of_agent agent_id) records in
      record {
        support_agent_id = agent_id;
        decisions_count = length own;
        approval_rate = ratio ops (count is_approved own) (length own);
        manual_override_rate = ratio ops (count (λ r. r.manual_override) own) (length own);
        high_value_approval_count = count is_high_value own;
        repeated_customer_pair_count = most 0 (visit (tally (map (λ r. r.customer_id) own) []));
        average_cluster_size =
            ratio_float ops (ops.of_int (total_cluster_size features own))
              (ops.of_int (length own));
        top_risky_category = top_key (visit (tally (map (λ r. r.product_category) own) []));
      }

  unfoldable pub get_agent_summary_for_dataset :
      (Tally → Tally) → String → String → Service F → Result (AgentSummary F)
  get_agent_summary_for_dataset visit dataset_id agent_id s = do
    state ← require_dataset dataset_id s
    let summary = build_agent_summary visit agent_id state.records state.features
    ok (record {
      support_agent_id = summary.support_agent_id;
      decisions_count = summary.decisions_count;
      approval_rate = summary.approval_rate;
      high_value_approval_count = summary.high_value_approval_count;
      manual_override_count = ops.to_int (
          round_cents ops
            (ops.mul summary.manual_override_rate (ops.of_int summary.decisions_count)));
      repeated_customer_pair_count = summary.repeated_customer_pair_count;
      top_risky_category = summary.top_risky_category;
    })

  by_measure : (RankedAgentSummary F → F) → RankedAgentSummary F → RankedAgentSummary F → Bool
  by_measure measure a b =
      if ops.eq (measure a) (measure b)
      then text_lt a.support_agent_id b.support_agent_id
      else ops.lt (measure b) (measure a)

  unfoldable pub ranked_before : String → RankedAgentSummary F → RankedAgentSummary F → Bool
  unfolding by_measure
  ranked_before sort_by =
      if sort_by == "approvalRate"
      then by_measure (λ a. a.approval_rate)
      else if sort_by == "manualOverrideRate"
      then by_measure (λ a. a.manual_override_rate)
      else by_measure (λ a. a.average_cluster_size)

  unfoldable pub get_ranked_agents :
      (Tally → Tally) → String → ℕ → String → Service F → Result (RankedAgentsResponse F)
  get_ranked_agents visit dataset_id limit sort_by s = do
    state ← require_dataset dataset_id s
    let limit' = if leb limit 0 then default_analytics_limit else limit
    let sort = if sort_by == "" then "averageClusterSize" else sort_by
    let agent_ids = map (λ e. e.0) (visit (tally (map (λ r. r.support_agent_id) state.records) []))
    let agents =
        sort_stable (ranked_before sort)
          (map (λ id. build_agent_summary visit id state.records state.features) agent_ids)
    ok (record {
      dataset_id = dataset_id;
      agents = if ltb limit' (length agents) then take limit' agents else agents;
      limit = limit';
      sort = sort;
    })
