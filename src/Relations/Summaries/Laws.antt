-- ===== src/Relations/Summaries/Laws.antt =====
-- What the summaries of backend/relations-service/internal/service/service.go count, and on which of
-- them the order of a map's keys has no effect.
use anti_fraud_detector.Prelude.{
  suc, ◌+◌, String, false, ◌≡◌, ap, List, [], ◌∷◌, ◌==◌, map, count, length, length-append, ◌&&◌,
  arith, eq_iff,
}
use mathlib.Core.List.{Permᴰ}
use mathlib.Core.Path.{ap₂}
use anti_fraud_detector.Prelude.Dict.{lookup-insert}
use anti_fraud_detector.Prelude.Sorting.{IsWeakOrder, sort_stable-perm}
use anti_fraud_detector.Prelude.Text.{text_lt_asymm, text_lt_negtrans, text_lt_total}
use anti_fraud_detector.Relations.Domain.{NormalizedReturnRecord, LinkedAgent, approved_decision}
use anti_fraud_detector.Relations.Summaries.{
  Tally, tally_of, linked, agent_before, linked_agents, Gathered, gather, gather_all,
  nothing_gathered, build_customer_history,
}

agent_before-IsWeakOrder : IsWeakOrder agent_before
agent_before-IsWeakOrder = record {
  asymm = λ a b h. ground (arith, text_lt_asymm a.support_agent_id b.support_agent_id);
  negtrans = λ a b c h k.
      ground (arith, text_lt_negtrans a.support_agent_id b.support_agent_id c.support_agent_id);
}

agent_before-total :
    (a b : LinkedAgent) → agent_before a b ≡ false → agent_before b a ≡ false → a ≡ b
agent_before-total a b h k =
    let ids = text_lt_total a.support_agent_id b.support_agent_id in
    let same : (a.pair_count ≡ b.pair_count) × (a.support_agent_id ≡ b.support_agent_id) =
      ground (arith, ids) in
    ap₂ (λ id n. linked (id, n)) same.1 same.0

Permᴰ-map : {A B : Type 0} (f : A → B) {k l : List A} → Permᴰ k l → Permᴰ (map f k) (map f l)
Permᴰ-map f Permᴰ.nil = Permᴰ.nil
Permᴰ-map f (Permᴰ.cons e p) = Permᴰ.cons (ap f e) (Permᴰ-map f p)
Permᴰ-map f (Permᴰ.swap e g) = Permᴰ.swap (ap f e) (ap f g)
Permᴰ-map f (Permᴰ.trans p q) = Permᴰ.trans (Permᴰ-map f p) (Permᴰ-map f q)

module _ {F : Type 0} where
  -- The history of a customer is the same for two orders of visiting the map of the agents that are
  -- permutations of each other.
  pub build_customer_history-visit :
      (visit visit' : Tally → Tally) (customer_id : String)
      (records : List (NormalizedReturnRecord F))
      → ((counts : Tally) → Permᴰ (visit counts) (visit' counts))
      → build_customer_history visit customer_id records
        ≡ build_customer_history visit' customer_id records
  unfolding build_customer_history linked_agents
  build_customer_history-visit visit visit' customer_id records h =
      ap
        (λ agents. record (build_customer_history visit customer_id records) {
          linked_agents = agents;
        })
        (sort_stable-perm agent_before agent_before-IsWeakOrder agent_before-total
          (Permᴰ-map linked (h (gather_all customer_id records nothing_gathered).agent_pairs)))

  -- The loop adds the numbers of the customer's records: all of them, the approved ones, and those of
  -- each agent.
  gather_all-counts :
      (customer_id agent_id : String) (records : List (NormalizedReturnRecord F)) (g : Gathered F)
      → let g' = gather_all customer_id records g in
        (length g'.own ≡ length g.own + count (λ r. r.customer_id == customer_id) records)
        × (g'.approved
            ≡ g.approved
              + count
                  (λ r. r.customer_id == customer_id && r.decision_status == approved_decision)
                  records)
        × (tally_of agent_id g'.agent_pairs
            ≡ tally_of agent_id g.agent_pairs
              + count (λ r. r.customer_id == customer_id && r.support_agent_id == agent_id) records)
  unfolding gather_all
  gather_all-counts customer_id agent_id [] g = (omega arith, omega arith, omega arith)
  gather_all-counts customer_id agent_id (r ∷ rs) g = ground (
    arith,
    gather_all-counts customer_id agent_id rs (gather customer_id r g),
    length-append g.own (r ∷ []),
    lookup-insert r.support_agent_id agent_id (suc (tally_of r.support_agent_id g.agent_pairs))
        g.agent_pairs,
    eq_iff r.support_agent_id agent_id,
  )

  -- The history of a customer counts the records of the customer as returns, and as approved refunds
  -- those of them whose decision is an approval.
  pub build_customer_history-counts :
      (visit : Tally → Tally) (customer_id : String) (records : List (NormalizedReturnRecord F))
      → let history = build_customer_history visit customer_id records in
        (history.return_count ≡ count (λ r. r.customer_id == customer_id) records)
        × (history.approved_refunds
            ≡ count
                (λ r. r.customer_id == customer_id && r.decision_status == approved_decision)
                records)
  unfolding build_customer_history
  build_customer_history-counts visit customer_id records =
      let (returns, approved, pairs) = gather_all-counts customer_id "" records nothing_gathered in
      (omega (arith, returns), omega (arith, approved))
