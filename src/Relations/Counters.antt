-- ===== src/Relations/Counters.antt =====
-- The loop of calculateFeatures in backend/relations-service/internal/service/service.go: a record
-- of its counters, and its body as a step for each of its tests.
pub mod Laws
use anti_fraud_detector.Prelude.{
  ℕ, suc, ◌+◌, ◌≤◌, String, Bool, true, false, ◌&&◌, not, ◌≡◌, refl, List, [], ◌∷◌, ◌++◌, ◌==◌,
  if◌then◌else◌, count, arith,
}
use anti_fraud_detector.Prelude.Floats.{FloatOps}
use anti_fraud_detector.Relations.Domain.{NormalizedReturnRecord, approved_decision}

pub record Counters : Type 0 where
  pub customer_returns : ℕ
  pub customer_approved : ℕ
  pub agent_decisions : ℕ
  pub agent_approved : ℕ
  pub agent_overrides : ℕ
  pub agent_high_value : ℕ
  pub pairs : ℕ
  pub category_returns : ℕ
  pub same_reason : ℕ
  pub similar : ℕ
  pub top_related : List String

unfoldable pub no_counts : Counters
no_counts = record {
  customer_returns = 0;
  customer_approved = 0;
  agent_decisions = 0;
  agent_approved = 0;
  agent_overrides = 0;
  agent_high_value = 0;
  pairs = 0;
  category_returns = 0;
  same_reason = 0;
  similar = 0;
  top_related = [];
}

module _ {F : Type 0} (ops : FloatOps F) where
  abbrev Record : Type 0
  Record = NormalizedReturnRecord F

  -- record.RefundAmount >= highValueRefundAmount, 300.0.
  abbrev pub is_high_value : Record → Bool
  is_high_value r = ops.le (ops.lit 30000) r.refund_amount

  abbrev pub is_approved : Record → Bool
  is_approved r = r.decision_status == approved_decision

  abbrev pub same_customer : Record → Record → Bool
  same_customer t r = r.customer_id == t.customer_id

  abbrev pub same_agent : Record → Record → Bool
  same_agent t r = r.support_agent_id == t.support_agent_id

  abbrev pub same_pair : Record → Record → Bool
  same_pair t r = same_customer t r && same_agent t r

  abbrev pub same_reason_and_agent : Record → Record → Bool
  same_reason_and_agent t r = r.return_reason == t.return_reason && same_agent t r

  abbrev pub is_other : Record → Record → Bool
  is_other t r = not (r.return_id == t.return_id)

  abbrev pub is_similar : Record → Record → Bool
  is_similar t r =
      is_other t r
      && (r.return_reason == t.return_reason
          && (r.product_category == t.product_category && same_agent t r))

  count_customer : Record → Record → Counters → Counters
  count_customer t r c =
      if same_customer t r
      then (let c' = record c { customer_returns = c.customer_returns + 1 } in
          if is_approved r then record c' { customer_approved = c'.customer_approved + 1 } else c')
      else c

  count_approval : Record → Counters → Counters
  count_approval r c =
      if is_approved r
      then (let c' = record c { agent_approved = c.agent_approved + 1 } in
          if is_high_value r then record c' { agent_high_value = c'.agent_high_value + 1 } else c')
      else c

  count_agent : Record → Record → Counters → Counters
  unfolding count_approval
  count_agent t r c =
      if same_agent t r
      then (let c' = count_approval r (record c { agent_decisions = c.agent_decisions + 1 }) in
          if r.manual_override then record c' { agent_overrides = c'.agent_overrides + 1 } else c')
      else c

  add_related : String → Counters → Counters
  add_related id c = record c { top_related = c.top_related ++ id ∷ [] }

  count_pair : Record → Record → Counters → Counters
  unfolding add_related
  count_pair t r c =
      if same_pair t r
      then (let c' = record c { pairs = c.pairs + 1 } in
          if is_other t r then add_related r.return_id c' else c')
      else c

  count_category : Record → Record → Counters → Counters
  count_category t r c =
      if r.product_category == t.product_category
      then record c { category_returns = c.category_returns + 1 }
      else c

  count_reason : Record → Record → Counters → Counters
  count_reason t r c =
      if same_reason_and_agent t r then record c { same_reason = c.same_reason + 1 } else c

  count_similar : Record → Record → Counters → Counters
  unfolding add_related
  count_similar t r c =
      if is_similar t r then add_related r.return_id (record c { similar = c.similar + 1 }) else c

  -- The body of the loop.
  count_tests : Record → Record → Counters → Counters
  count_tests t r c = count_similar t r (
      count_reason t r
        (count_category t r (count_pair t r (count_agent t r (count_customer t r c)))))

  unfoldable pub count_record : Record → Record → Counters → Counters
  unfolding count_tests count_customer count_agent count_pair count_category count_reason
      count_similar
  count_record t r c = count_tests t r c

  unfoldable pub count_records : Record → List Record → Counters → Counters
  count_records t [] c = c
  count_records t (r ∷ rs) c = count_records t rs (count_record t r c)
