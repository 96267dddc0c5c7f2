-- ===== src/Relations/Counters/Laws.antt =====
-- Each counter of calculateFeatures is the number of records that pass its test.
use anti_fraud_detector.Prelude.{
  ℕ, ◌+◌, String, Bool, true, false, ◌&&◌, ◌≡◌, refl, ap, ◌∙◌, List, [], ◌∷◌, ◌++◌, ◌==◌,
  if◌then◌else◌, count, arith, All, All-append, any, ◌||◌, eq_refl, All-map-of,
}
use anti_fraud_detector.Prelude.Floats.{FloatOps}
use anti_fraud_detector.Relations.Domain.{NormalizedReturnRecord}
use anti_fraud_detector.Relations.Counters.{
  Counters, no_counts, count_record, count_records, count_record, count_tests, count_customer,
  count_agent, count_pair, count_category, count_reason, count_similar, is_high_value, is_approved,
  same_customer, same_agent, same_pair, same_reason_and_agent, is_similar, is_other,
}

abbrev one_if : Bool → ℕ
one_if b = if b then 1 else 0

module _ {F : Type 0} (ops : FloatOps F) (t r : NormalizedReturnRecord F) where
  customer_flat :
      (c : Counters)
      → count_customer ops t r c ≡ record c {
        customer_returns = c.customer_returns + one_if (same_customer ops t r);
        customer_approved =
            c.customer_approved + one_if (same_customer ops t r && is_approved ops r);
      }
  unfolding count_customer
  customer_flat c = ground arith

  agent_flat :
      (c : Counters)
      → count_agent ops t r c ≡ record c {
        agent_decisions = c.agent_decisions + one_if (same_agent ops t r);
        agent_approved = c.agent_approved + one_if (same_agent ops t r && is_approved ops r);
        agent_overrides = c.agent_overrides + one_if (same_agent ops t r && r.manual_override);
        agent_high_value =
            c.agent_high_value
            + one_if (same_agent ops t r && (is_approved ops r && is_high_value ops r));
      }
  unfolding count_agent
  agent_flat c = ground arith

  pair_flat :
      (c : Counters)
      → count_pair ops t r c ≡ record c {
        pairs = c.pairs + one_if (same_pair ops t r);
        top_related =
            if same_pair ops t r && is_other ops t r
            then c.top_related ++ r.return_id ∷ []
            else c.top_related;
      }
  unfolding count_pair
  pair_flat c = ground arith

  category_flat :
      (c : Counters)
      → count_category ops t r c ≡ record c {
        category_returns = c.category_returns + one_if (r.product_category == t.product_category);
      }
  unfolding count_category
  category_flat c = ground arith

  reason_flat :
      (c : Counters)
      → count_reason ops t r c
        ≡ record c { same_reason = c.same_reason + one_if (same_reason_and_agent ops t r) }
  unfolding count_reason
  reason_flat c = ground arith

  similar_flat :
      (c : Counters)
      → count_similar ops t r c ≡ record c {
        similar = c.similar + one_if (is_similar ops t r);
        top_related =
            if is_similar ops t r then c.top_related ++ r.return_id ∷ [] else c.top_related;
      }
  unfolding count_similar
  similar_flat c = ground arith

  abbrev paired : Counters → List String
  paired c =
      if same_pair ops t r && is_other ops t r
      then c.top_related ++ r.return_id ∷ []
      else c.top_related

  -- One round of the loop, with no branch left.
  count_tests_flat :
      (c : Counters)
      → count_tests ops t r c ≡ record {
        customer_returns = c.customer_returns + one_if (same_customer ops t r);
        customer_approved =
            c.customer_approved + one_if (same_customer ops t r && is_approved ops r);
        agent_decisions = c.agent_decisions + one_if (same_agent ops t r);
        agent_approved = c.agent_approved + one_if (same_agent ops t r && is_approved ops r);
        agent_overrides = c.agent_overrides + one_if (same_agent ops t r && r.manual_override);
        agent_high_value =
            c.agent_high_value
            + one_if (same_agent ops t r && (is_approved ops r && is_high_value ops r));
        pairs = c.pairs + one_if (same_pair ops t r);
        category_returns = c.category_returns + one_if (r.product_category == t.product_category);
        same_reason = c.same_reason + one_if (same_reason_and_agent ops t r);
        similar = c.similar + one_if (is_similar ops t r);
        top_related = if is_similar ops t r then paired c ++ r.return_id ∷ [] else paired c;
      }
  unfolding count_tests
  count_tests_flat c =
      rw (customer_flat c)
        (rw agent_flat (rw pair_flat (rw category_flat (rw reason_flat (rw similar_flat refl)))))

  count_record_tests : (c : Counters) → count_record ops t r c ≡ count_tests ops t r c
  unfolding count_record
  count_record_tests c = refl

-- What the loop has added to each counter.
pub record IsTally {F : Type 0} (ops : FloatOps F) (t : NormalizedReturnRecord F)
    (rs : List (NormalizedReturnRecord F)) (c c' : Counters) : Type 0 where
  pub customer_returns : c'.customer_returns ≡ c.customer_returns + count (same_customer ops t) rs
  pub customer_approved :
      c'.customer_approved
      ≡ c.customer_approved + count (λ r. same_customer ops t r && is_approved ops r) rs
  pub agent_decisions : c'.agent_decisions ≡ c.agent_decisions + count (same_agent ops t) rs
  pub agent_approved :
      c'.agent_approved ≡ c.agent_approved + count (λ r. same_agent ops t r && is_approved ops r) rs
  pub agent_overrides :
      c'.agent_overrides
      ≡ c.agent_overrides + count (λ r. same_agent ops t r && r.manual_override) rs
  pub agent_high_value :
      c'.agent_high_value
      ≡ c.agent_high_value
        + count (λ r. same_agent ops t r && (is_approved ops r && is_high_value ops r)) rs
  pub pairs : c'.pairs ≡ c.pairs + count (same_pair ops t) rs
  pub category_returns :
      c'.category_returns
      ≡ c.category_returns + count (λ r. r.product_category == t.product_category) rs
  pub same_reason : c'.same_reason ≡ c.same_reason + count (same_reason_and_agent ops t) rs
  pub similar : c'.similar ≡ c.similar + count (is_similar ops t) rs

-- A counter after one round and those that follow.
tally-cons :
    {A : Type 0} (p : A → Bool) (x : A) (xs : List A) (before after final : ℕ)
    → after ≡ before + one_if (p x)
    → final ≡ after + count p xs
    → final ≡ before + count p (x ∷ xs)
tally-cons p x xs before after final h k = ground arith

module _ {F : Type 0} (ops : FloatOps F) (t : NormalizedReturnRecord F) where
  -- The loop counts: each counter grows by the number of records that pass its test.
  pub count_records-IsTally :
      (rs : List (NormalizedReturnRecord F)) (c : Counters)
      → IsTally ops t rs c (count_records ops t rs c)
  unfolding count_records
  count_records-IsTally [] c = ground arith
  count_records-IsTally (r ∷ rs) c =
      let ih = count_records-IsTally rs (count_record ops t r c) in
      let flat = count_record_tests ops t r c ∙ count_tests_flat ops t r c in
      record {
        customer_returns =
            tally-cons _ r rs _ _ _ (ap (λ (k : Counters). k.customer_returns) flat)
              ih.customer_returns;
        customer_approved =
            tally-cons _ r rs _ _ _ (ap (λ (k : Counters). k.customer_approved) flat)
              ih.customer_approved;
        agent_decisions =
            tally-cons _ r rs _ _ _ (ap (λ (k : Counters). k.agent_decisions) flat)
              ih.agent_decisions;
        agent_approved =
            tally-cons _ r rs _ _ _ (ap (λ (k : Counters). k.agent_approved) flat)
              ih.agent_approved;
        agent_overrides =
            tally-cons _ r rs _ _ _ (ap (λ (k : Counters). k.agent_overrides) flat)
              ih.agent_overrides;
        agent_high_value =
            tally-cons _ r rs _ _ _ (ap (λ (k : Counters). k.agent_high_value) flat)
              ih.agent_high_value;
        pairs = tally-cons _ r rs _ _ _ (ap (λ (k : Counters). k.pairs) flat) ih.pairs;
        category_returns =
            tally-cons _ r rs _ _ _ (ap (λ (k : Counters). k.category_returns) flat)
              ih.category_returns;
        same_reason =
            tally-cons _ r rs _ _ _ (ap (λ (k : Counters). k.same_reason) flat) ih.same_reason;
        similar = tally-cons _ r rs _ _ _ (ap (λ (k : Counters). k.similar) flat) ih.similar;
      }

  -- The records whose ids may stand among the related returns.
  abbrev pub is_related : NormalizedReturnRecord F → Bool
  is_related r = is_other ops t r && (same_pair ops t r || is_similar ops t r)

  abbrev pub IsRelatedId : List (NormalizedReturnRecord F) → String → Type 0
  IsRelatedId all id = any (λ r. r.return_id == id && is_related r) all ≡ true

  related_step :
      (all : List (NormalizedReturnRecord F)) (r : NormalizedReturnRecord F) (c : Counters)
      → (is_related r ≡ true → IsRelatedId all r.return_id)
      → All (IsRelatedId all) c.top_related
      → All (IsRelatedId all) (count_record ops t r c).top_related
  related_step all r c h a =
      let flat = count_record_tests ops t r c ∙ count_tests_flat ops t r c in
      rw (ap (λ (k : Counters). k.top_related) flat) (
        added (is_similar ops t r) (paired ops t r c) (λ e. h (ground (arith, e)))
          (added (same_pair ops t r && is_other ops t r) c.top_related (λ e. h (ground (arith, e)))
            a))
    where
      added :
          (b : Bool) (ids : List String)
          → (b ≡ true → IsRelatedId all r.return_id)
          → All (IsRelatedId all) ids
          → All (IsRelatedId all) (if b then ids ++ r.return_id ∷ [] else ids)
      added true ids h a = All-append (IsRelatedId all) ids (r.return_id ∷ []) a (h refl, tt)
      added false ids h a = a

  related-All :
      (all rs : List (NormalizedReturnRecord F)) (c : Counters)
      → All (λ r. is_related r ≡ true → IsRelatedId all r.return_id) rs
      → All (IsRelatedId all) c.top_related
      → All (IsRelatedId all) (count_records ops t rs c).top_related
  unfolding count_records
  related-All all [] c h a = a
  related-All all (r ∷ rs) c h a =
      related-All all rs (count_record ops t r c) h.1 (related_step all r c h.0 a)

  each_related :
      (rs : List (NormalizedReturnRecord F))
      → All (λ r. is_related r ≡ true → IsRelatedId rs r.return_id) rs
  each_related [] = tt
  each_related (r ∷ rs) = (
    (λ e. ground (arith, e, eq_refl r.return_id)),
    All-map-of {Q = λ x. is_related x ≡ true → IsRelatedId (r ∷ rs) x.return_id} rs
        (λ x h e. ground (arith, h e)) (each_related rs),
  )

  -- Every id that the loop collects is that of a record related to the target.
  pub count_records-related :
      (rs : List (NormalizedReturnRecord F))
      → All (IsRelatedId rs) (count_records ops t rs no_counts).top_related
  unfolding no_counts
  count_records-related rs = related-All rs rs no_counts (each_related rs) tt
