-- ===== src/Relations/Numbers.antt =====
-- ratio, ratioFloat, round, maxInt, strongestRelationType, uniqueStrings and limitStrings of
-- backend/relations-service/internal/service/service.go.
use anti_fraud_detector.Prelude.{
  ℕ, ◌≤◌, ◌<◌, String, Bool, ◌≡◌, refl, sym, ap, ◌∙◌, inl, inr, List, [], ◌∷◌, ◌==◌, ltb, leb, eqb,
  if◌then◌else◌, length, take, All, All-take, length-take-le, arith, Bool-cases, ◌||◌,
}
use anti_fraud_detector.Prelude.Floats.{FloatOps, round_cents}
use anti_fraud_detector.Prelude.Sorting.{sort_stable, insert, All-sort_stable}
use anti_fraud_detector.Prelude.Dict.{dedupe}
use anti_fraud_detector.Prelude.Text.{text_lt}

module _ {F : Type 0} (ops : FloatOps F) where
  unfoldable pub ratio : ℕ → ℕ → F
  ratio numerator denominator =
      if eqb denominator 0
      then ops.lit 0
      else round_cents ops (ops.div (ops.of_int numerator) (ops.of_int denominator))

  unfoldable pub ratio_float : F → F → F
  ratio_float numerator denominator =
      if ops.eq denominator (ops.lit 0)
      then ops.lit 0
      else round_cents ops (ops.div numerator denominator)

max_from : ℕ → List ℕ → ℕ
max_from m [] = m
max_from m (v ∷ vs) = max_from (if ltb m v then v else m) vs

-- maxInt of counts, which are not negative.
unfoldable pub max_int : List ℕ → ℕ
unfolding max_from
max_int values = max_from 0 values

pub record Candidate : Type 0 where
  pub name : String
  pub count : ℕ

abbrev more : Candidate → Candidate → Bool
more a b = ltb b.count a.count

candidates : ℕ → ℕ → ℕ → ℕ → List Candidate
candidates customer agent pair reason =
    record { name = "CUSTOMER_RETURN_PATTERN"; count = customer }
    ∷ record { name = "AGENT_DECISION_PATTERN"; count = agent }
    ∷ record { name = "CUSTOMER_AGENT_PAIR"; count = pair }
    ∷ record { name = "SAME_REASON_PATTERN"; count = reason }
    ∷ []

first_name : List Candidate → String
first_name [] = ""
first_name (c ∷ cs) = c.name

unfoldable pub strongest_relation_type : ℕ → ℕ → ℕ → ℕ → String
unfolding first_name candidates sort_stable
strongest_relation_type customer agent pair reason =
    first_name (sort_stable more (candidates customer agent pair reason))

unfoldable pub unique_strings : List String → List String
unique_strings values = sort_stable text_lt (dedupe (λ s. s) [] values)

unfoldable pub limit_strings : List String → ℕ → List String
limit_strings values limit =
    if leb limit 0 || leb (length values) limit then values else take limit values

-- The count that a relation type stands for.
abbrev pub count_of : ℕ → ℕ → ℕ → ℕ → String → ℕ
count_of customer agent pair reason name =
    if name == "CUSTOMER_RETURN_PATTERN"
    then customer
    else if name == "AGENT_DECISION_PATTERN"
    then agent
    else if name == "CUSTOMER_AGENT_PAIR"
    then pair
    else if name == "SAME_REASON_PATTERN"
    then reason
    else 0

-- The first of a list, and the greatest count in it.
first_count : List Candidate → ℕ
first_count [] = 0
first_count (c ∷ cs) = c.count

max_count : List Candidate → ℕ
max_count [] = 0
max_count (c ∷ cs) = let rest = max_count cs in if ltb rest c.count then c.count else rest

first_count-insert :
    (c : Candidate) (l : List Candidate)
    → first_count l ≡ max_count l
    → (first_count (insert more c l) ≡ max_count (c ∷ l))
      × (max_count (insert more c l) ≡ max_count (c ∷ l))
unfolding first_count max_count insert
first_count-insert c [] h = ground arith
first_count-insert c (d ∷ []) h = ground arith
first_count-insert c (d ∷ e ∷ l) h = ground (arith, max_count-insert c (e ∷ l))
  where
    max_count-insert :
        (c : Candidate) (l : List Candidate) → max_count (insert more c l) ≡ max_count (c ∷ l)
    max_count-insert c [] = refl
    max_count-insert c (d ∷ l) = ground (arith, max_count-insert c l)

first_count-sort_stable :
    (l : List Candidate)
    → (first_count (sort_stable more l) ≡ max_count l)
      × (max_count (sort_stable more l) ≡ max_count l)
unfolding sort_stable max_count first_count
first_count-sort_stable [] = (refl, refl)
first_count-sort_stable (c ∷ l) =
    let (first, same) = first_count-sort_stable l in
    let (first', same') = first_count-insert c (sort_stable more l) (first ∙ sym same) in
    let step = ap (λ (m : ℕ). if ltb m c.count then c.count else m) same in
    (first' ∙ step, same' ∙ step)

max_count-candidates :
    (customer agent pair reason : ℕ)
    → max_count (candidates customer agent pair reason)
      ≡ max_int (customer ∷ agent ∷ pair ∷ reason ∷ [])
unfolding max_count candidates max_int
max_count-candidates customer agent pair reason = ground arith

-- The strongest relation is one whose count is the greatest of the four, which is the cluster size.
pub strongest_relation_type-max :
    (customer agent pair reason : ℕ)
    → count_of customer agent pair reason (strongest_relation_type customer agent pair reason)
      ≡ max_int (customer ∷ agent ∷ pair ∷ reason ∷ [])
unfolding strongest_relation_type first_count
strongest_relation_type-max customer agent pair reason =
    let all = candidates customer agent pair reason in
    named (sort_stable more all)
      (All-sort_stable more IsNamed all (refl, (refl, (refl, (refl, tt)))))
    ∙ ((first_count-sort_stable all).0 ∙ max_count-candidates customer agent pair reason)
  where
    IsNamed : Candidate → Type 0
    IsNamed c = count_of customer agent pair reason c.name ≡ c.count

    named :
        (l : List Candidate)
        → All IsNamed l
        → count_of customer agent pair reason (first_name l) ≡ first_count l
    named [] h = refl
    named (c ∷ cs) h = h.0

pub max_int_bounds :
    (a b c d : ℕ) → let m = max_int (a ∷ b ∷ c ∷ d ∷ []) in (a ≤ m) × (b ≤ m) × (c ≤ m) × (d ≤ m)
unfolding max_int
max_int_bounds a b c d = ground arith

pub length-limit_strings-le :
    (values : List String) (limit : ℕ) → 0 < limit → length (limit_strings values limit) ≤ limit
unfolding limit_strings
length-limit_strings-le values limit h = ground (arith, length-take-le limit values)

pub limit_strings-All :
    (P : String → Type 0) (values : List String) (limit : ℕ)
    → All P values
    → All P (limit_strings values limit)
unfolding limit_strings
limit_strings-All P values limit h = elim (Bool-cases (leb limit 0 || leb (length values) limit)) [
  | inl e ↦ rw e h
  | inr e ↦ rw e (All-take P limit values h)
]
