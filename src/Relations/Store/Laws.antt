-- ===== src/Relations/Store/Laws.antt =====
-- What is read back from a dataset that was stored.
use anti_fraud_detector.Prelude.{
  ℕ, String, false, ◌≡◌, ◌⊎◌, refl, sym, ◌∙◌, List, [], ◌∷◌, ◌==◌, map, All, All-map-of, some,
  arith, eq_iff, eq_refl, inl, inr, text_cases,
}
use anti_fraud_detector.Prelude.Dict.{lookup, insert, lookup-insert, contains, IsDistinct}
use anti_fraud_detector.Prelude.Floats.{FloatOps}
use anti_fraud_detector.Relations.Domain.{
  NormalizedReturnRecord, ReturnFeaturesResponse, default_schema_version,
}
use anti_fraud_detector.Relations.Features.{features_response, cache_records}
use anti_fraud_detector.Relations.Records.{Result, ok, validate_each, validate_records}
use anti_fraud_detector.Relations.Store.{
  Service, Moment, DatasetState, or_text, new_state, replace_dataset, features_in,
}

module _ {F : Type 0} where
  abbrev pub id_of : NormalizedReturnRecord F → String
  id_of r = r.return_id

  -- Records that pass are of the dataset, have ids, and no id comes twice or was seen.
  validated :
      (d : String) (seen : List String) (rs : List (NormalizedReturnRecord F))
      → validate_each d seen rs ≡ ok tt
      → IsDistinct id_of rs × All (λ r. contains r.return_id seen ≡ false) rs
  unfolding validate_each
  validated d seen [] h = (tt, tt)
  validated d seen (r ∷ rs) h =
      let (distinct, fresh) = validated d (r.return_id ∷ seen) rs (ground arith) in
      (
        (
          All-map-of {Q = λ x. (x.return_id == r.return_id) ≡ false} rs
              (λ x f.
                ground (arith, eq_iff r.return_id x.return_id, eq_iff x.return_id r.return_id, f))
              fresh,
          distinct,
        ),
        (
          ground arith,
          All-map-of {Q = λ x. contains x.return_id seen ≡ false} rs (λ x f. ground (arith, f))
              fresh,
        ),
      )

  -- In records that were accepted no return id comes twice.
  pub validate_records-IsDistinct :
      (d : String) (rs : List (NormalizedReturnRecord F))
      → validate_records d rs ≡ ok tt
      → IsDistinct id_of rs
  unfolding validate_records
  validate_records-IsDistinct d [] h = tt
  validate_records-IsDistinct d (r ∷ rs) h = (validated d [] (r ∷ rs) h).0

module _ {F : Type 0} (ops : FloatOps F) (d : String) (version : ℕ) (now : String)
    (all : List (NormalizedReturnRecord F)) where
  abbrev response : NormalizedReturnRecord F → ReturnFeaturesResponse F
  response = features_response ops d version now all

  abbrev cache :
      List (NormalizedReturnRecord F)
      → List (String × ReturnFeaturesResponse F)
      → List (String × ReturnFeaturesResponse F)
  cache = cache_records ops d version now all

  lookup-cache_absent :
      (k : String) (rs : List (NormalizedReturnRecord F))
      (m : List (String × ReturnFeaturesResponse F))
      → All (λ r. (r.return_id == k) ≡ false) rs
      → lookup k (cache rs m) ≡ lookup k m
  unfolding cache_records
  lookup-cache_absent k [] m h = refl
  lookup-cache_absent k (r ∷ rs) m h =
      lookup-cache_absent k rs (insert r.return_id (response r) m) h.1
      ∙ (lookup-insert r.return_id k (response r) m ∙ rw h.0)

  pub lookup-cache :
      (rs : List (NormalizedReturnRecord F)) (m : List (String × ReturnFeaturesResponse F))
      → IsDistinct id_of rs
      → All (λ r. lookup r.return_id (cache rs m) ≡ some (response r)) rs
  unfolding cache_records
  lookup-cache [] m h = tt
  lookup-cache (r ∷ rs) m h = (
    lookup-cache_absent r.return_id rs (insert r.return_id (response r) m) h.0
        ∙ (lookup-insert r.return_id r.return_id (response r) m ∙ rw eq_refl),
    lookup-cache rs (insert r.return_id (response r) m) h.1,
  )

  pub features_in-All :
      (m : List (String × ReturnFeaturesResponse F)) (rs : List (NormalizedReturnRecord F))
      → All (λ r. lookup r.return_id m ≡ some (response r)) rs
      → features_in m rs ≡ ok (map response rs)
  unfolding features_in
  features_in-All m [] h = refl
  features_in-All m (r ∷ rs) h = ground (arith, h.0, features_in-All m rs h.1)

module _ {F : Type 0} (ops : FloatOps F) (d source schema : String) (moment : Moment)
    (records : List (NormalizedReturnRecord F)) (s : Service F) where
  abbrev stored : Result (DatasetState F) × Service F
  stored = replace_dataset ops d source schema moment records s

  -- A dataset other than the one named stays as it is, whether the new one is accepted or refused.
  pub lookup-replace_dataset :
      (k : String) → (lookup k stored.1.datasets ≡ lookup k s.datasets) ⊎ (k ≡ d)
  unfolding replace_dataset
  lookup-replace_dataset k = elim (text_cases d k) [
    | inl (e, t) ↦ inr (sym e)
    | inr ne ↦ inl (
        ground (
          arith,
          ne,
          lookup-insert d k
              (new_state ops d source (or_text schema default_schema_version) moment records)
              s.datasets,
        ))
  ]
