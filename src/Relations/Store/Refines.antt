-- ===== src/Relations/Store/Refines.antt =====
-- The service of backend/relations-service/internal/service/service.go as a map from dataset ids to what
-- was last accepted for them: after any sequence of events and rebuilds its answers are those of the map.
use anti_fraud_detector.Prelude.{
  String, false, ◌≡◌, refl, ap, subst, ◌∙◌, ◌⊎◌, inl, inr, Option, none, some, List, [], ◌∷◌, ◌==◌,
  if◌then◌else◌, text_cases, Bool-cases, arith,
}
use anti_fraud_detector.Prelude.Dict.{lookup, insert, lookup-insert}
use anti_fraud_detector.Prelude.Floats.{FloatOps}
use anti_fraud_detector.Relations.Domain.{NormalizedReturnRecord, default_dataset_id}
use anti_fraud_detector.Relations.Records.{Result, ok, err, validate_records}
use anti_fraud_detector.Relations.Features.{build_feature_cache}
use anti_fraud_detector.Relations.Store.{
  Service, DatasetState, Moment, NormalizedDatasetEvent, or_text, new_state, replace_dataset,
  require_dataset, get_scoring_inputs, rebuild_dataset, process_normalized_dataset, load_dataset,
  finish_dataset, publish_relations_built, publish_pipeline_failed,
}
use anti_fraud_detector.Relations.Store.Create.{Options, new_service}
use anti_fraud_detector.Relations.Store.Spec.{
  Entry, Store, Operation, process, rebuild, accepts, put, run_store, run_service, state_of,
  scoring_answer, new_entry, new_store,
}
use anti_fraud_detector.Relations.Store.Laws.{
  lookup-cache, features_in-All, validate_records-IsDistinct,
}

module _ {F : Type 0} (ops : FloatOps F) where
  abbrev shown : String → Option (Entry F) → Option (DatasetState F)
  shown k none = none
  shown k (some e) = some (state_of ops k e)

  abbrev IsValid : String → Option (Entry F) → Type 0
  IsValid k none = Unit
  IsValid k (some e) = validate_records k e.records ≡ ok tt

  -- The service holds, for each dataset, the state of its entry, and the entry is valid.
  pub record Holds (s : Service F) (store : Store F) : Type 0 where
    pub held : (k : String) → lookup k s.datasets ≡ shown k (store k)
    pub valid : (k : String) → IsValid k (store k)

  -- What an event does to the datasets of the service.
  processed :
      (event : NormalizedDatasetEvent) (moment : Moment)
      (loaded : Result (List (NormalizedReturnRecord F))) (s : Service F)
      → (((accepts event moment loaded) ≡ none)
          × ((process_normalized_dataset ops event moment loaded s).1.datasets ≡ s.datasets))
        ⊎ ((e : Entry F) × (accepts event moment loaded ≡ some e)
            × (validate_records event.dataset_id e.records ≡ ok tt)
            × ((process_normalized_dataset ops event moment loaded s).1.datasets
                ≡ insert event.dataset_id (state_of ops event.dataset_id e) s.datasets))
  unfolding process_normalized_dataset load_dataset finish_dataset replace_dataset
      publish_relations_built publish_pipeline_failed
  processed event moment (err e) s = inl (refl, ground arith)
  processed event moment (ok records) s = ground arith

  rebuilt :
      (dataset_id : String) (moment : Moment) (s : Service F)
      → (rebuild_dataset dataset_id moment s).1.datasets ≡ s.datasets
  unfolding rebuild_dataset publish_relations_built require_dataset
  rebuilt dataset_id moment s = ground arith

  put-held :
      (key : String) (e : Entry F) (s : Service F) (store : Store F)
      → Holds s store
      → (k : String)
      → lookup k (insert key (state_of ops key e) s.datasets) ≡ shown k (put key (some e) store k)
  put-held key e s store h k = elim (text_cases key k) [
    | inl (same, t) ↦
        lookup-insert key k (state_of ops key e) s.datasets
        ∙ rw t (ap (λ name. some (state_of ops name e)) same)
    | inr other ↦ lookup-insert key k (state_of ops key e) s.datasets ∙ rw other (h.held k)
  ]

  put-IsValid :
      (key : String) (e : Entry F) (store : Store F)
      → validate_records key e.records ≡ ok tt
      → ((k : String) → IsValid k (store k))
      → (k : String) → IsValid k (put key (some e) store k)
  put-IsValid key e store v h k = elim (text_cases key k) [
    | inl (same, t) ↦ rw t (subst (λ name. validate_records name e.records ≡ ok tt) same v)
    | inr other ↦ rw other (h k)
  ]

  process-Holds :
      (event : NormalizedDatasetEvent) (moment : Moment)
      (loaded : Result (List (NormalizedReturnRecord F))) (s : Service F) (store : Store F)
      → Holds s store
      → Holds
          (process_normalized_dataset ops event moment loaded s).1
          (put event.dataset_id (accepts event moment loaded) store)
  process-Holds event moment loaded s store h = elim (processed event moment loaded s) [
    | inl (nothing, same) ↦
        rw nothing (record { held = λ k. ap (lookup k) same ∙ h.held k; valid = h.valid })
    | inr (e, accepted, v, added) ↦ rw accepted (record {
      held = λ k. ap (lookup k) added ∙ put-held event.dataset_id e s store h k;
      valid = put-IsValid event.dataset_id e store v h.valid;
    })
  ]

  run-Holds :
      (os : List (Operation F)) (s : Service F) (store : Store F)
      → Holds s store
      → Holds (run_service ops os s) (run_store os store)
  unfolding run_service run_store
  run-Holds [] s store h = h
  run-Holds (process event moment loaded ∷ rest) s store h =
      run-Holds rest _ _ (process-Holds event moment loaded s store h)
  run-Holds (rebuild dataset_id moment ∷ rest) s store h = run-Holds rest _ store (record {
    held = λ k. ap (lookup k) (rebuilt dataset_id moment s) ∙ h.held k;
    valid = h.valid;
  })

  entry_answer :
      (d k : String) (o : Option (Entry F)) (s : Service F)
      → or_text d default_dataset_id ≡ k
      → lookup k s.datasets ≡ shown k o
      → IsValid k o
      → get_scoring_inputs d s ≡ scoring_answer ops k o
  unfolding get_scoring_inputs require_dataset new_state build_feature_cache
  entry_answer d k none s named found v = ground (arith, named, found)
  entry_answer d k (some e) s named found v =
      let listed = features_in-All ops k e.moment.nanos e.moment.text e.records _ e.records (
        lookup-cache ops k e.moment.nanos e.moment.text e.records e.records []
          (validate_records-IsDistinct k e.records v)) in
      ground (arith, named, found, listed)

  named_dataset : (d : String) → (or_text d default_dataset_id == "") ≡ false
  named_dataset d = elim (Bool-cases (d == "")) [
    | inl blank ↦ ap (λ b. (if b then default_dataset_id else d) == "") blank
    | inr named ↦ ap (λ b. (if b then default_dataset_id else d) == "") named ∙ named
  ]

  started :
      (options : Options) (moment : Moment) (loaded : Result (List (NormalizedReturnRecord F)))
      → let k = or_text options.dataset_id default_dataset_id in
        ((new_entry ops options moment loaded ≡ none)
          × ((new_service ops options moment loaded).datasets ≡ []))
        ⊎ ((e : Entry F) × (new_entry ops options moment loaded ≡ some e)
            × (validate_records k e.records ≡ ok tt)
            × ((new_service ops options moment loaded).datasets ≡ insert k (state_of ops k e) []))
  unfolding new_service load_dataset replace_dataset
  started options moment (err e) = ground (arith, named_dataset options.dataset_id)
  started options moment (ok records) = ground (arith, named_dataset options.dataset_id)

  absent : (i : String) → lookup {Value = DatasetState F} i [] ≡ none
  unfolding lookup
  absent i = refl

  abbrev no_datasets : Service F
  no_datasets = record { datasets = []; sent = [] }

  empty-Holds : Holds no_datasets (λ j. none)
  empty-Holds = record { held = absent; valid = λ i. tt }

  new_service-Holds :
      (options : Options) (moment : Moment) (loaded : Result (List (NormalizedReturnRecord F)))
      → Holds (new_service ops options moment loaded) (new_store ops options moment loaded)
  new_service-Holds options moment loaded =
      let k = or_text options.dataset_id default_dataset_id in
      elim (started options moment loaded) [
        | inl (nothing, same) ↦
            rw nothing (record { held = λ i. ap (lookup i) same ∙ absent i; valid = λ i. tt })
        | inr (e, held, v, added) ↦ rw held (record {
          held = λ i. ap (lookup i) added ∙ put-held k e no_datasets (λ j. none) empty-Holds i;
          valid = put-IsValid k e (λ j. none) v (λ i. tt);
        })
      ]

  -- After any sequence of events and rebuilds, a service that was created with any options answers the
  -- scoring service from the store that the accepted events lead to: with the records that were last
  -- accepted for the dataset and the features calculated from them, or that there is no dataset.
  pub run-refines :
      (options : Options) (moment : Moment) (loaded : Result (List (NormalizedReturnRecord F)))
      (os : List (Operation F)) (d : String)
      → let k = or_text d default_dataset_id in
        get_scoring_inputs d (run_service ops os (new_service ops options moment loaded))
        ≡ scoring_answer ops k (run_store os (new_store ops options moment loaded) k)
  run-refines options moment loaded os d =
      let s = new_service ops options moment loaded in
      let store = new_store ops options moment loaded in
      let after = run-Holds os s store (new_service-Holds options moment loaded) in
      let k = or_text d default_dataset_id in
      entry_answer d k (run_store os store k) (run_service ops os s) refl (after.held k)
        (after.valid k)
