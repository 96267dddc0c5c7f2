-- ===== src/Relations/Store/Create.antt =====
-- NewService, NewServiceWithRecords, fallbackTestDataset and Health of
-- backend/relations-service/internal/service/service.go. The records of the configured path are an argument.
use anti_fraud_detector.Prelude.{
  ℕ, String, Bool, false, true, List, [], ◌∷◌, ◌==◌, not, if◌then◌else◌, length,
}
use anti_fraud_detector.Prelude.Int.{pos}
use anti_fraud_detector.Prelude.Floats.{FloatOps}
use anti_fraud_detector.Relations.Domain.{
  NormalizedReturnRecord, default_dataset_id, default_schema_version, approved_decision,
}
use anti_fraud_detector.Relations.Records.{Result}
use anti_fraud_detector.Relations.Store.{Service, Moment, or_text, replace_dataset, load_dataset}

pub record Options : Type 0 where
  pub dataset_id : String
  pub dataset_path : String
  pub allow_demo_fallback : Bool

module _ {F : Type 0} (ops : FloatOps F) where
  demo_return :
      String
      → String
      → String
      → String
      → String
      → String
      → String
      → F
      → F
      → Bool
      → ℕ
      → NormalizedReturnRecord F
  demo_return return_id order_id agent_id category reason decision_id decision refund order override
        minutes =
      record {
        dataset_id = default_dataset_id;
        return_id = return_id;
        customer_id = "customer_880";
        order_id = order_id;
        support_agent_id = agent_id;
        product_category = category;
        return_reason = reason;
        decision_id = decision_id;
        decision_status = decision;
        refund_amount = refund;
        order_amount = order;
        evidence_provided = false;
        manual_override = override;
        decision_time_minutes = pos minutes;
        timestamp = "";
      }

  unfoldable pub fallback_test_dataset : List (NormalizedReturnRecord F)
  unfolding demo_return
  fallback_test_dataset =
      demo_return "return_3041" "order_9101" "agent_017" "electronics" "item_not_as_described"
        "decision_7001" approved_decision (ops.of_int 420) (ops.of_int 520) true 65
      ∷ demo_return "return_3006" "order_9066" "agent_017" "electronics" "item_not_as_described"
          "decision_6966" approved_decision (ops.of_int 310) (ops.of_int 340) false 73
      ∷ demo_return "return_3022" "order_9082" "agent_019" "apparel" "wrong_size" "decision_6982"
          "REJECTED" (ops.of_int 0) (ops.lit 9550) false 103
      ∷ []

  abbrev empty_service : Service F
  empty_service = record { datasets = []; sent = [] }

  unfoldable pub new_service :
      Options → Moment → Result (List (NormalizedReturnRecord F)) → Service F
  unfolding load_dataset
  new_service options moment loaded =
      let dataset_id = or_text options.dataset_id default_dataset_id in
      if not (options.dataset_path == "")
      then (load_dataset ops dataset_id options.dataset_path default_schema_version 0 moment loaded
          empty_service).1
      else if options.allow_demo_fallback
      then (replace_dataset ops dataset_id "embedded-demo-fallback" default_schema_version moment
          fallback_test_dataset empty_service).1
      else empty_service

  abbrev first_dataset_id : List (NormalizedReturnRecord F) → String
  first_dataset_id [] = default_dataset_id
  first_dataset_id (r ∷ rs) = or_text r.dataset_id default_dataset_id

  unfoldable pub new_service_with_records : Moment → List (NormalizedReturnRecord F) → Service F
  new_service_with_records moment records =
      (replace_dataset ops (first_dataset_id records) "test-records" default_schema_version moment
        records empty_service).1

pub record Health : Type 0 where
  pub status : String
  pub service : String
  pub datasets_count : ℕ

unfoldable pub health : {F : Type 0} → Service F → Health
health s = record {
  status = "UP";
  service = "relations-service";
  datasets_count = length s.datasets;
}
