-- ===== src/Relations/Store/Types.antt =====
-- The state of the relations service and its messages: service.go and models.go of
-- backend/relations-service/internal.
use anti_fraud_detector.Prelude.{ℕ, String, Bool, List}
use anti_fraud_detector.Relations.Domain.{
  NormalizedReturnRecord, ReturnFeaturesResponse, DatasetMetadata,
}
use anti_fraud_detector.Relations.Records.{ServiceError}

pub record DatasetState (F : Type 0) : Type 0 where
  pub metadata : DatasetMetadata
  pub records : List (NormalizedReturnRecord F)
  pub features : List (String × ReturnFeaturesResponse F)
  pub relations : ℕ

pub record RelationsBuiltEvent : Type 0 where
  pub dataset_id : String
  pub job_id : String
  pub records_path : String
  pub records_count : ℕ
  pub relations_count : ℕ
  pub features_count : ℕ
  pub schema_version : String
  pub feature_version : ℕ
  pub published_at : String

pub record PipelineFailedEvent : Type 0 where
  pub dataset_id : String
  pub job_id : String
  pub stage : String
  pub cause : ServiceError
  pub failed_at : String

pub data Message : Type 0 where
  relations_built : RelationsBuiltEvent → Message
  pipeline_failed : PipelineFailedEvent → Message

pub record Service (F : Type 0) : Type 0 where
  pub datasets : List (String × DatasetState F)
  pub sent : List Message

-- time.Now() when a method runs, and whether the publisher takes the event.
pub record Moment : Type 0 where
  pub nanos : ℕ
  pub text : String
  pub takes : Bool

pub record ScoringInputsResponse (F : Type 0) : Type 0 where
  pub dataset_id : String
  pub schema_version : String
  pub feature_version : ℕ
  pub calculated_at : String
  pub records : List (NormalizedReturnRecord F)
  pub features : List (ReturnFeaturesResponse F)

pub record DatasetRebuildResponse : Type 0 where
  pub dataset_id : String
  pub job_id : String
  pub status : String
  pub relations_count : ℕ
  pub features_count : ℕ
  pub records_count : ℕ
  pub schema_version : String
  pub feature_version : ℕ
  pub calculated_at : String

pub record NormalizedDatasetEvent : Type 0 where
  pub dataset_id : String
  pub job_id : String
  pub records_path : String
  pub record_count : ℕ
  pub schema_version : String
