-- ===== src/Upload/Domain.antt =====
-- The statuses and rows of backend/upload-service/internal/domain/models.go. A UUID is a number; an
-- instant of time is a number; a nil pointer is `none`.
use anti_fraud_detector.Prelude.{ℕ, String, Bool, ◌||◌, Option, List, [], ◌∷◌, ◌==◌, any}

abbrev pub Uuid : Type 0
Uuid = ℕ

abbrev pub Time : Type 0
Time = ℕ

abbrev pub uploaded : String
uploaded = "UPLOADED"

abbrev pub normalizing : String
normalizing = "NORMALIZING"

abbrev pub normalized : String
normalized = "NORMALIZED"

abbrev pub building_relations : String
building_relations = "BUILDING_RELATIONS"

abbrev pub scoring : String
scoring = "SCORING"

abbrev pub completed : String
completed = "COMPLETED"

abbrev pub failed : String
failed = "FAILED"

pub record Dataset : Type 0 where
  pub id : Uuid
  pub name : String
  pub original_filename : String
  pub status : String
  pub created_at : Time
  pub archived_at : Option Time

pub record UploadedFile : Type 0 where
  pub id : Uuid
  pub dataset_id : Uuid
  pub file_path : String
  pub file_type : String
  pub uploaded_at : Time
  pub size_bytes : ℕ
  pub row_count : ℕ
  pub warnings : List String

pub record AnalysisJob : Type 0 where
  pub id : Uuid
  pub dataset_id : Uuid
  pub status : String
  pub current_step : String
  pub failed_stage : String
  pub error : String
  pub result_ready : Bool
  pub retry_of_job_id : Option Uuid
  pub created_at : Time
  pub updated_at : Time
  pub started_at : Option Time
  pub completed_at : Option Time
  pub failed_at : Option Time

pub record AuditEvent : Type 0 where
  pub dataset_id : Uuid
  pub job_id : Option Uuid
  pub event_type : String
  pub from_status : String
  pub to_status : String
  pub message : String
  pub created_at : Time

abbrev pub ordered_pipeline_statuses : List String
ordered_pipeline_statuses =
    uploaded ∷ normalizing ∷ normalized ∷ building_relations ∷ scoring ∷ completed ∷ []

abbrev pub allowed_analysis_statuses : List String
allowed_analysis_statuses =
    uploaded ∷ normalizing ∷ normalized ∷ building_relations ∷ scoring ∷ completed ∷ failed ∷ []

-- `for _, candidate := range candidates { if candidate == status { return true } }`.
abbrev pub among : String → List String → Bool
among status candidates = any (λ candidate. candidate == status) candidates

unfoldable pub is_allowed_status : String → Bool
is_allowed_status status = among status allowed_analysis_statuses

-- status NOT IN ('COMPLETED', 'FAILED') is false.
abbrev pub is_terminal : String → Bool
is_terminal status = status == completed || status == failed
