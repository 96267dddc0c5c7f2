-- ===== src/Upload/Ingestion/Receive/Later.antt =====
-- From an upload to its normalization: UploadDatasetDetailed, ConfigureUploadLimits and
-- normalizeUploadedObject of backend/upload-service/internal/service.
use anti_fraud_detector.Prelude.{ℕ, suc, ◌≡◌, some, List, [], ◌∷◌, take}
use anti_fraud_detector.Prelude.Int.{ℤ}
use anti_fraud_detector.Prelude.Dict.{lookup}
use anti_fraud_detector.Upload.Db.{Db}
use anti_fraud_detector.Upload.Ingestion.Issues.{ValidationIssue}
use anti_fraud_detector.Upload.Ingestion.Receive.{
  Request, Machine, Limits, default_limits, configure_upload_limits, World, clean, inspect,
}

-- The limits after any number of configurations.
abbrev pub configured : List (ℤ × ℤ × ℤ) → Limits
configured [] = default_limits
configured ((size, rows, errors) ∷ settings) =
    configure_upload_limits size rows errors (configured settings)

module _ {F : Type 0} (machine : Machine F) (limits : Limits) (request : Request) where
  -- What a stored upload says of its inspection and of its object.
  record IsKept (w' : World) : Type 0 where
    rows : ℕ
    warnings : List ValidationIssue
    inspected : inspect machine limits request ≡ clean rows warnings
    found :
        lookup (machine.object_name machine.dataset_id) w'.objects
        ≡ some (take (suc limits.max_file_size) request.body)
