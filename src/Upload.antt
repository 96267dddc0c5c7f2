-- ===== src/Upload.antt =====
-- backend/upload-service.
pub mod Domain
pub mod Db
pub mod Repository
pub mod Pipeline
pub mod Invariant
pub mod Status
pub mod Service
pub mod Normalization
pub mod Ingestion
pub mod Consumer
pub mod Config
