-- ===== src/Upload/Ingestion.antt =====
-- The upload of a CSV file in backend/upload-service/internal/service/ingestion.go.
pub mod Names
pub mod Issues
pub mod Rows
pub mod Normalizes
pub mod Receive
