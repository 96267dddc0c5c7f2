-- ===== src/Upload/Status.antt =====
-- The status view of a job, in backend/upload-service/internal/service/service.go.
pub mod View
pub mod Stages
