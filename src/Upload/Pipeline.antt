-- ===== src/Upload/Pipeline.antt =====
-- backend/upload-service/internal/service/orchestration.go: a pipeline event moves one job.
-- json.Unmarshal and uuid.Parse are arguments. The repository is the one of Upload/Repository.antt,
-- so it supports event transitions. Logging is left out.
pub mod Handler
pub mod Progress
pub mod Trace
