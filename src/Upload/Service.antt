-- ===== src/Upload/Service.antt =====
-- The operations of backend/upload-service/internal/service that start, retry, update, list and
-- archive analyses.
pub mod Start
pub mod Once
pub mod Manage
pub mod Listing
pub mod Preview
