-- ===== src/Relations.antt =====
-- backend/relations-service.
pub mod Domain
pub mod Numbers
pub mod Counters
pub mod Features
pub mod Records
pub mod Store
pub mod Related
pub mod Graph
pub mod Summaries
pub mod Defaults
