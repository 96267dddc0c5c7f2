-- ===== src/Upload/Repository.antt =====
-- The methods of backend/upload-service/internal/repository/repository.go, a function for each. What
-- uuid.New() and time.Now() give is an argument.
pub mod Rows
pub mod Listing
pub mod Lifecycle
pub mod Transition
pub mod Effects
