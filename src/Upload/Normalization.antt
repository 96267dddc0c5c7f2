-- ===== src/Upload/Normalization.antt =====
-- The normalization of an uploaded CSV file in backend/upload-service/internal/service/normalization.go,
-- with the header check of service.go. What encoding/csv reads is a list of lines; the file that is
-- written is the list of its rows, and the temporary file and its renaming are left out.
pub mod Headers
pub mod Fields
pub mod Rows
pub mod Worker
