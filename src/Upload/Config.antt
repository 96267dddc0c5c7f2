-- ===== src/Upload/Config.antt =====
-- The configuration of backend/upload-service/config/config.go. The environment is a map from names to
-- values; strconv and time.ParseDuration are arguments. A failing read of the file is left out.
pub mod Env
pub mod Load
