-- ===== src/Tests.antt =====
-- Runs of the models of backend/upload-service and backend/relations-service on small inputs.
mod Samples
mod UploadRuns
mod NormalizationRuns
mod IngestionRuns
mod ConsumerRuns
mod ListingRuns
mod RelationRuns
mod StoreRuns
mod WorkerRuns
mod ConfigRuns
