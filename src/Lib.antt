-- ===== src/Lib.antt =====
-- Anti-Fraud-Detector: the two Go services that take a refund dataset from its upload to the features
-- that the scoring service reads.
--
-- The upload service (backend/upload-service) keeps datasets, files, analysis jobs and an audit
-- trail in PostgreSQL. It starts a job by claiming it and publishing dataset.uploaded, and moves the
-- job along when an event of the pipeline arrives. The relations service (backend/relations-service)
-- loads a normalized dataset, calculates features for each return from all of them, announces the
-- result, and answers questions about related returns, graphs, customers and agents.
--
-- Prelude: what the program uses of Go's packages strings, sort, math and strconv, maps as
--   association lists, and the lemmas that both services share. Stable sorting is an insertion
--   sort; float64 is an abstract type with its operations, and a literal is given in hundredths.
-- Upload/Domain, Upload/Db: the statuses of internal/domain/models.go and the tables of
--   migrations, with transactions. A connection is a function that says which statements fail; a
--   transaction that fails leaves the tables as they were, also when it is the COMMIT that fails.
-- Upload/Repository: the methods of internal/repository/repository.go (Rows, Lifecycle), and
--   what they do to the tables (Transition, Effects); its lists and details are in Listing.
-- Upload/Pipeline: HandlePipelineEvent of internal/service/orchestration.go (Handler), the order
--   of the statuses (Progress), and sequences of deliveries (Trace).
-- Upload/Service: StartAnalysis, RetryAnalysis, ArchiveDataset, GetAnalysisStatus and
--   UpdateAnalysisStatus of internal/service/service.go and management.go (Start, Once, Manage),
--   ListDatasets and GetDatasetDetails (Listing, and its pages in Listing/Pages), and the preview
--   of a file (Preview). The broker is the list of the events that it took.
-- Upload/Status: buildAnalysisStatusResponse and its stages.
-- Upload/Normalization: validateHeaders and parseFlexibleFloat of internal/service/service.go
--   (Headers, Fields), and normalizeCSVRow and the loop of normalizeUploadedObject of
--   normalization.go (Fields, Rows, with their laws in child modules). The file is the list of the
--   rows that are written to it. HandleDatasetUploaded and its events are in Worker.
-- Upload/Ingestion: internal/service/ingestion.go: names and content types (Names), the issues
--   that a check notes (Issues), validateCSVStream (Rows, with what each check keeps, how many
--   issues there are, and what an accepted source is like), what an accepted source normalizes to
--   (Normalizes), and UploadDatasetDetailed with the object store and the transaction (Receive). The
--   bucket is a map from names to contents.
-- Upload/Consumer: process and headerInt of pkg/rabbitmq/consumer.go, and an event with all its
--   retries (attempts). The handler is a function from the number of an attempt to its answer.
-- Upload/Config: config/config.go, with the environment as a map and a file that may be missing or
--   fail to open or to be read (Env, Load).
-- Upload/Invariant: the transactions as steps (Steps), the invariant of the tables (Keep, Changes),
--   and how far along a job is before and after them (Onward). Two transactions
--   are not steps: UpdateAnalysisStatusWithError, by which an administrator may set any status,
--   and CreateAnalysisJob, which StartAnalysis calls for a dataset with no job.
-- Relations: internal/service/service.go of the relations service: its records (Domain),
--   arithmetic and small helpers (Numbers), calculateFeatures (Counters, Features), the reading of
--   CSV rows (Records), the datasets it holds (Store, with its types in Store/Types,
--   the constructors in Store/Create, and the abstract store in Store/Spec and Store/Refines),
--   relatedReturns (Related), GetGraphProjection (Graph, with its nodes and edges in
--   Graph/Elements), the summaries of customers and agents (Summaries), and the lookups of the
--   default dataset (Defaults). A method runs under the mutex and is one step.
-- Tests: the models on small inputs.
--
-- Parameters stand for what is not in the repository: JSON decoding, uuid.Parse, the parsers of
-- strconv and time, the case mapping outside ASCII, float64, the order in which a map is visited,
-- the clock, fresh ids, the CSV reader, the detection of content types, and the failures of the
-- operating system, the object store, the database and the broker. The relations service is taken
-- to have a publisher. The printing of a number uses fuel, one more than the number, which is enough
-- for its digits, and so does the sequence of the attempts of an event, one more than the limit of
-- retries, which is enough for its end. A count is not negative and is taken not to overflow.
--
-- Not modelled: the HTTP handlers with the decoding of requests, retryDependency and the start of the
-- processes, the configuration of the relations service, the AMQP and MinIO clients, migrations and
-- logging; validateUploadedCSV, validateNumericField and loadRecords, which only tests call; the
-- scoring service, the gateway and the frontend, which are in other languages.
pub mod Prelude
pub mod Upload
pub mod Relations
mod Tests
