-- ===== src/Tests/IngestionRuns.antt =====
-- A run of the check of an uploaded file in backend/upload-service: a header and two rows, the second with
-- no refund amount.
use anti_fraud_detector.Prelude.{
  false, ℕ, ◌≤◌, ◌⊎◌, All, String, ◌≡◌, refl, List, [], ◌∷◌, ◌==◌, length, arith, none, some,
  Option, if◌then◌else◌,
}
use anti_fraud_detector.Prelude.Int.{ℤ, pos}
use anti_fraud_detector.Prelude.Dict.{lookup, insert}
use anti_fraud_detector.Prelude.Text.{join, to_lower, to_upper, trim_space, replace_all, is_space}
use anti_fraud_detector.Prelude.Floats.{itoa}
use anti_fraud_detector.Upload.Normalization.Headers.{normalize_header, validate_headers}
use anti_fraud_detector.Upload.Normalization.Fields.{Clock, parse_flexible_float}
use anti_fraud_detector.Upload.Normalization.Rows.{SourceLine, source_row}
use anti_fraud_detector.Upload.Ingestion.Names.{valid_decision}
use anti_fraud_detector.Upload.Ingestion.Issues.{
  ValidationIssue, issue_of, append_issue, header_issue, invalid_issue,
}
use anti_fraud_detector.Upload.Ingestion.Rows.{
  Rules, valid, check_required, check_return_id, check_decision, check_timestamp, warn_minutes,
  validate_finite_number, warn_zero_refund, check_row, validate_lines, validate_csv_stream,
}
use anti_fraud_detector.Upload.Ingestion.Rows.Limits.{
  errors_of, warnings_of, validate_csv_stream-within,
}
use anti_fraud_detector.Upload.Ingestion.Rows.Stream.{IsAccepted, validate_csv_stream-IsAccepted}
use anti_fraud_detector.Upload.Ingestion.Receive.{
  Request, Machine, World, stored, failed, UploadResult, UploadError, upload_dataset_detailed,
}
use anti_fraud_detector.Upload.Ingestion.Receive.Laws.{
  IsUntouched, IsStored, upload_dataset_detailed-stores,
}
use anti_fraud_detector.Upload.Ingestion.Receive.Backed.{IsBacked, upload_dataset_detailed-IsBacked}
use anti_fraud_detector.Upload.Ingestion.Receive.Later.{configured}
use anti_fraud_detector.Tests.Samples.{hundredths, ascii, healthy, empty_tables}

abbrev known_number : String → Option ℕ
known_number s =
    if s == "10"
    then some 1000
    else if s == "5"
    then some 500
    else if s == "0"
    then some 0
    else none

abbrev rules : Rules ℕ
rules = record {
  ops = record hundredths { parse = known_number };
  case_table = ascii;
  quote = λ s. s;
  parses = λ layout value. layout == "2006-01-02";
  max_rows = 100;
  max_errors = 5;
}

abbrev clock : Clock ℕ
clock = record { to_integer = λ x. pos x; parse_seconds = λ s. none; parse_layouts = λ s. some s }

abbrev row_of : String → String → SourceLine
row_of return_id refund =
    source_row ("o1" ∷ "c1" ∷ return_id ∷ "a1" ∷ "10" ∷ refund ∷ "APPROVED" ∷ "2026-01-05" ∷ [])

abbrev source : List SourceLine
source =
    source_row (
      "purchase_id" ∷ "customer_id" ∷ "return_id" ∷ "agent_id" ∷ "order_amount" ∷ "refund_amount"
      ∷ "decision" ∷ "timestamp" ∷ [])
    ∷ row_of "r1" "5"
    ∷ row_of "r2" "0"
    ∷ []

abbrev noticed : List ValidationIssue
noticed = issue_of 3 "refund_amount" "ZERO_REFUND_AMOUNT" "row 3 has zero refund_amount" ∷ []

source_accepted : validate_csv_stream rules source ≡ valid 2 noticed
unfolding validate_csv_stream validate_headers normalize_header replace_all trim_space to_lower
    lookup insert validate_lines check_row warn_minutes check_timestamp check_decision
    valid_decision to_upper warn_zero_refund parse_flexible_float validate_finite_number itoa
    is_space join append_issue header_issue invalid_issue check_required check_return_id
source_accepted = refl

validate_csv_stream-within_example :
    (length (errors_of (validate_csv_stream rules source)) ≤ 5)
    × (length (warnings_of (validate_csv_stream rules source)) ≤ 5)
validate_csv_stream-within_example = validate_csv_stream-within rules (ground arith) source

validate_csv_stream-IsAccepted_example : IsAccepted rules source 2
validate_csv_stream-IsAccepted_example =
    validate_csv_stream-IsAccepted rules (ground arith) source 2 noticed source_accepted

-- The upload of a file of two bytes that holds those rows.
abbrev machine : Machine ℕ
machine = record {
  fails = λ step. false;
  is_blank = λ bytes. false;
  detect_content_type = λ bytes. "text/plain";
  read_csv = λ bytes. source;
  object_name = λ id. "datasets/7.csv";
  ops = rules.ops;
  case_table = ascii;
  quote = λ s. s;
  parses = rules.parses;
  conn = healthy;
  dataset_id = 7;
  job_id = 8;
  file_id = 9;
  now = 5;
}

abbrev settings : List (ℤ × ℤ × ℤ)
settings = (pos 100, pos 100, pos 5) ∷ []

abbrev request : Request
request = record {
  body = 65 ∷ 66 ∷ [];
  declared_size = pos 2;
  filename = "returns.csv";
  content_type = "text/csv";
}

abbrev empty_world : World
empty_world = record { db = empty_tables; objects = [] }

abbrev result : UploadResult
result = record {
  dataset_id = 7;
  job_id = 8;
  filename = "returns.csv";
  row_count = 2;
  size_bytes = 2;
  warnings = noticed;
}

no_object : lookup (machine.object_name machine.dataset_id) empty_world.objects ≡ none
unfolding lookup
no_object = refl

upload_dataset_detailed-stores_example :
    let (outcome, w') = upload_dataset_detailed machine (configured settings) request empty_world in
    ((e : UploadError) × (outcome ≡ failed e)
      × IsUntouched machine (configured settings) request empty_world w')
    ⊎ ((r : UploadResult) × (outcome ≡ stored r)
        × IsStored machine (configured settings) request r empty_world w')
upload_dataset_detailed-stores_example =
    upload_dataset_detailed-stores machine (configured settings) request refl empty_world no_object

upload_dataset_detailed-IsBacked_example :
    let (outcome, w') = upload_dataset_detailed machine (configured settings) request empty_world in
    All (IsBacked w'.objects) w'.db.files
upload_dataset_detailed-IsBacked_example =
    upload_dataset_detailed-IsBacked machine (configured settings) request empty_world tt tt
