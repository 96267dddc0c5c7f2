-- ===== src/Tests/WorkerRuns.antt =====
-- A run of the normalization worker of backend/upload-service: a message whose object is not there.
use anti_fraud_detector.Prelude.{ℕ, String, true, false, ◌≡◌, ◌⊎◌, Option, none, some, List, []}
use anti_fraud_detector.Prelude.Int.{pos}
use anti_fraud_detector.Upload.Normalization.Rows.{SourceLine}
use anti_fraud_detector.Upload.Normalization.Worker.{
  UploadedEvent, permanent, retryable, Works, Tools, handle_dataset_uploaded,
}
use anti_fraud_detector.Upload.Normalization.Worker.Reports.{
  IsUnnamed, IsReported, IsNormalized, handle_dataset_uploaded-reports,
}
use anti_fraud_detector.Tests.Samples.{hundredths, ascii, parse_one}

abbrev decode_event : String → Option UploadedEvent
decode_event body = some (record { dataset_id = "1"; job_id = "1"; file_path = body })

abbrev tools : Tools ℕ (List SourceLine) String
tools = record {
  ops = hundredths;
  case_table = ascii;
  clock = record {
    to_integer = λ x. pos x;
    parse_seconds = λ s. none;
    parse_layouts = λ s. some s;
  };
  decode = decode_event;
  parse_uuid = parse_one;
  read_csv = λ lines. lines;
  path_of = λ id. id;
  describe = λ cause. "failed";
  fails = λ step. false;
  takes = true;
}

abbrev no_objects : Works (List SourceLine)
no_objects = record { objects = []; files = []; sent = [] }

handle_dataset_uploaded-reports_example :
    let (error, w') = handle_dataset_uploaded tools "datasets/1.csv" no_objects in
    (((decode_event "datasets/1.csv" ≡ none)
        ⊎ ((event : UploadedEvent) × (decode_event "datasets/1.csv" ≡ some event)
            × IsUnnamed tools event))
      × (message : String) × (error ≡ some (permanent message))
      × (w' ≡ no_objects))
    ⊎ ((message : String) × (error ≡ some (retryable message)) × (w'.sent ≡ []) × (true ≡ false))
    ⊎ ((event : UploadedEvent) × (decode_event "datasets/1.csv" ≡ some event)
        × (error ≡ none)
        × (IsReported tools event no_objects w' ⊎ IsNormalized tools event no_objects w'))
handle_dataset_uploaded-reports_example =
    handle_dataset_uploaded-reports tools "datasets/1.csv" no_objects
