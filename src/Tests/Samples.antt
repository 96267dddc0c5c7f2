-- ===== src/Tests/Samples.antt =====
-- Small inputs for both services: numbers in hundredths in place of float64, tables with one dataset,
-- and four return records.
use anti_fraud_detector.Prelude.{
  ℕ, ◌+◌, ◌*◌, ◌/◌, String, true, false, Option, none, some, List, [], ◌∷◌, ltb, leb, eqb,
  if◌then◌else◌, ◌==◌, refl,
}
use anti_fraud_detector.Prelude.Int.{pos}
use anti_fraud_detector.Prelude.Text.{CaseTable}
use anti_fraud_detector.Prelude.Floats.{FloatOps, IsOrderedLits, itoa}
use anti_fraud_detector.Upload.Domain.{Uuid, UploadedFile, AnalysisJob, uploaded}
use anti_fraud_detector.Upload.Db.{Db, Conn}
use anti_fraud_detector.Upload.Repository.Rows.{new_dataset, new_job}
use anti_fraud_detector.Upload.Pipeline.Handler.{PipelineEvent}
use anti_fraud_detector.Relations.Domain.{NormalizedReturnRecord}
use anti_fraud_detector.Relations.Store.{Moment, Service}

abbrev pub hundredths : FloatOps ℕ
hundredths = record {
  lit = λ n. n;
  of_int = λ n. n * 100;
  to_int = λ n. n / 100;
  lt = ltb;
  le = leb;
  eq = eqb;
  add = λ a b. a + b;
  mul = λ a b. a * b / 100;
  div = λ a b. a * 100 / b;
  round_half = λ a. (a + 50) / 100 * 100;
  parse = λ s. none;
  is_nan = λ a. false;
  is_inf = λ a. false;
  format_whole = λ a. itoa (a / 100);
  format_cents = λ a. itoa a;
}

pub hundredths-IsOrderedLits : IsOrderedLits hundredths
hundredths-IsOrderedLits = record { lit_lt = λ m n h k. refl; lit_eq = λ m n h k. refl }

abbrev pub ascii : CaseTable
ascii = record { upper = λ c. c; lower = λ c. c }

abbrev pub healthy : Conn
healthy n = false

abbrev pub parse_one : String → Option Uuid
parse_one s = if s == "1" then some 1 else none

abbrev pub decode_all : PipelineEvent → Option PipelineEvent
decode_all event = some event

abbrev pub job_in : String → AnalysisJob
job_in status = new_job 1 1 status status none 5 5

abbrev pub tables : List AnalysisJob → Db
tables jobs = record {
  datasets = new_dataset 1 "returns" "returns.csv" uploaded 5 ∷ [];
  files = [];
  jobs = jobs;
  audits = [];
}

abbrev pub empty_tables : Db
empty_tables = record { datasets = []; files = []; jobs = []; audits = [] }

abbrev pub file_one : UploadedFile
file_one = record {
  id = 3;
  dataset_id = 1;
  file_path = "datasets/1.csv";
  file_type = "text/csv";
  uploaded_at = 5;
  size_bytes = 120;
  row_count = 2;
  warnings = [];
}

abbrev pub event_one : PipelineEvent
event_one = record {
  dataset_id = "1";
  job_id = "1";
  failed_step = "";
  error_message = "";
  stage = "";
  message = "";
}

abbrev pub return_of : String → String → String → String → String → NormalizedReturnRecord ℕ
return_of return_id customer_id agent_id reason decision = record {
  dataset_id = "demo";
  return_id = return_id;
  customer_id = customer_id;
  order_id = "order_1";
  support_agent_id = agent_id;
  product_category = "electronics";
  return_reason = reason;
  decision_id = "decision_1";
  decision_status = decision;
  refund_amount = 31000;
  order_amount = 34000;
  evidence_provided = false;
  manual_override = false;
  decision_time_minutes = pos 60;
  timestamp = "";
}

abbrev pub r1 : NormalizedReturnRecord ℕ
r1 = return_of "r1" "c1" "a1" "broken" "APPROVED"

abbrev pub demo_records : List (NormalizedReturnRecord ℕ)
demo_records =
    r1
    ∷ return_of "r2" "c1" "a1" "broken" "APPROVED"
    ∷ return_of "r3" "c1" "a2" "wrong_size" "REJECTED"
    ∷ return_of "r4" "c2" "a1" "broken" "APPROVED"
    ∷ []

abbrev pub noon : Moment
noon = record { nanos = 7; text = "12:00"; takes = true }

abbrev pub no_datasets : Service ℕ
no_datasets = record { datasets = []; sent = [] }
