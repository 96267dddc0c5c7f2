-- ===== src/Tests/NormalizationRuns.antt =====
-- A run of the normalization of backend/upload-service: three lines, of which one is repeated.
use anti_fraud_detector.Prelude.{arith, All, String, ◌≡◌, refl, List, [], ◌∷◌}
use anti_fraud_detector.Prelude.Text.{join}
use anti_fraud_detector.Prelude.Dict.{lookup, insert, IsDistinct}
use anti_fraud_detector.Upload.Normalization.Fields.{NormalizedRow}
use anti_fraud_detector.Upload.Normalization.Rows.{Prepared, ready, written, write_rows}
use anti_fraud_detector.Upload.Normalization.Rows.Kept.{
  id_of, IsWritten, IsPlainLine, write_rows-kept,
}

abbrev row_of : String → String → NormalizedRow
row_of return_id reason = record {
  order_id = "order_1";
  customer_id = "customer_1";
  return_id = return_id;
  support_agent_id = "agent_1";
  order_amount = "340.00";
  refund_amount = "310.00";
  product_category = "electronics";
  return_reason = reason;
  evidence_provided = "false";
  decision = "APPROVED";
  manual_override = "false";
  decision_time_minutes = "60";
  timestamp = "";
}

-- The second row repeats the first.
abbrev source_rows : List Prepared
source_rows =
    ready (row_of "return_1" "broken")
    ∷ ready (row_of "return_1" "broken")
    ∷ ready (row_of "return_2" "broken")
    ∷ []

abbrev written_rows : List NormalizedRow
written_rows = row_of "return_1" "broken" ∷ row_of "return_2" "broken" ∷ []

rows_accepted : write_rows 2 [] source_rows ≡ written written_rows
unfolding write_rows lookup insert join
rows_accepted = refl

rows_plain : All IsPlainLine source_rows
rows_plain = ground arith

write_rows-kept_example : IsDistinct id_of written_rows × All (IsWritten written_rows) source_rows
write_rows-kept_example = write_rows-kept 2 source_rows written_rows rows_plain rows_accepted
