-- ===== src/Upload/Normalization/Fields/Reads.antt =====
-- When normalizeCSVRow of backend/upload-service/internal/service/normalization.go gives a row.
use anti_fraud_detector.Prelude.{ℕ, String, List, some, ◌≡◌}
use anti_fraud_detector.Prelude.Int.{ℤ}
use anti_fraud_detector.Prelude.Floats.{FloatOps}
use anti_fraud_detector.Prelude.Text.{CaseTable}
use anti_fraud_detector.Upload.Normalization.Fields.{
  Clock, NormalizedRow, row, field_value, parse_flexible_float, minutes_of, build_row,
  normalize_csv_row,
}

module _ {F : Type 0} (ops : FloatOps F) (u : CaseTable) (clock : Clock F) (cells : List String)
    (index : List (String × ℕ)) where
  pub normalize_csv_row-row :
      (amount refund : F) (minutes : ℤ)
      → parse_flexible_float ops (field_value cells index "order_amount") ≡ some amount
      → parse_flexible_float ops (field_value cells index "refund_amount") ≡ some refund
      → minutes_of ops u clock (field_value cells index "decision_time_minutes") ≡ some minutes
      → (r : NormalizedRow) × (normalize_csv_row ops u clock cells index ≡ row r)
  unfolding normalize_csv_row
  normalize_csv_row-row amount refund minutes e1 e2 e3 =
      (build_row ops u clock (field_value cells index) amount refund minutes, cc)
