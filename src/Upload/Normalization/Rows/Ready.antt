-- ===== src/Upload/Normalization/Rows/Ready.antt =====
-- The loop of normalizeUploadedObject in backend/upload-service/internal/service/normalization.go on lines
-- that are all ready to be written.
use anti_fraud_detector.Prelude.{
  ℕ, suc, ◌≤◌, length, sym, subst, option_ensures, if_ensures, ◌==◌, String, ◌≡◌, refl, ◌⊎◌, inl,
  inr, List, [], ◌∷◌, All, arith,
}
use anti_fraud_detector.Prelude.Dict.{lookup, insert}
use anti_fraud_detector.Upload.Normalization.Fields.{NormalizedRow}
use anti_fraud_detector.Upload.Normalization.Rows.{
  Prepared, ready, bad, Written, written, refused, also, signature, write_rows, checked,
  conflicting_duplicate,
}

abbrev pub IsReady : Prepared → Type 0
IsReady p = (r : NormalizedRow) × (p ≡ ready r)

-- Rows are written, or two rows of one return differ.
abbrev pub IsWrittenOrConflict : Written → Type 0
IsWrittenOrConflict w =
    ((rows : List NormalizedRow) × (w ≡ written rows))
    ⊎ ((line : ℕ) × (return_id : String) × (w ≡ refused (conflicting_duplicate line return_id)))

also-IsWrittenOrConflict :
    (r : NormalizedRow) (w : Written) → IsWrittenOrConflict w → IsWrittenOrConflict (also r w)
also-IsWrittenOrConflict r (written rows) h = inl (r ∷ rows, refl)
also-IsWrittenOrConflict r (refused e) (inl (rows, same)) = absurd (ground arith)
also-IsWrittenOrConflict r (refused e) (inr (line, return_id, same)) =
    inr (line, return_id, ground arith)

write_rows-IsWrittenOrConflict :
    (line : ℕ) (seen : List (String × String)) (rows : List Prepared)
    → All IsReady rows
    → IsWrittenOrConflict (write_rows line seen rows)
unfolding write_rows
write_rows-IsWrittenOrConflict line seen [] h = inl ([], refl)
write_rows-IsWrittenOrConflict line seen (bad e ∷ rows) ((r, same), h) = absurd (ground arith)
write_rows-IsWrittenOrConflict line seen (ready r ∷ rows) (is_ready, h) =
    option_ensures IsWrittenOrConflict (lookup r.return_id seen)
      (also-IsWrittenOrConflict r _ (write_rows-IsWrittenOrConflict (suc line) _ rows h))
      (λ previous.
        if_ensures IsWrittenOrConflict (previous == signature r)
          (write_rows-IsWrittenOrConflict (suc line) seen rows h) (inr (line, r.return_id, refl)))

checked_also : (r : NormalizedRow) (w : Written) → checked (also r w) ≡ also r w
unfolding checked
checked_also r (written rows) = refl
checked_also r (refused e) = refl

-- When there is a line, and all lines are ready, the rows are written or two of them are in conflict.
pub checked-IsWrittenOrConflict :
    (rows : List Prepared)
    → All IsReady rows
    → 1 ≤ length rows
    → IsWrittenOrConflict (checked (write_rows 2 [] rows))
unfolding write_rows lookup
checked-IsWrittenOrConflict [] h some_row = absurd (ground arith)
checked-IsWrittenOrConflict (bad e ∷ rows) ((r, same), h) some_row = absurd (ground arith)
checked-IsWrittenOrConflict (ready r ∷ rows) (is_ready, h) some_row =
    subst IsWrittenOrConflict (sym (checked_also r _)) (
      also-IsWrittenOrConflict r _
        (write_rows-IsWrittenOrConflict 3 (insert r.return_id (signature r) []) rows h))
