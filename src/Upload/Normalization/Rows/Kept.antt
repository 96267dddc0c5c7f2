-- ===== src/Upload/Normalization/Rows/Kept.antt =====
-- Which rows are written: the loop of normalizeUploadedObject in
-- backend/upload-service/internal/service/normalization.go.
use anti_fraud_detector.Prelude.{
  ℕ, suc, String, Bool, true, false, ◌≡◌, refl, sym, ap, subst, ◌∙◌, ◌⊎◌, inl, inr, none, some,
  List, [], ◌∷◌, ◌++◌, ◌==◌, any, All, All-map-of, arith, Option-cases, text_cases, eq_refl, eq_iff,
}
use anti_fraud_detector.Prelude.Dict.{lookup, insert, lookup-insert, IsDistinct}
use anti_fraud_detector.Upload.Normalization.Fields.{NormalizedRow}
use anti_fraud_detector.Upload.Normalization.Rows.{
  Prepared, ready, bad, Written, written, refused, also, signature, write_rows,
}
use anti_fraud_detector.Upload.Normalization.Rows.Signature.{IsPlainRow, signature-same}

abbrev pub id_of : NormalizedRow → String
id_of r = r.return_id

abbrev Seen : Type 0
Seen = List (String × String)

also-written :
    (r : NormalizedRow) (w : Written) (out : List NormalizedRow)
    → also r w ≡ written out
    → (rest : List NormalizedRow) × (w ≡ written rest) × (out ≡ r ∷ rest)
also-written r (written rows) out h = (rows, refl, ground arith)
also-written r (refused e) out h = absurd (ground arith)

-- How a row that was written came about: it is the first with its id, or it repeats one.
pub data Turn (r : NormalizedRow) (line : ℕ) (seen : Seen) (rows : List Prepared)
    (out : List NormalizedRow) : Type 0 where
  first :
      (rest : List NormalizedRow)
      → lookup r.return_id seen ≡ none
      → write_rows (suc line) (insert r.return_id (signature r) seen) rows ≡ written rest
      → out ≡ r ∷ rest
      → Turn r line seen rows out
  again :
      lookup r.return_id seen ≡ some (signature r)
      → write_rows (suc line) seen rows ≡ written out
      → Turn r line seen rows out

turn :
    (r : NormalizedRow) (line : ℕ) (seen : Seen) (rows : List Prepared) (out : List NormalizedRow)
    → write_rows line seen (ready r ∷ rows) ≡ written out
    → Turn r line seen rows out
unfolding write_rows
turn r line seen rows out h = elim (Option-cases (lookup r.return_id seen)) [
  | inl e ↦
      let (rest, later, same) =
        also-written r (write_rows (suc line) (insert r.return_id (signature r) seen) rows) out
          (ground (arith, e, h)) in
      first rest e later same
  | inr (previous, e) ↦ elim (text_cases previous (signature r)) [
    | inl (same, t) ↦ again (e ∙ ap some same) (ground (arith, e, t, h))
    | inr t ↦ absurd (ground (arith, e, t, h))
  ]
]

rows_of : Written → List NormalizedRow
rows_of (written rows) = rows
rows_of (refused e) = []

rows_of-written : (a b : List NormalizedRow) → written a ≡ written b → a ≡ b
unfolding rows_of
rows_of-written a b h = ap rows_of h

abbrev IsFresh : Seen → NormalizedRow → Type 0
IsFresh seen r = lookup r.return_id seen ≡ none

IsFresh-insert :
    (r x : NormalizedRow) (seen : Seen)
    → IsFresh (insert r.return_id (signature r) seen) x
    → IsFresh seen x × ((x.return_id == r.return_id) ≡ false)
IsFresh-insert r x seen h =
    let found = lookup-insert r.return_id x.return_id (signature r) seen in
    elim (text_cases r.return_id x.return_id) [
      | inl (same, t) ↦ absurd (ground (arith, found, t, h))
      | inr t ↦ (
        ground (arith, found, t, h),
        ground (arith, t, eq_iff r.return_id x.return_id, eq_iff x.return_id r.return_id),
      )
    ]

abbrev IsFreshAndDistinct : Seen → List NormalizedRow → Type 0
IsFreshAndDistinct seen out = All (IsFresh seen) out × IsDistinct id_of out

distinct :
    (line : ℕ) (seen : Seen) (rows : List Prepared) (out : List NormalizedRow)
    → write_rows line seen rows ≡ written out
    → IsFreshAndDistinct seen out
unfolding write_rows
distinct line seen [] out h = subst (IsFreshAndDistinct seen) (rows_of-written [] out h) (tt, tt)
distinct line seen (bad e ∷ rows) out h = absurd (ground arith)
distinct line seen (ready r ∷ rows) out h = elim (turn r line seen rows out h) [
  | first rest e later same ↦
      let seen' = insert r.return_id (signature r) seen in
      let (fresh, apart) = distinct (suc line) seen' rows rest later in
      let both =
        All-map-of {Q = λ x. IsFresh seen x × ((x.return_id == r.return_id) ≡ false)} rest
          (λ x f. IsFresh-insert r x seen f) fresh in
      subst (IsFreshAndDistinct seen) (sym same)
        ((e, All-map-of rest (λ x b. b.0) both), (All-map-of rest (λ x b. b.1) both, apart))
  | again e later ↦ distinct (suc line) seen rows out later
]

-- A row with the signature is written.
abbrev has_row : List NormalizedRow → NormalizedRow → Bool
has_row out r = any (λ o. signature o == signature r) out

-- The normalized row of a line is among the rows that are written.
abbrev pub IsWritten : List NormalizedRow → Prepared → Type 0
IsWritten out (ready r) =
    (before : List NormalizedRow) × (after : List NormalizedRow) × (out ≡ before ++ r ∷ after)
IsWritten out (bad e) = true ≡ false

abbrev IsKept : Seen → List NormalizedRow → Prepared → Type 0
IsKept seen out (ready r) = (lookup r.return_id seen ≡ some (signature r)) ⊎ (has_row out r ≡ true)
IsKept seen out (bad e) = true ≡ false

IsKept-insert :
    (r : NormalizedRow) (seen : Seen) (rest : List NormalizedRow) (p : Prepared)
    → IsKept (insert r.return_id (signature r) seen) rest p
    → IsKept seen (r ∷ rest) p
IsKept-insert r seen rest (bad e) k = k
IsKept-insert r seen rest (ready x) k =
    let found = lookup-insert r.return_id x.return_id (signature r) seen in
    elim k [
      | inr later ↦ inr (ground (arith, later))
      | inl held ↦ elim (text_cases r.return_id x.return_id) [
        | inl (same, t) ↦
            let signed : signature r ≡ signature x = ground (arith, found, t, held) in
            inr (rw (← signed) (rw (eq_refl (signature r))))
        | inr t ↦ inl (ground (arith, found, t, held))
      ]
    ]

kept :
    (line : ℕ) (seen : Seen) (rows : List Prepared) (out : List NormalizedRow)
    → write_rows line seen rows ≡ written out
    → All (IsKept seen out) rows
unfolding write_rows
kept line seen [] out h = tt
kept line seen (bad e ∷ rows) out h = absurd (ground arith)
kept line seen (ready r ∷ rows) out h = elim (turn r line seen rows out h) [
  | first rest e later same ↦
      let seen' = insert r.return_id (signature r) seen in
      subst (λ o. All (IsKept seen o) (ready r ∷ rows)) (sym same)
        (
          inr (rw (eq_refl (signature r))),
          All-map-of rows (λ p k. IsKept-insert r seen rest p k)
              (kept (suc line) seen' rows rest later),
        )
  | again e later ↦ (inl e, kept (suc line) seen rows out later)
]

-- A line whose normalized row has a property.
abbrev IsReady : (NormalizedRow → Type 0) → Prepared → Type 0
IsReady P (ready r) = P r
IsReady P (bad e) = Unit

-- Every row that is written is the row of a line.
rows_of-lines :
    (P : NormalizedRow → Type 0) (line : ℕ) (seen : Seen) (rows : List Prepared)
    (out : List NormalizedRow)
    → All (IsReady P) rows
    → write_rows line seen rows ≡ written out
    → All P out
unfolding write_rows
rows_of-lines P line seen [] out p h = subst (All P) (rows_of-written [] out h) tt
rows_of-lines P line seen (bad e ∷ rows) out p h = absurd (ground arith)
rows_of-lines P line seen (ready r ∷ rows) out p h = elim (turn r line seen rows out h) [
  | first rest e later same ↦
      subst (All P) (sym same) (
        p.0,
        rows_of-lines P (suc line) (insert r.return_id (signature r) seen) rows rest p.1 later,
      )
  | again e later ↦ rows_of-lines P (suc line) seen rows out p.1 later
]

-- Among plain rows the signature finds the row itself.
found_row :
    (r : NormalizedRow) (out : List NormalizedRow)
    → IsPlainRow r
    → All IsPlainRow out
    → has_row out r ≡ true
    → IsWritten out (ready r)
found_row r [] p q h = absurd (ground arith)
found_row r (o ∷ out) p q h = elim (text_cases (signature r) (signature o)) [
  | inl (same, t) ↦ ([], out, ap (λ x. x ∷ out) (sym (signature-same r o p q.0 same)))
  | inr t ↦
      let later : has_row out r ≡ true =
        ground
          (arith, h, t, eq_iff (signature r) (signature o), eq_iff (signature o) (signature r)) in
      let (before, after, same) = found_row r out p q.1 later in
      (o ∷ before, after, ap (λ xs. o ∷ xs) same)
]

-- The row of a line has no cell with U+001F, the character that joins the cells in a signature.
abbrev pub IsPlainLine : Prepared → Type 0
IsPlainLine = IsReady IsPlainRow

-- A source that is accepted, and in whose normalized rows no cell holds U+001F, is written without two
-- rows of one return, as the relations service demands, and without a loss: every line is valid, and its
-- normalized row is among the rows that are written.
pub write_rows-kept :
    (line : ℕ) (rows : List Prepared) (out : List NormalizedRow)
    → All IsPlainLine rows
    → write_rows line [] rows ≡ written out
    → IsDistinct id_of out × All (IsWritten out) rows
unfolding lookup
write_rows-kept line rows out plain h =
    ((distinct line [] rows out h).1, all_written rows plain (kept line [] rows out h))
  where
    written_plain : All IsPlainRow out
    written_plain = rows_of-lines IsPlainRow line [] rows out plain h

    only : (p : Prepared) → IsPlainLine p → IsKept [] out p → IsWritten out p
    only (bad e) q k = k
    only (ready r) q (inl held) = absurd (ground arith)
    only (ready r) q (inr there) = found_row r out q written_plain there

    all_written :
        (ps : List Prepared) → All IsPlainLine ps → All (IsKept [] out) ps → All (IsWritten out) ps
    all_written [] q k = tt
    all_written (p ∷ ps) q k = (only p q.0 k.0, all_written ps q.1 k.1)
