-- ===== src/Upload/Service/Preview.antt =====
-- PreviewDataset, parseCSVPreview and recordToPreviewRow of
-- backend/upload-service/internal/service/service.go. The object store and the CSV reader, which also
-- refuses rows of another width here, are arguments.
use anti_fraud_detector.Prelude.{
  ℕ, zero, suc, ◌+◌, ◌≤◌, ◌<◌, String, Bool, true, false, ◌≡◌, refl, sym, ap, ◌∙◌, Option, none,
  some, List, [], ◌∷◌, ◌==◌, if◌then◌else◌, leb, ltb, length, length-take-le, subst, map, take,
  arith,
}
use anti_fraud_detector.Prelude.Dict.{insert, lookup, lookup-insert}
use anti_fraud_detector.Prelude.Text.{trim_space}
use anti_fraud_detector.Upload.Domain.{Uuid}
use anti_fraud_detector.Upload.Db.{Db, Conn, done, fail, auto_commit}
use anti_fraud_detector.Upload.Repository.Rows.{get_uploaded_file_by_dataset_id}
use anti_fraud_detector.Upload.Normalization.Headers.{trim_mark}
use anti_fraud_detector.Upload.Normalization.Rows.{SourceLine, source_row, unreadable}
use anti_fraud_detector.Upload.Service.Start.{Answer, answer, refuse, internal, missing}

pub record PreviewResponse : Type 0 where
  pub headers : List String
  pub rows : List (List (String × String))
  pub raw_rows : List (List String)
  pub row_count : ℕ
  pub truncated : Bool

abbrev pub max_preview_rows : ℕ
max_preview_rows = 20

-- The map from the headers to the cells; a missing cell is blank, and of equal headers the last one counts.
preview_row : List String → List String → List (String × String) → List (String × String)
preview_row [] cells row = row
preview_row (header ∷ headers) [] row = preview_row headers [] (insert header "" row)
preview_row (header ∷ headers) (value ∷ cells) row =
    preview_row headers cells (insert header value row)

unfoldable pub record_to_preview_row : List String → List String → List (String × String)
unfolding preview_row
record_to_preview_row headers cells = preview_row headers cells []

-- The rows that the loop keeps, in order, and whether there is another one; or a row that is unreadable.
pub data Kept : Type 0 where
  kept : List (List String) → Bool → Kept
  broken : Kept

abbrev keep_row : List String → Kept → Kept
keep_row cells (kept rows truncated) = kept (cells ∷ rows) truncated
keep_row cells broken = broken

-- `have` counts the rows that are kept already.
unfoldable pub keep_rows : ℕ → ℕ → List SourceLine → Kept
keep_rows limit have [] = kept [] false
keep_rows limit have (unreadable ∷ lines) = broken
keep_rows limit have (source_row cells ∷ lines) =
    let rest = keep_rows limit (suc have) lines in
    if leb limit have then kept [] true else keep_row (map trim_space cells) rest

first_without_mark : List String → List String
first_without_mark [] = []
first_without_mark (header ∷ headers) = trim_mark header ∷ headers

shown : List String → Kept → Option PreviewResponse
shown headers broken = none
shown headers (kept raw_rows truncated) = some (record {
  headers = headers;
  rows = map (record_to_preview_row headers) raw_rows;
  raw_rows = raw_rows;
  row_count = length raw_rows;
  truncated = truncated;
})

unfoldable pub parse_csv_preview : ℕ → List SourceLine → Option PreviewResponse
unfolding shown first_without_mark
parse_csv_preview limit [] = none
parse_csv_preview limit (unreadable ∷ lines) = none
parse_csv_preview limit (source_row header ∷ lines) =
    shown (first_without_mark (map trim_space header)) (keep_rows limit 0 lines)

unfoldable pub preview_dataset :
    (String → Option (List SourceLine)) → Conn → Uuid → Db → Answer PreviewResponse
unfolding missing
preview_dataset object conn dataset_id db =
    elim (auto_commit (get_uploaded_file_by_dataset_id dataset_id) conn db).0 [
      | fail e ↦ refuse (missing "dataset" e)
      | done file ↦ elim (object file.file_path) [
        | none ↦ refuse (internal "minio get object")
        | some lines ↦ elim (parse_csv_preview max_preview_rows lines) [
          | none ↦ refuse (internal "read csv")
          | some preview ↦ answer preview
        ]
      ]
    ]

-- The cells of the lines that can be read.
abbrev pub cells_of : List SourceLine → List (List String)
cells_of [] = []
cells_of (unreadable ∷ lines) = cells_of lines
cells_of (source_row cells ∷ lines) = map trim_space cells ∷ cells_of lines

keep_row-kept :
    (cells : List String) (k : Kept) (rows : List (List String)) (truncated : Bool)
    → keep_row cells k ≡ kept rows truncated
    → (rest : List (List String)) × (k ≡ kept rest truncated) × (rows ≡ cells ∷ rest)
keep_row-kept cells (kept rest more) rows truncated h = (rest, ground arith, ground arith)
keep_row-kept cells broken rows truncated h = absurd (ground arith)

leb-false : (limit have : ℕ) → have < limit → leb limit have ≡ false
leb-false limit have h = ground arith

keep_rows-take :
    (limit have room : ℕ) (lines : List SourceLine) (rows : List (List String)) (truncated : Bool)
    → limit ≡ have + room
    → keep_rows limit have lines ≡ kept rows truncated
    → (rows ≡ take room (cells_of lines)) × (truncated ≡ ltb room (length (cells_of lines)))
unfolding keep_rows
keep_rows-take limit have zero [] rows truncated e h = (ground arith, ground arith)
keep_rows-take limit have (suc room) [] rows truncated e h = (ground arith, ground arith)
keep_rows-take limit have room (unreadable ∷ lines) rows truncated e h = absurd (ground arith)
keep_rows-take limit have zero (source_row cells ∷ lines) rows truncated e h = ground arith
keep_rows-take limit have (suc room) (source_row cells ∷ lines) rows truncated e h =
    let below = leb-false limit have (omega (arith, e)) in
    let (rest, read, first) =
      keep_row-kept (map trim_space cells) (keep_rows limit (suc have) lines) rows truncated
        (rw below at h) in
    let (taken, more) =
      keep_rows-take limit (suc have) room lines rest truncated (omega (arith, e)) read in
    (first ∙ ap (λ ys. map trim_space cells ∷ ys) taken, ground (arith, more))

some-same : (q p : PreviewResponse) → some q ≡ some p → q ≡ p
some-same q p h = ground arith

preview_rows :
    (headers : List String) (k : Kept) (p : PreviewResponse)
    → shown headers k ≡ some p
    → (k ≡ kept p.raw_rows p.truncated)
      × (p.row_count ≡ length p.raw_rows)
      × (p.rows ≡ map (record_to_preview_row p.headers) p.raw_rows)
unfolding shown
preview_rows headers broken p h = absurd (ground arith)
preview_rows headers (kept rows truncated) p h =
    subst
      (λ q.
        (kept rows truncated ≡ kept q.raw_rows q.truncated)
        × (q.row_count ≡ length q.raw_rows)
        × (q.rows ≡ map (record_to_preview_row q.headers) q.raw_rows))
      (some-same _ p h) (refl, refl, refl)

-- What stands beside a header in a row: the cell at the last place of the header, or a blank.
abbrev pub value_of : String → List String → List String → Option String
value_of header [] cells = none
value_of header (h ∷ headers) [] = elim (value_of header headers []) [
  | some value ↦ some value
  | none ↦ if h == header then some "" else none
]
value_of header (h ∷ headers) (cell ∷ cells) = elim (value_of header headers cells) [
  | some value ↦ some value
  | none ↦ if h == header then some cell else none
]

lookup-preview_row :
    (header : String) (headers cells : List String) (row : List (String × String))
    → lookup header (preview_row headers cells row)
      ≡ elim (value_of header headers cells) [ none ↦ lookup header row | some v ↦ some v ]
unfolding preview_row
lookup-preview_row header [] cells row = refl
lookup-preview_row header (h ∷ headers) [] row =
    ground
      (arith, lookup-preview_row header headers [] (insert h "" row), lookup-insert h header "" row)
lookup-preview_row header (h ∷ headers) (cell ∷ cells) row = ground (
  arith,
  lookup-preview_row header headers cells (insert h cell row),
  lookup-insert h header cell row,
)

preview_rows-values :
    (header : String) (headers : List String) (rows : List (List String))
    → map (lookup header) (map (record_to_preview_row headers) rows)
      ≡ map (value_of header headers) rows
unfolding record_to_preview_row lookup
preview_rows-values header headers [] = refl
preview_rows-values header headers (cells ∷ rows) =
    ground
      (arith, lookup-preview_row header headers cells [], preview_rows-values header headers rows)

-- A preview shows the first rows of the source with their cells trimmed, no more than its limit; it also
-- shows each as a map from the headers to the cells, where a missing cell is blank and the last of equal
-- headers counts; it counts them, and says truncated exactly if the source has more rows.
pub parse_csv_preview-rows :
    (limit : ℕ) (header : List String) (lines : List SourceLine) (p : PreviewResponse)
    → parse_csv_preview limit (source_row header ∷ lines) ≡ some p
    → (p.raw_rows ≡ take limit (cells_of lines))
      × (p.truncated ≡ ltb limit (length (cells_of lines)))
      × (p.row_count ≡ length p.raw_rows)
      × (p.row_count ≤ limit)
      × ((h : String) → map (lookup h) p.rows ≡ map (value_of h p.headers) p.raw_rows)
unfolding parse_csv_preview
parse_csv_preview-rows limit header lines p h =
    let (kept_rows, counted, mapped) = preview_rows _ _ p h in
    let (first, more) =
      keep_rows-take limit 0 limit lines p.raw_rows p.truncated (omega arith) kept_rows in
    let few = length-take-le limit (cells_of lines) in
    (
      first,
      more,
      counted,
      subst (λ n. n ≤ limit) (sym (counted ∙ ap length first)) few,
      λ h. ap (map (lookup h)) mapped ∙ preview_rows-values h p.headers p.raw_rows,
    )
