-- ===== src/Upload/Ingestion/Receive/Backed.antt =====
-- Every row of uploaded_files has its object: an invariant of the uploads of
-- backend/upload-service/internal/service/ingestion.go.
use anti_fraud_detector.Prelude.{
  ℕ, suc, String, false, ◌≡◌, refl, ap, ◌∙◌, ◌⊎◌, inl, inr, some, List, [], ◌∷◌, ◌==◌,
  if◌then◌else◌, length, take, arith, All, eq_refl, if_ensures,
}
use anti_fraud_detector.Prelude.Dict.{lookup, insert, remove, lookup-insert, lookup-remove}
use anti_fraud_detector.Upload.Domain.{UploadedFile, uploaded}
use anti_fraud_detector.Upload.Db.{Db, Result, done, fail}
use anti_fraud_detector.Upload.Repository.Effects.{upload_outcome}
use anti_fraud_detector.Upload.Ingestion.Names.{sanitize_filename}
use anti_fraud_detector.Upload.Ingestion.Issues.{ValidationIssue}
use anti_fraud_detector.Upload.Ingestion.Receive.{
  Bytes, Request, delete, put, Machine, Limits, World, Inspected, stop, clean, Outcome, file_row,
  inspect, record_upload, store_upload, upload_dataset_detailed,
}

-- The object of the file is there, and is as long as its row says.
pub record IsBacked (objects : List (String × Bytes)) (f : UploadedFile) : Type 0 where
  pub content : Bytes
  pub found : lookup f.file_path objects ≡ some content
  pub sized : length content ≡ f.size_bytes

-- A change of one object backs the files of all others as before.
changed-IsBacked :
    (key : String) (before after : List (String × Bytes))
    → ((path : String) → (key == path) ≡ false → lookup path after ≡ lookup path before)
    → (files : List UploadedFile) → All (λ f. (key == f.file_path) ≡ false) files
    → All (IsBacked before) files
    → All (IsBacked after) files
changed-IsBacked key before after same [] other backed = tt
changed-IsBacked key before after same (f ∷ files) (other, others) (backed, rest) = (
  record {
    content = backed.content;
    found = same f.file_path other ∙ backed.found;
    sized = backed.sized;
  },
  changed-IsBacked key before after same files others rest,
)

inserted_same :
    (key : String) (content : Bytes) (objects : List (String × Bytes)) (path : String)
    → (key == path) ≡ false
    → lookup path (insert key content objects) ≡ lookup path objects
inserted_same key content objects path other =
    ground (arith, other, lookup-insert key path content objects)

removed_same :
    (key : String) (content : Bytes) (objects : List (String × Bytes)) (path : String)
    → (key == path) ≡ false
    → lookup path (remove key (insert key content objects)) ≡ lookup path objects
removed_same key content objects path other = ground (
  arith,
  other,
  lookup-remove key path (insert key content objects),
  inserted_same key content objects path other,
)

module _ {F : Type 0} (machine : Machine F) (limits : Limits) (request : Request) (w : World)
    (others : All (λ f. (machine.object_name machine.dataset_id == f.file_path) ≡ false) w.db.files)
    (backed : All (IsBacked w.objects) w.db.files) where
  abbrev AllBacked : Outcome × World → Type 0
  AllBacked (outcome, w') = All (IsBacked w'.objects) w'.db.files

  -- Whether the object is left or removed after a transaction that failed.
  left-IsBacked :
      (content : Bytes)
      → let name = machine.object_name machine.dataset_id in
        All
          (IsBacked (
            if machine.fails delete
            then insert name content w.objects
            else remove name (insert name content w.objects)))
          w.db.files
  left-IsBacked content =
      let name = machine.object_name machine.dataset_id in
      if_ensures (λ objects. All (IsBacked objects) w.db.files) (machine.fails delete)
        (changed-IsBacked name w.objects _ (inserted_same name content w.objects) w.db.files others
          backed)
        (changed-IsBacked name w.objects _ (removed_same name content w.objects) w.db.files others
          backed)

  recorded :
      (content : Bytes) (rows : ℕ) (warnings : List ValidationIssue) (result : Result (Unit {0}))
      (db : Db)
      → (db.files ≡ w.db.files)
        ⊎ ((result ≡ done tt)
            × (db.files ≡ file_row machine limits content rows warnings ∷ w.db.files))
      → AllBacked (
          record_upload machine limits
            (sanitize_filename request.filename)
            content
            rows
            warnings
            (insert (machine.object_name machine.dataset_id) content w.objects)
            (result, db))
  unfolding record_upload
  recorded content rows warnings (fail e) db (inl same) = rw same (left-IsBacked content)
  recorded content rows warnings (fail e) db (inr (is_done, added)) = absurd (ground arith)
  recorded content rows warnings (done unit) db (inl same) =
      let name = machine.object_name machine.dataset_id in
      rw same (
        changed-IsBacked name w.objects _ (inserted_same name content w.objects) w.db.files others
          backed)
  recorded content rows warnings (done unit) db (inr (is_done, added)) =
      let name = machine.object_name machine.dataset_id in
      rw added (
        record {
          content = content;
          found = ground (arith, lookup-insert name name content w.objects, eq_refl name);
          sized = refl;
        },
        changed-IsBacked name w.objects _ (inserted_same name content w.objects) w.db.files others
            backed,
      )

  kept : (i : Inspected) → AllBacked (store_upload machine limits request i w)
  unfolding store_upload
  kept (stop e) = backed
  kept (clean rows warnings) =
      let filename = sanitize_filename request.filename in
      let content = take (suc limits.max_file_size) request.body in
      let outcome =
        upload_outcome machine.dataset_id (file_row machine limits content rows warnings)
          machine.job_id filename filename uploaded machine.now machine.conn w.db in
      if_ensures AllBacked (machine.fails put) backed (
        recorded content rows warnings _ _ (elim outcome [
          | inl (not_done, same) ↦ inl (ap (λ db. db.files) same)
          | inr (is_done, added, file) ↦ inr (is_done, file)
        ]))

  -- An upload, whatever fails in it, keeps every file row backed by an object of the size that the row
  -- says, on the condition that no file row has the new object's name.
  pub upload_dataset_detailed-IsBacked :
      let (outcome, w') = upload_dataset_detailed machine limits request w in
      All (IsBacked w'.objects) w'.db.files
  unfolding upload_dataset_detailed
  upload_dataset_detailed-IsBacked = kept (inspect machine limits request)
