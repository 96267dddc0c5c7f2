-- ===== src/Upload/Ingestion/Receive/Laws.antt =====
-- What UploadDatasetDetailed of backend/upload-service/internal/service/ingestion.go leaves in the tables
-- and in the object store.
use anti_fraud_detector.Prelude.{
  ℕ, suc, ◌≤◌, String, Bool, true, false, ◌≡◌, refl, subst, ◌⊎◌, inl, inr, none, some, List, ◌∷◌,
  ◌==◌, ◌&&◌, ◌||◌, not, leb, if◌then◌else◌, ltb, eqb, length, map, take, take-short, arith, any,
  eq_iff, if_ensures, ◌≢◌,
}
use anti_fraud_detector.Prelude.Dict.{lookup, insert, remove, lookup-insert, lookup-remove}
use anti_fraud_detector.Upload.Domain.{UploadedFile, uploaded}
use anti_fraud_detector.Upload.Db.{Db, Result, done, fail}
use anti_fraud_detector.Upload.Repository.Effects.{Uploaded, upload_outcome}
use anti_fraud_detector.Upload.Ingestion.Names.{
  sanitize_filename, file_ext, is_csv_ext, is_csv_content_type,
}
use anti_fraud_detector.Upload.Ingestion.Issues.{ValidationIssue}
use anti_fraud_detector.Upload.Ingestion.Rows.{Validation, valid, invalid, validate_csv_stream}
use anti_fraud_detector.Upload.Ingestion.Receive.{
  Bytes, Request, create_temp, copy, first_rewind, read_probe, second_rewind, exceeds, delete, put,
  Machine, Limits, World, Inspected, stop, clean, Outcome, stored, failed, UploadResult,
  UploadError, internal, rules_of, file_row, inspected_rows, inspect_content, inspect,
  record_upload, store_upload, upload_dataset_detailed,
}

-- A check that stops the upload was passed.
passed :
    (test : Bool) (e : UploadError) (rest : Inspected) (rows : ℕ) (warnings : List ValidationIssue)
    → (if test then stop e else rest) ≡ clean rows warnings
    → (test ≡ false) × (rest ≡ clean rows warnings)
passed true e rest rows warnings h = absurd (ground arith)
passed false e rest rows warnings h = (refl, h)

at_most : (m n : ℕ) → ltb m n ≡ false → n ≤ m
at_most m n h = ground arith

not_zero : (n : ℕ) → eqb n 0 ≡ false → 1 ≤ n
not_zero n h = ground arith

module _ {F : Type 0} (machine : Machine F) (limits : Limits) (request : Request) where
  -- What an inspection that finds nothing says of the body.
  pub record IsInspected (rows : ℕ) (warnings : List ValidationIssue) : Type 0 where
    pub whole : take (suc limits.max_file_size) request.body ≡ request.body
    pub some_byte : 1 ≤ length request.body
    pub fits : length request.body ≤ limits.max_file_size
    pub checked :
        validate_csv_stream (rules_of machine limits) (machine.read_csv request.body)
        ≡ valid rows warnings

  inspected_valid :
      (v : Validation) (rows : ℕ) (warnings : List ValidationIssue)
      → inspected_rows machine limits v ≡ clean rows warnings
      → v ≡ valid rows warnings
  unfolding inspected_rows
  inspected_valid (valid n issues) rows warnings e = ground arith
  inspected_valid (invalid i) rows warnings e = absurd (ground arith)

  content_valid :
      (content : Bytes) (rows : ℕ) (warnings : List ValidationIssue)
      → inspect_content machine limits request content ≡ clean rows warnings
      → inspected_rows machine limits
          (validate_csv_stream (rules_of machine limits) (machine.read_csv content))
        ≡ clean rows warnings
  unfolding inspect_content
  content_valid content rows warnings e =
      let (readable, e1) = passed (machine.fails read_probe) _ _ rows warnings e in
      let (some_text, e2) =
        passed (machine.is_blank (take 512 content) && leb (length content) 512) _ _ rows warnings
          e1 in
      let (no_zero, e3) = passed (any (λ b. eqb b 0) (take 512 content)) _ _ rows warnings e2 in
      let (textual, e4) =
        passed
          (not (is_csv_content_type machine.case_table request.content_type)
            || not (
                is_csv_content_type machine.case_table
                  (machine.detect_content_type (take 512 content))))
          _ _ rows warnings e3 in
      (passed (machine.fails second_rewind) _ _ rows warnings e4).1

  content_of_inspect :
      (rows : ℕ) (warnings : List ValidationIssue)
      → inspect machine limits request ≡ clean rows warnings
      → let content = take (suc limits.max_file_size) request.body in
        (length content ≤ limits.max_file_size)
        × (1 ≤ length content)
        × (inspect_content machine limits request content ≡ clean rows warnings)
  unfolding inspect
  content_of_inspect rows warnings e =
      let (named, e1) =
        passed (not (is_csv_ext (file_ext (sanitize_filename request.filename)))) _ _ rows warnings
          e in
      let (declared, e2) =
        passed (exceeds request.declared_size limits.max_file_size) _ _ rows warnings e1 in
      let (created, e3) = passed (machine.fails create_temp) _ _ rows warnings e2 in
      let (copied, e4) = passed (machine.fails copy) _ _ rows warnings e3 in
      let (small, e5) =
        passed (ltb limits.max_file_size (length (take (suc limits.max_file_size) request.body))) _
          _ rows warnings e4 in
      let (some_byte, e6) =
        passed (eqb (length (take (suc limits.max_file_size) request.body)) 0) _ _ rows warnings
          e5 in
      let (rewound, e7) = passed (machine.fails first_rewind) _ _ rows warnings e6 in
      (at_most _ _ small, not_zero _ some_byte, e7)

  pub inspect-IsInspected :
      (rows : ℕ) (warnings : List ValidationIssue)
      → inspect machine limits request ≡ clean rows warnings
      → IsInspected rows warnings
  inspect-IsInspected rows warnings e =
      let (short, some_byte, content_clean) = content_of_inspect rows warnings e in
      let whole = take-short (suc limits.max_file_size) request.body (omega (arith, short)) in
      let checked = inspected_valid _ rows warnings (content_valid _ rows warnings content_clean) in
      record {
        whole = whole;
        some_byte = subst (λ b. 1 ≤ length b) whole some_byte;
        fits = subst (λ b. length b ≤ limits.max_file_size) whole short;
        checked =
            subst
              (λ b.
                validate_csv_stream (rules_of machine limits) (machine.read_csv b)
                ≡ valid rows warnings)
              whole checked;
      }

  -- A row of the files says where the object is, and of which size, with how many rows and with
  -- which warnings.
  pub record IsRowOf (r : UploadResult) (file : UploadedFile) : Type 0 where
    pub owner : file.dataset_id ≡ machine.dataset_id
    pub path : file.file_path ≡ machine.object_name machine.dataset_id
    pub size : file.size_bytes ≡ length request.body
    pub rows_said : file.row_count ≡ r.row_count
    pub warnings_said : file.warnings ≡ map (λ (i : ValidationIssue). i.message) r.warnings
    pub time : file.uploaded_at ≡ machine.now

  -- The upload has been stored: the whole body under its own name, and its three rows.
  pub record IsStored (r : UploadResult) (w w' : World) : Type 0 where
    pub inspected : IsInspected r.row_count r.warnings
    pub sized : r.size_bytes ≡ length request.body
    pub objects :
        (name : String)
        → lookup name w'.objects ≡ (
            if machine.object_name machine.dataset_id == name
            then some request.body
            else lookup name w.objects)
    pub rows_added : Uploaded machine.dataset_id machine.job_id uploaded machine.now w.db w'.db
    pub file_added : (file : UploadedFile) × (w'.db.files ≡ file ∷ w.db.files) × IsRowOf r file

  -- A refused upload.
  pub record IsUntouched (w w' : World) : Type 0 where
    pub same_rows : w'.db ≡ w.db
    pub same_objects : (name : String) → lookup name w'.objects ≡ lookup name w.objects

  module _ (deletes : machine.fails delete ≡ false) (w : World)
      (fresh : lookup (machine.object_name machine.dataset_id) w.objects ≡ none) where
    abbrev IsDone : Outcome × World → Type 0
    IsDone (outcome, w') =
        ((e : UploadError) × (outcome ≡ failed e) × IsUntouched w w')
        ⊎ ((r : UploadResult) × (outcome ≡ stored r) × IsStored r w w')

    unchanged : (e : UploadError) → IsDone (failed e, w)
    unchanged e = inl (e, refl, record { same_rows = refl; same_objects = λ name. refl })

    -- The object is put and removed again.
    removed_same :
        (content : Bytes) (name : String)
        → lookup name (
            remove
              (machine.object_name machine.dataset_id)
              (insert (machine.object_name machine.dataset_id) content w.objects))
          ≡ lookup name w.objects
    removed_same content name =
        let key = machine.object_name machine.dataset_id in
        ground (
          arith,
          lookup-remove key name (insert key content w.objects),
          lookup-insert key name content w.objects,
          eq_iff key name,
          fresh,
        )

    recorded :
        (rows : ℕ) (warnings : List ValidationIssue)
        → IsInspected rows warnings
        → (result : Result (Unit {0})) (db : Db)
        → ((result ≢ done tt) × (db ≡ w.db))
          ⊎ ((result ≡ done tt)
              × Uploaded machine.dataset_id machine.job_id uploaded machine.now w.db db
              × (db.files ≡ file_row machine limits request.body rows warnings ∷ w.db.files))
        → IsDone (
            record_upload machine limits
              (sanitize_filename request.filename)
              request.body
              rows
              warnings
              (insert (machine.object_name machine.dataset_id) request.body w.objects)
              (result, db))
    unfolding record_upload
    recorded rows warnings inspected (fail e) db (inl (not_done, same)) = inl (
      internal "create upload records",
      refl,
      record {
        same_rows = same;
        same_objects = λ name. rw deletes (removed_same request.body name);
      },
    )
    recorded rows warnings inspected (fail e) db (inr (is_done, added, file)) =
        absurd (ground arith)
    recorded rows warnings inspected (done unit) db (inl (not_done, same)) = absurd (not_done refl)
    recorded rows warnings inspected (done unit) db (inr (is_done, uploaded_rows, file)) = inr (
      _,
      refl,
      record {
        inspected = inspected;
        sized = refl;
        objects = λ name.
            lookup-insert (machine.object_name machine.dataset_id) name request.body w.objects;
        rows_added = uploaded_rows;
        file_added = (
          file_row machine limits request.body rows warnings,
          file,
          record {
            owner = refl;
            path = refl;
            size = refl;
            rows_said = refl;
            warnings_said = refl;
            time = refl;
          },
        );
      },
    )

    inspected_IsDone :
        (i : Inspected)
        → inspect machine limits request ≡ i
        → IsDone (store_upload machine limits request i w)
    unfolding store_upload
    inspected_IsDone (stop e) same = unchanged e
    inspected_IsDone (clean rows warnings) same =
        let inspected = inspect-IsInspected rows warnings same in
        let filename = sanitize_filename request.filename in
        if_ensures IsDone (machine.fails put) (unchanged (internal "upload object")) (
          rw inspected.whole (
            recorded rows warnings inspected _ _ (
              upload_outcome machine.dataset_id (file_row machine limits request.body rows warnings)
                machine.job_id filename filename uploaded machine.now machine.conn w.db)))

    -- An upload either is refused, and then the tables and all objects are as they were, or it is stored:
    -- then the body was not empty, within the limit and its rows were accepted, the object of the new
    -- dataset is the whole body, every other object is as it was, and the dataset, its first job and a
    -- file row that says the object's name, the body's size, the number of its rows and the messages of
    -- its warnings are added. It is a condition that no
    -- object has the new dataset's name yet, and that a deletion of the object does not fail.
    pub upload_dataset_detailed-stores :
        let (outcome, w') = upload_dataset_detailed machine limits request w in
        ((e : UploadError) × (outcome ≡ failed e) × IsUntouched w w')
        ⊎ ((r : UploadResult) × (outcome ≡ stored r) × IsStored r w w')
    unfolding upload_dataset_detailed
    upload_dataset_detailed-stores = inspected_IsDone (inspect machine limits request) refl
