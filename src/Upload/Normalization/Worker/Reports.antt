-- ===== src/Upload/Normalization/Worker/Reports.antt =====
-- What HandleDatasetUploaded of backend/upload-service/internal/service/normalization.go reports.
use anti_fraud_detector.Prelude.{
  option_decides, String, false, ◌≡◌, refl, ◌⊎◌, inl, inr, Option, none, some, List, ◌∷◌, ◌==◌,
  length, arith, Option-cases, Bool-cases, ap, if_ensures,
}
use anti_fraud_detector.Prelude.Dict.{lookup, insert}
use anti_fraud_detector.Prelude.Text.{trim_space}
use anti_fraud_detector.Upload.Normalization.Fields.{NormalizedRow}
use anti_fraud_detector.Upload.Normalization.Rows.{written, normalize_uploaded_object}
use anti_fraud_detector.Upload.Normalization.Worker.{
  UploadedEvent, dataset_normalized, normalization_failed, Cause, no_path, WorkError, permanent,
  retryable, Works, Tools, Normalization, committed, failed, commit_rows, normalize_object,
  publish_normalization_failure, publish_normalized, normalize_event, handle_dataset_uploaded,
  normalized_schema_version,
}

module _ {F Content Body : Type 0} (tools : Tools F Content Body) where
  -- A source that was normalized: the rows of its object, the file that holds them, and the one event.
  pub record IsNormalized (event : UploadedEvent) (w w' : Works Content) : Type 0 where
    pub content : Content
    pub rows : List NormalizedRow
    pub source : lookup event.file_path w.objects ≡ some content
    pub normalizes :
        normalize_uploaded_object tools.ops tools.case_table tools.clock (tools.read_csv content)
        ≡ written rows
    pub files_set : w'.files ≡ insert (tools.path_of event.dataset_id) rows w.files
    pub told :
        w'.sent
        ≡ dataset_normalized (record {
          dataset_id = event.dataset_id;
          job_id = event.job_id;
          records_path = tools.path_of event.dataset_id;
          record_count = length rows;
          schema_version = normalized_schema_version;
        })
          ∷ w.sent

  -- A source that was refused: no file changes, and the one event is of the stage of normalization.
  pub record IsReported (event : UploadedEvent) (w w' : Works Content) : Type 0 where
    pub message : String
    pub same_files : w'.files ≡ w.files
    pub told :
        w'.sent
        ≡ normalization_failed (record {
          dataset_id = event.dataset_id;
          job_id = event.job_id;
          stage = "NORMALIZATION";
          message = message;
        })
          ∷ w.sent

  committed_rows :
      (event : UploadedEvent) (w : Works Content) (path : String) (rows : List NormalizedRow)
      → normalize_object tools event w ≡ committed path rows
      → (path ≡ tools.path_of event.dataset_id)
        × (content : Content) × (lookup event.file_path w.objects ≡ some content)
        × (normalize_uploaded_object tools.ops tools.case_table tools.clock (tools.read_csv content)
            ≡ written rows)
  unfolding normalize_object commit_rows
  committed_rows event w path rows h = ground arith

  -- The event names no dataset or no job.
  abbrev pub IsUnnamed : UploadedEvent → Type 0
  IsUnnamed event =
      (tools.parse_uuid (trim_space event.dataset_id) ≡ none)
      ⊎ (tools.parse_uuid (trim_space event.job_id) ≡ none)

  abbrev Outcome : Option WorkError × Works Content → Works Content → UploadedEvent → Type 0
  Outcome (error, w') w event =
      (IsUnnamed event × (message : String) × (error ≡ some (permanent message)) × (w' ≡ w))
      ⊎ ((message : String) × (error ≡ some (retryable message))
          × (w'.sent ≡ w.sent)
          × (tools.takes ≡ false))
      ⊎ ((error ≡ none) × (IsReported event w w' ⊎ IsNormalized event w w'))

  failure_told :
      (event : UploadedEvent) (cause : Cause) (w : Works Content)
      → Outcome (publish_normalization_failure tools event cause w) w event
  unfolding publish_normalization_failure
  failure_told event cause w = elim (Bool-cases tools.takes) [
    | inl takes ↦ rw takes (
        inr (
          inr (
            refl,
            inl (record { message = tools.describe cause; same_files = refl; told = refl }),
          )))
    | inr refuses ↦ rw refuses (inr (inl (_, refl, refl, refl)))
  ]

  outcome_told :
      (event : UploadedEvent) (n : Normalization) (w : Works Content)
      → normalize_object tools event w ≡ n
      → Outcome (publish_normalized tools event n w) w event
  unfolding publish_normalized
  outcome_told event (failed cause) w h = failure_told event cause w
  outcome_told event (committed path rows) w h =
      let (same_path, content, source, normalizes) = committed_rows event w path rows h in
      elim (Bool-cases tools.takes) [
        | inl takes ↦ rw takes (
            inr (
              inr (
                refl,
                inr (record {
                  content = content;
                  rows = rows;
                  source = source;
                  normalizes = normalizes;
                  files_set = ap (λ p. insert p rows w.files) same_path;
                  told =
                      ap
                        (λ p.
                          dataset_normalized (record {
                            dataset_id = event.dataset_id;
                            job_id = event.job_id;
                            records_path = p;
                            record_count = length rows;
                            schema_version = normalized_schema_version;
                          })
                          ∷ w.sent)
                        same_path;
                }),
              )))
        | inr refuses ↦ rw refuses (inr (inl (_, refl, refl, refl)))
      ]

  event_told :
      (event : UploadedEvent) (w : Works Content) → Outcome (normalize_event tools event w) w event
  unfolding normalize_event
  event_told event w =
      option_decides (λ result. Outcome result w event)
        (tools.parse_uuid (trim_space event.dataset_id))
        (λ bad. inl (inl bad, "dataset.uploaded event has invalid datasetId", refl, refl))
        (λ d named.
          option_decides (λ result. Outcome result w event)
            (tools.parse_uuid (trim_space event.job_id))
            (λ bad. inl (inr bad, "dataset.uploaded event has invalid jobId", refl, refl))
            (λ j identified.
              if_ensures (λ result. Outcome result w event) (trim_space event.file_path == "")
                (failure_told event no_path w)
                (outcome_told event (normalize_object tools event w) w refl)))

  -- A message about an uploaded file is malformed, as it cannot be decoded or does not name a dataset
  -- and a job, and then it is refused for good and nothing changes; or
  -- the broker does not take the event, and the message is to be retried and no event is sent; or, with
  -- no error, one event is sent: that the normalization failed, and no file changes, or that the dataset
  -- is normalized, with the number of the rows of the object that the file at the named path holds.
  pub handle_dataset_uploaded-reports :
      (body : Body) (w : Works Content)
      → let (error, w') = handle_dataset_uploaded tools body w in
        (((tools.decode body ≡ none)
            ⊎ ((event : UploadedEvent) × (tools.decode body ≡ some event) × IsUnnamed event))
          × (message : String) × (error ≡ some (permanent message))
          × (w' ≡ w))
        ⊎ ((message : String) × (error ≡ some (retryable message))
            × (w'.sent ≡ w.sent)
            × (tools.takes ≡ false))
        ⊎ ((event : UploadedEvent) × (tools.decode body ≡ some event)
            × (error ≡ none)
            × (IsReported event w w' ⊎ IsNormalized event w w'))
  unfolding handle_dataset_uploaded
  handle_dataset_uploaded-reports body w = elim (Option-cases (tools.decode body)) [
    | inl bad ↦
        rw (bad, handle_dataset_uploaded)
          (inl (inl refl, "invalid dataset.uploaded event JSON", refl, refl))
    | inr (event, decoded) ↦
        rw (decoded, handle_dataset_uploaded)
          (elim (event_told event w) [
            | inl (unnamed, message, told, same) ↦
                inl (inr (event, refl, unnamed), message, told, same)
            | inr (inl retried) ↦ inr (inl retried)
            | inr (inr (fine, told)) ↦ inr (inr (event, refl, fine, told))
          ])
  ]
