-- ===== src/Pipeline/Confirm.antt =====
-- src/app/pipeline/service.py: `PipelineService.confirm_presigned_upload`.
pub mod Laws
pub mod Pending
use kyrgstudio.Base.{
  ℕ, suc, String, ◌==◌, Option, none, some, List, [], ◌∷◌, Bool, true, false, ◌&&◌, ◌||◌, not,
  str_eq, if◌then◌else◌,
}
use kyrgstudio.Base.Int.{ℤ, pos, eq_ℤ}
use kyrgstudio.Base.Json
use kyrgstudio.Base.Json.{Json, object, field, end, get}
use kyrgstudio.Base.Text.{strip, lower, is_blank, is_one_of, before_char}
use kyrgstudio.Errors.{ErrorClass, Error, new_error, is_instance}
use kyrgstudio.Database.{Result, ok, err, Exec, pure, raise, lift, catch, ◌>>=◌, ◌>>◌, bind_result}
use kyrgstudio.Jobs.{Job, pending, uploaded, supported_pipeline_types}
use kyrgstudio.Jobs.Fields.{optional_str}
use kyrgstudio.Jobs.Store.{same_option}
use kyrgstudio.Jobs.Adapters
use kyrgstudio.Storage.Paths.{job_input_key}
use kyrgstudio.Pipeline.Payloads.{StoredFile, build_uploaded_job_payload}
use kyrgstudio.Pipeline.Service.{
  ObjectMetadata, Backends, PipelineStartResult, job_required_str, or_fail,
}
use kyrgstudio.World.{World, in_db, in_outside}

abbrev confirm_error : String → Json.Fields → Error
confirm_error message details =
    new_error ErrorClass.invalid_input message (some "confirming_upload") details

-- What `_direct_upload_metadata` returns.
pub record UploadMetadata : Type 0 where
  pub filename : String
  pub content_type : String
  pub size_bytes : ℕ

abbrev no_metadata : Error
no_metadata =
    confirm_error "Job has no direct upload metadata."
      (field "field" (Json.text "_direct_upload") end)

abbrev bad_metadata : Error
bad_metadata =
    confirm_error "Job direct upload metadata is invalid."
      (field "field" (Json.text "_direct_upload") end)

abbrev checked_metadata : Option Json → Option Json → Option Json → Result UploadMetadata
checked_metadata (some (Json.text filename)) (some (Json.text content_type))
      (some (Json.int (pos (suc n)))) =
    if is_blank filename || is_blank content_type
    then err bad_metadata
    else ok (record {
      filename = filename;
      content_type = lower (strip (before_char 59 content_type));
      size_bytes = suc n;
    })
checked_metadata _ _ _ = err bad_metadata

abbrev raw_metadata : Option Json → Result UploadMetadata
raw_metadata (some (object raw)) =
    checked_metadata (get "filename" raw) (get "content_type" raw) (get "size_bytes" raw)
raw_metadata _ = err no_metadata

-- `_direct_upload_metadata`; the row's `input_json` is a `dict`
unfoldable pub direct_upload_metadata : Job → Result UploadMetadata
unfolding get
direct_upload_metadata job = raw_metadata (get "_direct_upload" job.input_json)

abbrev bad_type : Error
bad_type =
    confirm_error "Job pipeline type is invalid." (field "field" (Json.text "pipeline_type") end)

-- `_pipeline_start_result`
unfoldable pub pipeline_start_result : Job → Result PipelineStartResult
unfolding job_required_str optional_str
pipeline_start_result job = bind_result (job_required_str (some job.pipeline_type)) λ pipeline_type.
    if not (is_one_of pipeline_type supported_pipeline_types)
    then err bad_type
    else bind_result (job_required_str (some job.status)) λ status.
      bind_result (job_required_str job.storage_backend) λ storage_backend.
        bind_result (job_required_str job.input_file_key) λ input_file_key.
          bind_result (job_required_str job.input_file_uri) λ input_file_uri. ok (record {
            job_id = job.id;
            run_id = optional_str job.run_id;
            status = status;
            current_step = optional_str (some job.current_step);
            pipeline_type = pipeline_type;
            storage_backend = storage_backend;
            input_file_key = input_file_key;
            input_file_uri = input_file_uri;
          })

abbrev not_the_users : ℕ → Error
not_the_users job_id =
    new_error ErrorClass.job_not_found "Job was not found for the authenticated user." none
      (field "job_id" (Json.int (pos job_id)) end)

abbrev owned : ℤ → ℕ → Option Job → Result Job
owned user_id job_id none = err (not_the_users job_id)
owned user_id job_id (some job) =
    if eq_ℤ job.user_id user_id then ok job else err (not_the_users job_id)

abbrev other_reference : Error
other_reference =
    confirm_error "Job upload reference does not match."
      (field "field" (Json.text "input_file_key") end)

abbrev not_waiting : String → Error
not_waiting status =
    confirm_error "Job is not waiting for upload confirmation."
      (field "field" (Json.text "status") (field "status" (Json.text status) end))

abbrev no_object : Error
no_object =
    new_error ErrorClass.file_not_found "Uploaded object was not found in storage."
      (some "confirming_upload") (field "field" (Json.text "upload") end)

abbrev other_size : ℕ → Error
other_size size_bytes =
    confirm_error "Uploaded object size does not match metadata."
      (field "field" (Json.text "size_bytes") (field "size_bytes" (Json.int (pos size_bytes)) end))

abbrev other_type : Error
other_type =
    confirm_error "Uploaded object content type does not match."
      (field "field" (Json.text "content_type") (field "type" (Json.text "mismatch") end))

-- The checks of the stored object against the metadata that the job was prepared with.
unfoldable pub check_object : UploadMetadata → Option ObjectMetadata → Result (Unit {0})
check_object expected none = err no_object
check_object expected (some found) =
    if not (found.size_bytes == expected.size_bytes)
    then err (other_size found.size_bytes)
    else if not (same_option found.content_type expected.content_type)
    then err other_type
    else ok tt

abbrev no_support : String → Error
no_support backend =
    new_error ErrorClass.provider_config "Upload confirmation requires object metadata support."
      (some "configuring_storage") (field "storage_backend" (Json.text backend) end)

-- The condition under which a lost race of `mark_uploaded` is a confirmation all the same.
abbrev confirmed_meanwhile : ℤ → String → Option Job → Option Job
confirmed_meanwhile user_id object_key none = none
confirmed_meanwhile user_id object_key (some job) =
    if eq_ℤ job.user_id user_id
      && str_eq job.status uploaded
      && same_option job.input_file_key object_key
    then some job
    else none

module _ {X : Type 0} (backends : Backends X) where
  abbrev after_race : Error → Option Job → Exec (World X) PipelineStartResult
  after_race error none = raise error
  after_race error (some job) = lift (pipeline_start_result job)

  -- `except JobStoreError:` of `confirm_presigned_upload`
  abbrev recheck : ℤ → ℕ → String → Error → Exec (World X) PipelineStartResult
  recheck user_id job_id object_key error =
      if is_instance ErrorClass.job_store error
      then (do
        current ← in_db (Adapters.get_job job_id)
        after_race error (confirmed_meanwhile user_id object_key current))
      else raise error

  -- The queue, once the transition of the row is committed.
  abbrev enqueue_row : ℕ → Job → Exec (World X) PipelineStartResult
  enqueue_row job_id row =
      or_fail job_id (in_outside (backends.enqueue job_id)) >> lift (pipeline_start_result row)

  abbrev marked : ℤ → ℕ → String → Result Job × World X → Result PipelineStartResult × World X
  marked user_id job_id object_key (ok row, w) = enqueue_row job_id row w
  marked user_id job_id object_key (err error, w) = recheck user_id job_id object_key error w

  -- From `mark_pipeline_job_uploaded` to the end.
  unfoldable pub mark_and_enqueue : ℤ → ℕ → String → Exec (World X) PipelineStartResult
  unfolding is_instance pipeline_start_result
  mark_and_enqueue user_id job_id object_key w = marked user_id job_id object_key (
      in_db
        (Adapters.mark_uploaded job_id (
          build_uploaded_job_payload (record {
            key = object_key;
            uri = backends.uri object_key;
            backend = backends.backend;
          })))
        w)

  abbrev confirm_pending :
      (String → Exec X (Option ObjectMetadata))
      → ℤ
      → ℕ
      → String
      → UploadMetadata
      → Exec (World X) PipelineStartResult
  confirm_pending get_metadata user_id job_id object_key expected = do
    found ← in_outside (get_metadata object_key)
    lift (check_object expected found) >> mark_and_enqueue user_id job_id object_key

  abbrev confirm_job :
      (String → Exec X (Option ObjectMetadata))
      → ℤ
      → ℕ
      → Job
      → String
      → UploadMetadata
      → Exec (World X) PipelineStartResult
  confirm_job get_metadata user_id job_id job status expected =
      let object_key = job_input_key job_id expected.filename in
      if str_eq status uploaded
      then if same_option job.input_file_key object_key
        then lift (pipeline_start_result job)
        else raise other_reference
      else if not (str_eq status pending)
      then raise (not_waiting status)
      else confirm_pending get_metadata user_id job_id object_key expected

  abbrev pub confirm :
      Option (String → Exec X (Option ObjectMetadata)) → ℤ → ℕ → Exec (World X) PipelineStartResult
  confirm none user_id job_id = raise (no_support backends.backend)
  confirm (some get_metadata) user_id job_id = do
    current ← in_db (Adapters.get_job job_id)
    job ← lift (owned user_id job_id current)
    status ← lift (job_required_str (some job.status))
    expected ← lift (direct_upload_metadata job)
    confirm_job get_metadata user_id job_id job status expected

  -- `confirm_presigned_upload`
  unfoldable pub confirm_presigned_upload : ℤ → ℕ → Exec (World X) PipelineStartResult
  unfolding direct_upload_metadata check_object pipeline_start_result
  confirm_presigned_upload = confirm backends.get_object_metadata
