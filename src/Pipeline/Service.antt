-- ===== src/Pipeline/Service.antt =====
-- src/app/pipeline/service.py: `PipelineService`, over the job store and what lies outside it.
pub mod Failure
pub mod Prepare
pub mod Replay
pub mod Submission
mod Tests
use kyrgstudio.Base.{
  ℕ, suc, String, ◌==◌, Option, none, some, List, [], ◌∷◌, Bool, true, false, ◌&&◌, ◌||◌, not,
  str_eq, if◌then◌else◌,
}
use kyrgstudio.Base.Int.{ℤ, pos, eq_ℤ}
use kyrgstudio.Base.Json
use kyrgstudio.Base.Json.{Json, object, field, end, get, put}
use kyrgstudio.Base.Text.{strip, lower, is_blank, is_one_of, or_none, before_char}
use kyrgstudio.Errors.{ErrorClass, Error, new_error, foreign, is_instance}
use kyrgstudio.Database.{Result, ok, err, Exec, pure, raise, lift, catch, ◌>>=◌, ◌>>◌}
use kyrgstudio.Jobs.{Job, pending, uploaded}
use kyrgstudio.Jobs.Fields.{optional_str}
use kyrgstudio.Jobs.Store.{JobDb, same_option}
use kyrgstudio.Jobs.Adapters
use kyrgstudio.World.{World, in_db, in_outside}
use kyrgstudio.Storage.Paths.{job_input_key}
use kyrgstudio.Pipeline.Input.{PipelineInput, get_pipeline_type, normalize_pipeline_input}
use kyrgstudio.Pipeline.Payloads.{
  StoredFile, build_uploaded_job_payload, build_failed_job_payload, build_input_json,
  create_pipeline_job,
}

-- What `get_object_metadata` tells of an object.
pub record ObjectMetadata : Type 0 where
  pub size_bytes : ℕ
  pub content_type : Option String

-- The storage and the queue that the service is given. A storage without presigned uploads or
-- object metadata has `none` there.
pub record Backends (X : Type 0) : Type 0 where
  pub backend : String
  pub uri : String → String
  pub create_presigned_upload_url : Option (String → String → ℕ → Exec X String)
  pub get_object_metadata : Option (String → Exec X (Option ObjectMetadata))
  pub enqueue : ℕ → Exec X (Unit {0})
  pub digest : Json.Fields → String

-- `PipelineStartResult`
pub record PipelineStartResult : Type 0 where
  pub job_id : ℕ
  pub run_id : Option String
  pub status : String
  pub current_step : Option String
  pub pipeline_type : String
  pub storage_backend : String
  pub input_file_key : String
  pub input_file_uri : String

-- `PresignedUploadStartResult`
pub record PresignedUploadStartResult : Type 0 where
  pub job_id : ℕ
  pub object_key : String
  pub upload_url : String
  pub expires_in : ℕ

abbrev type_error : Error
type_error = foreign "TypeError"

-- `_job_required_str`
unfoldable pub job_required_str : Option String → Result String
job_required_str none = err type_error
job_required_str (some value) = if is_blank value then err type_error else ok value

-- `_mark_failed_safely`
unfoldable pub mark_failed_safely : {X : Type 0} → ℕ → Error → Exec (World X) (Unit {0})
mark_failed_safely job_id error =
    catch (in_db (Adapters.mark_failed job_id (build_failed_job_payload error)) >> pure tt)
      (λ _. pure tt)

-- `except Exception as error:` of the service's `try` statements
abbrev pub or_fail : {X A : Type 0} → ℕ → Exec (World X) A → Exec (World X) A
or_fail job_id m = catch m (λ error. mark_failed_safely job_id error >> raise error)

module _ {X : Type 0} (backends : Backends X) where
  -- The body of the `try` statement of `_start`.
  unfoldable pub upload_and_enqueue :
      (ℕ → Exec X StoredFile) → ℕ → Exec (World X) (StoredFile × Job)
  upload_and_enqueue save job_id = do
    file ← in_outside (save job_id)
    row ← in_db (Adapters.mark_uploaded job_id (build_uploaded_job_payload file))
    in_outside (backends.enqueue job_id) >> pure (file, row)

  abbrev pub started : ℕ → String → StoredFile × Job → String → PipelineStartResult
  started job_id pipeline_type (file, row) status = record {
    job_id = job_id;
    run_id = optional_str row.run_id;
    status = status;
    current_step = optional_str (some row.current_step);
    pipeline_type = pipeline_type;
    storage_backend = file.backend;
    input_file_key = file.key;
    input_file_uri = file.uri;
  }

  -- `_start`; `save` is `save_input_file`
  unfoldable pub start :
      ℤ → PipelineInput → (ℕ → Exec X StoredFile) → Exec (World X) PipelineStartResult
  unfolding normalize_pipeline_input
  start user_id input save = do
    normalized ← lift (normalize_pipeline_input input)
    job ← in_db (create_pipeline_job user_id normalized none)
    found ← or_fail job.id (upload_and_enqueue save job.id)
    status ← lift (job_required_str (some found.1.status))
    pure (started job.id (get_pipeline_type normalized) found status)

  abbrev pub file_fields : String → String → ℕ → Json.Fields → Json.Fields
  file_fields filename content_type size_bytes rest = field "filename" (Json.text filename) (
      field "content_type" (Json.text content_type)
        (field "size_bytes" (Json.int (pos size_bytes)) rest))

  -- `_direct_upload_fingerprint`; `digest` is the SHA-256 of the sorted JSON text
  unfoldable pub direct_upload_fingerprint : PipelineInput → String → String → ℕ → String
  unfolding put
  direct_upload_fingerprint input filename content_type size_bytes = backends.digest (
      put "_direct_upload" (object (file_fields filename content_type size_bytes end))
        (build_input_json input))

  abbrev no_direct_upload : Error
  no_direct_upload =
      new_error ErrorClass.provider_config "Configured storage does not support direct uploads."
        (some "configuring_storage") (field "storage_backend" (Json.text backends.backend) end)

  abbrev pub key_reused : Error
  key_reused =
      new_error ErrorClass.idempotency_conflict
        "Idempotency key is already associated with another request." none
        (field "field" (Json.text "Idempotency-Key") end)

  abbrev fingerprint_in : Option Json → Option Json
  fingerprint_in (some (object fields)) = get "request_fingerprint" fields
  fingerprint_in _ = none

  abbrev is_text : Option Json → String → Bool
  is_text (some (Json.text s)) t = str_eq s t
  is_text _ t = false

  -- `_ensure_matching_idempotent_request`; the database-backed row has an `input_json`
  unfoldable pub ensure_matching_idempotent_request : Job → String → Result (Unit {0})
  unfolding get
  ensure_matching_idempotent_request job fingerprint =
      if is_text (fingerprint_in (get "_direct_upload" job.input_json)) fingerprint
      then ok tt
      else err key_reused

  abbrev presigned :
      (String → String → ℕ → Exec X String)
      → String
      → String
      → ℕ
      → ℕ
      → Exec (World X) PresignedUploadStartResult
  presigned create_url filename content_type expires_in job_id = do
    let object_key = job_input_key job_id filename
    upload_url ← or_fail job_id (in_outside (create_url object_key content_type expires_in))
    pure (record {
      job_id = job_id;
      object_key = object_key;
      upload_url = upload_url;
      expires_in = expires_in;
    })

  abbrev prepare_with :
      (String → String → ℕ → Exec X String)
      → ℤ
      → PipelineInput
      → String
      → String
      → ℕ
      → ℕ
      → Exec (World X) PresignedUploadStartResult
  prepare_with create_url user_id input filename content_type size_bytes expires_in = do
    normalized ← lift (normalize_pipeline_input input)
    let fingerprint = direct_upload_fingerprint normalized filename content_type size_bytes
    let metadata =
        file_fields filename content_type size_bytes
          (field "request_fingerprint" (Json.text fingerprint) end)
    job ← in_db (create_pipeline_job user_id normalized (some metadata))
    lift (ensure_matching_idempotent_request job fingerprint)
        >> presigned create_url filename content_type expires_in job.id

  abbrev pub prepare :
      Option (String → String → ℕ → Exec X String)
      → ℤ
      → PipelineInput
      → String
      → String
      → ℕ
      → ℕ
      → Exec (World X) PresignedUploadStartResult
  prepare none user_id input filename content_type size_bytes expires_in = raise no_direct_upload
  prepare (some create_url) user_id input filename content_type size_bytes expires_in =
      prepare_with create_url user_id input filename content_type size_bytes expires_in

  -- `prepare_presigned_upload`
  unfoldable pub prepare_presigned_upload :
      ℤ → PipelineInput → String → String → ℕ → ℕ → Exec (World X) PresignedUploadStartResult
  unfolding direct_upload_fingerprint normalize_pipeline_input
  prepare_presigned_upload = prepare backends.create_presigned_upload_url
