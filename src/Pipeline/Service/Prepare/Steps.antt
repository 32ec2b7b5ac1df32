-- ===== src/Pipeline/Service/Prepare/Steps.antt =====
-- One call of `prepare_presigned_upload`: the job that it makes or finds, and the check of its
-- fingerprint.
use kyrgstudio.Base.{
  ℕ, ◌≡◌, sym, subst, String, Option, some, [], true, false, ◌∙◌, ap, refl, str_eq, if◌then◌else◌,
}
use kyrgstudio.Base.Int.{ℤ, eq_ℤ, eq_ℤ_refl}
use kyrgstudio.Base.Json
use kyrgstudio.Base.Json.{field, end, object, get}
use kyrgstudio.Base.Lists.{find, any}
use kyrgstudio.Errors.{Error}
use kyrgstudio.Database.{Result, ok, err, Exec}
use kyrgstudio.Jobs.{Job}
use kyrgstudio.Jobs.Fields.{optional_str}
use kyrgstudio.Jobs.Store.{JobDb, has_run_id, new_job, run_id_taken}
use kyrgstudio.Jobs.Store.Replay.{appended, create_job_new}
use kyrgstudio.Storage.Paths.{job_input_key}
use kyrgstudio.World.{World}
use kyrgstudio.Pipeline.Input.{PipelineInput, get_pipeline_type, normalize_pipeline_input}
use kyrgstudio.Pipeline.Payloads.{
  normalize_user_id, build_input_json, with_metadata, payload_of, create_pipeline_job,
}
use kyrgstudio.Pipeline.Service.{
  Backends, PresignedUploadStartResult, file_fields, prepare, direct_upload_fingerprint,
  ensure_matching_idempotent_request, prepare_presigned_upload, key_reused, fingerprint_in,
}
use kyrgstudio.Pipeline.Service.Replay.{payload-Accepts, create_pipeline_job-replay}
use kyrgstudio.Pipeline.Service.Prepare.Request.{UploadRequest, asked, put-get}

-- The storage signs upload URLs with this function.
abbrev pub Signs : {X : Type 0} → Backends X → (String → String → ℕ → Exec X String) → Type 0
Signs backends create_url = backends.create_presigned_upload_url ≡ some create_url

module _ {X : Type 0} (backends : Backends X) (request : UploadRequest) where
  abbrev pub fingerprint : String
  fingerprint =
      direct_upload_fingerprint backends request.input request.filename request.content_type
        request.size_bytes

  abbrev pub metadata : Json.Fields
  metadata =
      file_fields backends request.filename request.content_type request.size_bytes
        (field "request_fingerprint" (Json.text fingerprint) end)

  abbrev pub stored_input : Json.Fields
  stored_input = with_metadata (some metadata) (build_input_json request.input)

  pub fingerprint-asked : fingerprint ≡ backends.digest (asked request)
  unfolding direct_upload_fingerprint
  fingerprint-asked = refl

  -- What the check reads in a job that was prepared.
  stored_fingerprint :
      fingerprint_in backends (get "_direct_upload" stored_input) ≡ some (Json.text fingerprint)
  unfolding get
  stored_fingerprint =
      ap (fingerprint_in backends)
        (put-get "_direct_upload" (object metadata) (build_input_json request.input))

  abbrev pub call : ℤ → PipelineInput → ℕ → World X → Result PresignedUploadStartResult × World X
  call user_id input expires_in =
      prepare_presigned_upload backends user_id input request.filename request.content_type
        request.size_bytes expires_in

  -- The row that the first request makes.
  abbrev pub made : World X → ℤ → String → Job
  made w owner run_id =
      new_job w.db.tables.next_id w.db.now owner (some run_id) (get_pipeline_type request.input)
        stored_input

abbrev pub prepared : ℕ → String → String → ℕ → PresignedUploadStartResult
prepared job_id filename url expires_in = record {
  job_id = job_id;
  object_key = job_input_key job_id filename;
  upload_url = url;
  expires_in = expires_in;
}

-- The request is valid, of this owner, and under this key.
pub record Valid (request : UploadRequest) (user_id owner : ℤ) (input : PipelineInput)
    (run_id : String) : Type 0 where
  pub is_normal : normalize_pipeline_input input ≡ ok request.input
  pub is_owner : normalize_user_id user_id (get_pipeline_type request.input) ≡ ok owner
  pub key : optional_str request.input.run_id ≡ some run_id

module _ {X : Type 0} (backends : Backends X) (create_url : String → String → ℕ → Exec X String)
    (signs : Signs backends create_url) (request : UploadRequest) (user_id owner : ℤ)
    (input : PipelineInput) (run_id : String) (expires_in : ℕ)
    (valid : Valid request user_id owner input run_id) (w : World X)
    (calm : w.db.outages ≡ []) where
  -- A request whose creation gives a job with this fingerprint is answered with a URL.
  pub prepare-matched :
      (job : Job) (db : JobDb) (url : String)
      → create_pipeline_job user_id request.input (some (metadata backends request)) w.db
        ≡ (ok job, db)
      → ensure_matching_idempotent_request backends job (fingerprint backends request) ≡ ok tt
      → (create_url
          (job_input_key job.id request.filename)
          request.content_type
          expires_in
          w.outside).0
        ≡ ok url
      → call backends request user_id input expires_in w ≡ (
        ok (prepared job.id request.filename url expires_in),
        record {
          db = db;
          outside =
              (create_url
                (job_input_key job.id request.filename)
                request.content_type
                expires_in
                w.outside).1;
        },
      )
  unfolding prepare_presigned_upload
  prepare-matched job db url created same signed =
      subst
        (λ (o : Option (String → String → ℕ → Exec X String)).
          prepare backends o user_id input request.filename request.content_type request.size_bytes
            expires_in w
          ≡ (
            ok (prepared job.id request.filename url expires_in),
            record {
              db = db;
              outside =
                  (create_url (job_input_key job.id request.filename) request.content_type
                    expires_in w.outside).1;
            },
          ))
        (sym signs) (rw (valid.is_normal, created, same, signed) refl)

  pub prepare-refused :
      (job : Job) (e : Error)
      → create_pipeline_job user_id request.input (some (metadata backends request)) w.db
        ≡ (ok job, w.db)
      → ensure_matching_idempotent_request backends job (fingerprint backends request) ≡ err e
      → call backends request user_id input expires_in w ≡ (err e, w)
  unfolding prepare_presigned_upload
  prepare-refused job e created other =
      subst
        (λ (o : Option (String → String → ℕ → Exec X String)).
          prepare backends o user_id input request.filename request.content_type request.size_bytes
            expires_in w
          ≡ (err e, w))
        (sym signs) (rw (valid.is_normal, created, other))

  pub create_pipeline_job-found :
      (job : Job)
      → find (has_run_id run_id) w.db.tables.jobs ≡ some job
      → job.user_id ≡ owner
      → create_pipeline_job user_id request.input (some (metadata backends request)) w.db
        ≡ (ok job, w.db)
  create_pipeline_job-found job found owns =
      create_pipeline_job-replay user_id owner request.input (some (metadata backends request))
        run_id job w.db calm valid.is_owner valid.key found
        (ap (λ o. eq_ℤ o owner) owns ∙ eq_ℤ_refl owner)

  pub create_pipeline_job-made :
      any (eq_ℤ owner) w.db.tables.users ≡ true
      → run_id_taken (some run_id) w.db.tables.jobs ≡ false
      → create_pipeline_job user_id request.input (some (metadata backends request)) w.db ≡ (
        ok (made backends request w owner run_id),
        appended w.db (made backends request w owner run_id),
      )
  unfolding create_pipeline_job
  create_pipeline_job-made known fresh =
      let fields = stored_input backends request in
      rw
        (
          valid.is_owner,
          create_job_new (payload_of request.input fields owner) owner
              (get_pipeline_type request.input) fields (payload-Accepts request.input fields owner)
              w.db calm known (ap (λ k. run_id_taken k w.db.tables.jobs) valid.key ∙ fresh),
          valid.key,
        )
        refl

-- The check of a job that a request made compares the fingerprints.
pub ensure_matching_idempotent_request_lem :
    {X : Type 0} (backends : Backends X) (request : UploadRequest) (job : Job) (text : String)
    → job.input_json ≡ stored_input backends request
    → ensure_matching_idempotent_request backends job text
      ≡ (if str_eq (fingerprint backends request) text then ok tt else err (key_reused backends))
unfolding ensure_matching_idempotent_request
ensure_matching_idempotent_request_lem backends request job text is_stored =
    rw (is_stored, stored_fingerprint backends request) refl
