-- ===== src/Pipeline/Service/Prepare.antt =====
-- src/app/pipeline/service.py: `prepare_presigned_upload` with an idempotency key, one time and
-- again.
pub mod Request
pub mod Steps
use kyrgstudio.Base.{
  ℕ, ◌≡◌, ◌≢◌, sym, subst, String, Option, some, [], ◌∷◌, ◌++◌, true, false, ◌∙◌, ap, refl,
  str_eq_refl, str_eq, str_eq_iff, if◌then◌else◌, inl, inr, Bool-cases,
}
use kyrgstudio.Base.Int.{ℤ, pos, eq_ℤ, eq_ℤ_refl}
use kyrgstudio.Base.Json
use kyrgstudio.Base.Json.{field, end, object, get}
use kyrgstudio.Base.Lists.{find, any}
use kyrgstudio.Errors.{Error}
use kyrgstudio.Database.{Result, ok, err, Exec}
use kyrgstudio.Jobs.{Job, Tables}
use kyrgstudio.Jobs.Fields.{optional_str}
use kyrgstudio.Jobs.Store.{JobDb, has_run_id, new_job, run_id_taken}
use kyrgstudio.Jobs.Store.Replay.{appended, create_job_new, run_id-append}
use kyrgstudio.Storage.Paths.{job_input_key}
use kyrgstudio.World.{World}
use kyrgstudio.Pipeline.Input.{PipelineInput, get_pipeline_type, normalize_pipeline_input}
use kyrgstudio.Pipeline.Payloads.{
  normalize_user_id, build_input_json, with_metadata, payload_of, create_pipeline_job,
}
use kyrgstudio.Pipeline.Service.{
  Backends, PresignedUploadStartResult, file_fields, prepare, direct_upload_fingerprint,
  ensure_matching_idempotent_request, prepare_presigned_upload, key_reused, fingerprint_in, is_text,
}
use kyrgstudio.Pipeline.Service.Replay.{payload-Accepts, create_pipeline_job-replay}
use kyrgstudio.Pipeline.Service.Prepare.Request.{
  UploadRequest, asked, Agree, Differs, put-get, asked-apart,
}
use kyrgstudio.Pipeline.Service.Prepare.Steps.{
  Signs, Valid, call, prepared, fingerprint, made, fingerprint-asked, prepare-matched,
  prepare-refused, create_pipeline_job-found, create_pipeline_job-made,
  ensure_matching_idempotent_request_lem,
}

module _ {X : Type 0} (backends : Backends X) (create_url : String → String → ℕ → Exec X String)
    (signs : Signs backends create_url) (request : UploadRequest) (user_id owner : ℤ)
    (input : PipelineInput) (run_id : String) (expires_in : ℕ)
    (valid : Valid request user_id owner input run_id) (w : World X) (calm : w.db.outages ≡ [])
    (known : any (eq_ℤ owner) w.db.tables.users ≡ true)
    (fresh : run_id_taken (some run_id) w.db.tables.jobs ≡ false) (url : String)
    (signed : (create_url
        (job_input_key w.db.tables.next_id request.filename)
        request.content_type
        expires_in
        w.outside).0
      ≡ ok url) where
  abbrev made_job : Job
  made_job = made backends request w owner run_id

  prepare-first : call backends request user_id input expires_in w ≡ (
    ok (prepared w.db.tables.next_id request.filename url expires_in),
    record {
      db = appended w.db made_job;
      outside =
          (create_url
            (job_input_key w.db.tables.next_id request.filename)
            request.content_type
            expires_in
            w.outside).1;
    },
  )
  prepare-first =
      prepare-matched backends create_url signs request user_id owner input run_id expires_in valid
        w calm made_job (appended w.db made_job) url
        (create_pipeline_job-made backends create_url signs request user_id owner input run_id
          expires_in valid w calm known fresh)
        (ensure_matching_idempotent_request_lem backends request made_job
            (fingerprint backends request) refl
          ∙ rw (str_eq_refl (fingerprint backends request)) refl)
        signed

  module _ (again : World X) (calm_again : again.db.outages ≡ [])
      (same_tables : again.db.tables
        ≡ (call backends request user_id input expires_in w).1.db.tables) where
    found_again : find (has_run_id run_id) again.db.tables.jobs ≡ some made_job
    found_again =
        ap (λ (t : Tables). find (has_run_id run_id) t.jobs)
          (same_tables ∙ ap (λ r. r.1.db.tables) prepare-first)
        ∙ run_id-append run_id w.db.tables.jobs made_job refl fresh

    -- A valid request for a presigned upload under a new key, by a known user, with the database
    -- answering and a storage that signs the URL, returns the next job id and the key of the file
    -- of that job. The same request again on the tables that it leaves, at any time and in any
    -- state of the storage, the database answering and the storage signing the URL, returns the
    -- same job id and the same key of the file with the new URL, and no row is written.
    pub prepare_again :
        (new_url : String)
        → (create_url
            (job_input_key w.db.tables.next_id request.filename)
            request.content_type
            expires_in
            again.outside).0
          ≡ ok new_url
        → ((call backends request user_id input expires_in w).0
            ≡ ok (prepared w.db.tables.next_id request.filename url expires_in))
          × (call backends request user_id input expires_in again ≡ (
            ok (prepared w.db.tables.next_id request.filename new_url expires_in),
            record again {
              outside =
                  (create_url
                    (job_input_key w.db.tables.next_id request.filename)
                    request.content_type
                    expires_in
                    again.outside).1;
            },
          ))
    prepare_again new_url signed_again = (
      ap (λ r. r.0) prepare-first,
      prepare-matched backends create_url signs request user_id owner input run_id expires_in valid
          again calm_again made_job again.db new_url
          (create_pipeline_job-found backends create_url signs request user_id owner input run_id
            expires_in valid again calm_again made_job found_again refl)
          (ensure_matching_idempotent_request_lem backends request made_job
              (fingerprint backends request) refl
            ∙ rw (str_eq_refl (fingerprint backends request)) refl)
          signed_again,
    )

    -- After a valid request for a presigned upload under a new key, by a known user, with the
    -- database answering and a storage that signs the URL, another valid one of the same user
    -- under the same key, on the tables that the first leaves, that is not for the same file name,
    -- content type and size, or whose normalized input has another text, integer or Boolean in a
    -- field, raises IdempotencyConflictError and changes nothing, if equal digests of the two
    -- requests mean that they agree in each text, integer and Boolean of a field or of a field's
    -- own fields: the database answering, at any time and in any state of the storage.
    pub prepare_reused :
        (other : UploadRequest) (other_input : PipelineInput)
        → Valid other user_id owner other_input run_id
        → Differs request other
        → (no_collision : backends.digest (asked request) ≡ backends.digest (asked other)
            → Agree (asked request) (asked other))
        → call backends other user_id other_input expires_in again
          ≡ (err (key_reused backends), again)
    prepare_reused other other_input other_valid differs no_collision =
        prepare-refused backends create_url signs other user_id owner other_input run_id expires_in
          other_valid again calm_again made_job (key_reused backends)
          (create_pipeline_job-found backends create_url signs other user_id owner other_input
            run_id expires_in other_valid again calm_again made_job found_again refl)
          (ensure_matching_idempotent_request_lem backends request made_job
              (fingerprint backends other) refl
            ∙ rw unequal refl)
      where
        unequal : str_eq (fingerprint backends request) (fingerprint backends other) ≡ false
        unequal =
            elim (Bool-cases (str_eq (fingerprint backends request) (fingerprint backends other))) [
              | inl same ↦ absurd (
                  asked-apart request other
                    (no_collision (
                      sym (fingerprint-asked backends request)
                      ∙ ((str_eq_iff (fingerprint backends request) (fingerprint backends other)).0
                            same
                          ∙ fingerprint-asked backends other)))
                    differs)
              | inr apart ↦ apart
            ]
