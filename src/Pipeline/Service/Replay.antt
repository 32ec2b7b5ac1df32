-- ===== src/Pipeline/Service/Replay.antt =====
-- src/app/pipeline/service.py: `_start` under the idempotency key of a job that is under way.
use kyrgstudio.Base.{
  ℕ, String, ◌≡◌, refl, Option, none, some, List, [], ◌∷◌, Bool, true, false, arith, ==_iff,
  ==_refl, ◌⊎◌, inl, inr, str_eq_iff,
}
use kyrgstudio.Base.Int.{ℤ, eq_ℤ}
use kyrgstudio.Base.Json
use kyrgstudio.Base.Lists.{find}
use kyrgstudio.Base.Text.{is_one_of, strip}
use kyrgstudio.Errors.{Error}
use kyrgstudio.Database.{ok, err, Exec}
use kyrgstudio.Jobs.{Job, pending, uploaded, running}
use kyrgstudio.Jobs.Fields.{required_str, required_int, required_mapping, optional_str}
use kyrgstudio.Jobs.Marks.{fail_values}
use kyrgstudio.Jobs.Progress.{open_statuses, mark_uploaded-refuses}
use kyrgstudio.Jobs.Store.{JobDb, has_id, has_run_id, invalid_transition}
use kyrgstudio.Jobs.Store.Replay.{Accepts, create_job_replay}
use kyrgstudio.Jobs.Store.Transitions.{Keyed, job_at, stamped, allowed_row}
use kyrgstudio.Pipeline.Input.{
  PipelineInput, Adaptation, get_pipeline_type, type_of, normalize_pipeline_input,
}
use kyrgstudio.Pipeline.Payloads.{
  StoredFile, build_uploaded_job_payload, build_failed_job_payload, build_input_json,
  normalize_user_id, create_pipeline_job, payload_of, with_metadata,
}
use kyrgstudio.Pipeline.Service.Failure.{mark_failed_safely-ok, mark_failed_safely-fails}
use kyrgstudio.Pipeline.Service.{Backends, upload_and_enqueue, start}
use kyrgstudio.World.{World}

-- A row that a query finds is the row of its key.
pub find-job_at :
    (next : ℕ) (p : Job → Bool) (jobs : List Job) (job : Job)
    → Keyed next jobs
    → find p jobs ≡ some job
    → find (has_id job.id) jobs ≡ some job
unfolding find
find-job_at next p [] job keyed found = cc
find-job_at next p (row ∷ jobs) job keyed found =
    ground (arith, find-job_at next p jobs job keyed.2, ==_iff row.id job.id, ==_refl job.id)

pipeline_type_required :
    (a : Option Adaptation)
    → required_str (some (type_of a)) "pipeline_type" "create_job" ≡ ok (type_of a)
unfolding required_str strip
pipeline_type_required none = refl
pipeline_type_required (some a) = refl

pub payload-Accepts :
    (input : PipelineInput) (input_json : Json.Fields) (owner : ℤ)
    → Accepts (payload_of input input_json owner) owner (get_pipeline_type input) input_json
payload-Accepts input input_json owner = record {
  user_id = unfold required_int in refl;
  pipeline = unfold get_pipeline_type in pipeline_type_required input.adaptation;
  mapping = unfold required_mapping in refl;
}

pub create_pipeline_job-replay :
    (user_id owner : ℤ) (input : PipelineInput) (metadata : Option Json.Fields) (run_id : String)
    (job : Job) (db : JobDb)
    → db.outages ≡ []
    → normalize_user_id user_id (get_pipeline_type input) ≡ ok owner
    → optional_str input.run_id ≡ some run_id
    → find (has_run_id run_id) db.tables.jobs ≡ some job
    → eq_ℤ job.user_id owner ≡ true
    → create_pipeline_job user_id input metadata db ≡ (ok job, db)
unfolding create_pipeline_job
create_pipeline_job-replay user_id owner input metadata run_id job db calm is_owner key found owns =
    let fields = with_metadata metadata (build_input_json input) in
    rw (
      is_owner,
      create_job_replay (payload_of input fields owner) owner (get_pipeline_type input) fields
          (payload-Accepts input fields owner) db calm run_id job key found,
      owns,
    )

-- A file whose reference `mark_uploaded` takes.
pub record Referable (file : StoredFile) (backend key uri : String) : Type 0 where
  pub has_backend : required_str (some file.backend) "storage_backend" "mark_uploaded" ≡ ok backend
  pub has_key : required_str (some file.key) "input_file_key" "mark_uploaded" ≡ ok key
  pub has_uri : required_str (some file.uri) "input_file_uri" "mark_uploaded" ≡ ok uri

abbrev under_way : List String
under_way = uploaded ∷ running ∷ []

under_way-cases : (s : String) → is_one_of s under_way ≡ true → (s ≡ uploaded) ⊎ (s ≡ running)
under_way-cases s h = ground (arith, str_eq_iff s uploaded, str_eq_iff s running)

under_way-not_pending :
    (s : String) → is_one_of s under_way ≡ true → is_one_of s (pending ∷ []) ≡ false
under_way-not_pending s h = elim (under_way-cases s h) [ inl e ↦ rw e refl | inr e ↦ rw e refl ]

under_way-open : (s : String) → is_one_of s under_way ≡ true → is_one_of s open_statuses ≡ true
under_way-open s h = elim (under_way-cases s h) [ inl e ↦ rw e refl | inr e ↦ rw e refl ]

module _ {X : Type 0} (backends : Backends X) (save : ℕ → Exec X StoredFile) (w : World X)
    (job : Job) (keyed : Keyed w.db.tables.next_id w.db.tables.jobs) (calm : w.db.outages ≡ [])
    (here : job_at w.db job.id ≡ some job) (moving : is_one_of job.status under_way ≡ true) where
  upload_and_enqueue-refuses :
      (file : StoredFile) (backend key uri : String)
      → (save job.id w.outside).0 ≡ ok file
      → Referable file backend key uri
      → upload_and_enqueue backends save job.id w ≡ (
        err (invalid_transition "mark_uploaded" job.id (pending ∷ [])),
        record w { outside = (save job.id w.outside).1 },
      )
  unfolding upload_and_enqueue build_uploaded_job_payload
  upload_and_enqueue-refuses file backend key uri saved good =
      let refused : allowed_row (pending ∷ []) (job_at w.db job.id) ≡ none =
        rw (here, under_way-not_pending job.status moving) in
      rw (
        saved,
        mark_uploaded-refuses job.id w.db keyed calm (build_uploaded_job_payload file) backend key
            uri good.has_backend good.has_key good.has_uri refused,
      )

abbrev pub not_waiting_for_upload : ℕ → Error
not_waiting_for_upload job_id = invalid_transition "mark_uploaded" job_id (pending ∷ [])

-- A start with a valid input that repeats the idempotency key of the user's job while that job is
-- uploaded or running, at a table with unique keys, with the database answering and a storage that
-- takes the file, raises JobStoreError and marks the job that is under way as failed.
pub start_replay_fails :
    {X : Type 0} (backends : Backends X) (save : ℕ → Exec X StoredFile) (w : World X) (job : Job)
    → Keyed w.db.tables.next_id w.db.tables.jobs
    → w.db.outages ≡ []
    → is_one_of job.status under_way ≡ true
    → (user_id owner : ℤ) (input normalized : PipelineInput) (run_id : String)
    → normalize_pipeline_input input ≡ ok normalized
    → normalize_user_id user_id (get_pipeline_type normalized) ≡ ok owner
    → optional_str normalized.run_id ≡ some run_id
    → find (has_run_id run_id) w.db.tables.jobs ≡ some job
    → eq_ℤ job.user_id owner ≡ true
    → (file : StoredFile) (backend key uri : String) → (save job.id w.outside).0 ≡ ok file
    → Referable file backend key uri
    → ((start backends user_id input save w).0 ≡ err (not_waiting_for_upload job.id))
      × (job_at (start backends user_id input save w).1.db job.id
          ≡ some (
              stamped
                (fail_values (build_failed_job_payload (not_waiting_for_upload job.id)))
                w.db.now
                job))
unfolding start
start_replay_fails backends save w job keyed calm moving user_id owner input normalized run_id
      is_normal is_owner key found owns file backend name uri saved good =
    let error = not_waiting_for_upload job.id in
    let after = (save job.id w.outside).1 in
    let here =
      find-job_at w.db.tables.next_id (has_run_id run_id) w.db.tables.jobs job keyed found in
    rw
      (
        is_normal,
        create_pipeline_job-replay user_id owner normalized none run_id job w.db calm is_owner key
            found owns,
        upload_and_enqueue-refuses backends save w job keyed calm here moving file backend name uri
            saved good,
        mark_failed_safely-ok job.id error (record w { outside = after }),
      )
      (
        refl,
        mark_failed_safely-fails w job.id job keyed calm here (under_way-open job.status moving)
            error after,
      )
