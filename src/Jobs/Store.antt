-- ===== src/Jobs/Store.antt =====
-- src/app/store/jobs.py: `SQLAlchemyJobStore`, one action for each method.
pub mod Transitions
pub mod Creation
pub mod Replay
pub mod Progress
pub mod Reads
use kyrgstudio.Base.{
  ℕ, ◌+◌, String, ◌==◌, Option, none, some, List, [], ◌∷◌, ◌++◌, Bool, true, false, ◌&&◌, ◌||◌, not,
  str_eq, if◌then◌else◌,
}
use kyrgstudio.Base.Int.{ℤ, pos, eq_ℤ}
use kyrgstudio.Base.Json
use kyrgstudio.Base.Json.{Json, Float, object, array, field, end, texts, text_or_null, get}
use kyrgstudio.Base.Lists.{find, any, update_where}
use kyrgstudio.Base.Text.{is_one_of}
use kyrgstudio.Errors.{ErrorClass, Error, new_error}
use kyrgstudio.Database.{
  Result, ok, err, Exec, pure, raise, lift, ◌>>=◌, Database, Outcome, done, integrity, statement,
  query,
}
use kyrgstudio.Database
use kyrgstudio.Jobs.{Job, JobEvent, Tables, pending, uploaded, running, completed, failed_status}
use kyrgstudio.Jobs.Fields.{
  Scalar, job_store_error, store_failure, required_str, required_int, required_mapping,
  optional_str, optional_mapping, normalize_step,
}

abbrev pub JobDb : Type 0
JobDb = Database Tables

abbrev pub has_id : ℕ → Job → Bool
has_id job_id job = job.id == job_id

abbrev pub same_option : Option String → String → Bool
same_option none s = false
same_option (some r) s = str_eq r s

abbrev pub has_run_id : String → Job → Bool
has_run_id run_id job = same_option job.run_id run_id

abbrev id_details : ℕ → Json.Fields
id_details job_id = field "job_id" (Json.int (pos job_id)) end

-- What a store method makes of the outcome of a query.
abbrev or_failure : {A : Type 0} → String → String → Json.Fields → Outcome A → Result A
or_failure operation message details (done a) = ok a
or_failure operation message details (integrity name) =
    err (store_failure operation message details name)
or_failure operation message details (Outcome.failed name) =
    err (store_failure operation message details name)

abbrev handled : {A : Type 0} → String → String → Json.Fields → Outcome A × JobDb → Result A × JobDb
handled operation message details (o, db) = (or_failure operation message details o, db)

-- `get_job`; ids are unique, so the first row is the row
pub get_job : ℕ → Exec JobDb (Option Job)
unfolding query find store_failure
get_job job_id db =
    handled "get_job" "Failed to get job." (id_details job_id)
      (query (λ t. find (has_id job_id) t.jobs) db)

-- `get_user_job`
pub get_user_job : ℤ → ℕ → Exec JobDb (Option Job)
unfolding query find store_failure
get_user_job user_id job_id db =
    handled "get_user_job" "Failed to get user job."
      (field "user_id" (Json.int user_id) (id_details job_id))
      (query (λ t. find (λ job. has_id job_id job && eq_ℤ job.user_id user_id) t.jobs) db)

abbrev job_by_run_id : Option String → Exec JobDb (Option Job)
job_by_run_id none db = pure none db
job_by_run_id (some run_id) db =
    handled "get_job_by_run_id" "Failed to get job by run_id."
      (field "run_id" (Json.text run_id) end) (query (λ t. find (has_run_id run_id) t.jobs) db)

-- `get_job_by_run_id`
pub get_job_by_run_id : String → Exec JobDb (Option Job)
unfolding query find store_failure optional_str
get_job_by_run_id run_id = job_by_run_id (optional_str (some run_id))

-- The payload of `create_job`: a field that is missing is `absent`, `none` or `null`.
pub record JobPayload : Type 0 where
  pub user_id : Scalar
  pub pipeline_type : Option String
  pub run_id : Option String
  pub input_json : Json

-- A row as the model's constructor and the column defaults make it.
abbrev pub new_job : ℕ → ℕ → ℤ → Option String → String → Json.Fields → Job
new_job id now user_id run_id pipeline_type input_json = record {
  id = id;
  user_id = user_id;
  run_id = run_id;
  status = pending;
  current_step = "created";
  pipeline_type = pipeline_type;
  input_json = input_json;
  storage_backend = none;
  input_file_key = none;
  input_file_uri = none;
  audio_file_key = none;
  audio_file_uri = none;
  output_json = none;
  error_json = none;
  token_usage_json = none;
  execution_time_seconds = none;
  created_at = now;
  updated_at = now;
  started_at = none;
  finished_at = none;
}

abbrev pub run_id_taken : Option String → List Job → Bool
run_id_taken none jobs = false
run_id_taken (some run_id) jobs = any (has_run_id run_id) jobs

abbrev insert_row : Bool → Job → Tables → Outcome Job × Tables
insert_row true job t = (done job, record t { jobs = t.jobs ++ job ∷ []; next_id = t.next_id + 1 })
insert_row false job t = (integrity "IntegrityError", t)

-- `INSERT` of a job: the foreign key to `users` and the unique `run_id` are checked.
pub insert_job : ℤ → Option String → String → Json.Fields → ℕ → Tables → Outcome Job × Tables
unfolding any
insert_job user_id run_id pipeline_type input_json now t =
    insert_row (any (eq_ℤ user_id) t.users && not (run_id_taken run_id t.jobs))
      (new_job t.next_id now user_id run_id pipeline_type input_json) t

abbrev owner_details : ℤ → String → Json.Fields
owner_details user_id pipeline_type =
    field "user_id" (Json.int user_id) (field "pipeline_type" (Json.text pipeline_type) end)

abbrev conflict_details : Json.Fields
conflict_details = field "field" (Json.text "Idempotency-Key") end

abbrev pub run_id_conflict : Error
run_id_conflict =
    new_error ErrorClass.idempotency_conflict "Job run_id is already owned by another user." none
      conflict_details

-- What `create_job` does with the row that owns the `run_id`, if there is one.
abbrev existing_job : ℤ → String → String → Option Job → Exec JobDb Job
existing_job user_id run_id name none = raise (
    store_failure "create_job" "Job run_id conflict occurred, but the existing job was not found."
      (field "run_id" (Json.text run_id) end) name)
existing_job user_id run_id name (some job) =
    if eq_ℤ job.user_id user_id then pure job else raise run_id_conflict

-- The `except` clauses of `create_job`.
abbrev created : ℤ → String → Option String → Outcome Job → Exec JobDb Job
created user_id pipeline_type run_id (done job) = pure job
created user_id pipeline_type none (integrity name) = raise (
    store_failure "create_job" "Failed to create job because a database constraint failed."
      (owner_details user_id pipeline_type) name)
created user_id pipeline_type (some run_id) (integrity name) = do
  existing ← get_job_by_run_id run_id
  existing_job user_id run_id name existing
created user_id pipeline_type run_id (Outcome.failed name) =
    raise (
      store_failure "create_job" "Failed to create job." (owner_details user_id pipeline_type) name)

pub create_row : ℤ → String → Option String → Json.Fields → Exec JobDb Job
unfolding insert_job statement store_failure new_error
create_row user_id pipeline_type run_id input_json db =
    let (o, after) = statement (insert_job user_id run_id pipeline_type input_json) db in
    created user_id pipeline_type run_id o after

-- `create_job`
pub create_job : JobPayload → Exec JobDb Job
unfolding create_row required_int required_str required_mapping optional_str
create_job payload = do
  user_id ← lift (required_int payload.user_id "user_id" "create_job")
  pipeline_type ← lift (required_str payload.pipeline_type "pipeline_type" "create_job")
  input_json ← lift (required_mapping payload.input_json "input_json" "create_job")
  create_row user_id pipeline_type (optional_str payload.run_id) input_json

abbrev pub allows : ℕ → List String → Job → Bool
allows job_id allowed job = has_id job_id job && is_one_of job.status allowed

abbrev returned_id : Option Job → Option ℕ
returned_id none = none
returned_id (some job) = some job.id

-- `UPDATE jobs SET … WHERE id = … AND status IN (…) RETURNING id`
pub guarded_update : ℕ → List String → (ℕ → Job → Job) → ℕ → Tables → Outcome (Option ℕ) × Tables
unfolding find update_where
guarded_update job_id allowed set now t = (
  done (returned_id (find (allows job_id allowed) t.jobs)),
  record t {
    jobs =
        update_where (allows job_id allowed) (λ job. record (set now job) { updated_at = now })
          t.jobs;
  },
)

abbrev pub invalid_transition : String → ℕ → List String → Error
invalid_transition operation job_id allowed = job_store_error "Invalid job status transition." (
    field "operation" (Json.text operation) (
      field "job_id" (Json.int (pos job_id))
        (field "allowed_statuses" (array (texts allowed)) end)))

abbrev updated_row : String → ℕ → Option Job → Exec JobDb Job
updated_row operation job_id none = raise (
    job_store_error "Updated job was not found after transition."
      (field "operation" (Json.text operation) (id_details job_id)))
updated_row operation job_id (some job) = pure job

abbrev reload : String → ℕ → List String → Option ℕ → Exec JobDb Job
reload operation job_id allowed none = raise (invalid_transition operation job_id allowed)
reload operation job_id allowed (some id) = do found ← get_job id; updated_row operation id found

-- `_transition_job`
pub transition_job : ℕ → String → List String → (ℕ → Job → Job) → Exec JobDb Job
unfolding guarded_update statement get_job store_failure new_error
transition_job job_id operation allowed set db =
    let (r, after) =
      handled operation "Failed to update job status."
        (field "job_id" (Json.int (pos job_id))
          (field "allowed_statuses" (array (texts allowed)) end))
        (statement (guarded_update job_id allowed set) db) in
    (do id ← lift r; reload operation job_id allowed id) after
