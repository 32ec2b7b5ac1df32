-- ===== src/Jobs/Marks.antt =====
-- src/app/store/jobs.py: the methods of `SQLAlchemyJobStore` that move a job through its states.
use kyrgstudio.Base.{ℕ, String, Option, none, some, [], ◌∷◌, ◌++◌}
use kyrgstudio.Base.Json
use kyrgstudio.Base.Json.{Json, Float, field, end, get}
use kyrgstudio.Base.Int.{pos}
use kyrgstudio.Database.{
  Result, ok, err, Exec, lift, ◌>>=◌, Outcome, done, integrity, failed, statement,
}
use kyrgstudio.Errors.{Error}
use kyrgstudio.Jobs.{Job, JobEvent, Tables, pending, uploaded, running, completed, failed_status}
use kyrgstudio.Jobs.Fields.{required_str, store_failure, optional_mapping, normalize_step}
use kyrgstudio.Jobs.Store.{JobDb, transition_job}

-- The payload of `mark_uploaded`: `none` stands for a key that is missing and for `None`.
pub record FileReference : Type 0 where
  pub storage_backend : Option String
  pub input_file_key : Option String
  pub input_file_uri : Option String

abbrev pub upload_values : String → String → String → ℕ → Job → Job
upload_values storage_backend input_file_key input_file_uri now job = record job {
  status = uploaded;
  current_step = "uploaded";
  storage_backend = some storage_backend;
  input_file_key = some input_file_key;
  input_file_uri = some input_file_uri;
}

-- `mark_uploaded`
unfoldable pub mark_uploaded : ℕ → FileReference → Exec JobDb Job
mark_uploaded job_id payload = do
  backend ← lift (required_str payload.storage_backend "storage_backend" "mark_uploaded")
  key ← lift (required_str payload.input_file_key "input_file_key" "mark_uploaded")
  uri ← lift (required_str payload.input_file_uri "input_file_uri" "mark_uploaded")
  transition_job job_id "mark_uploaded" (pending ∷ []) (upload_values backend key uri)

abbrev pub run_values : String → ℕ → Job → Job
run_values step now job = record job {
  status = running;
  current_step = step;
  started_at = some now;
}

-- `mark_running`
unfoldable pub mark_running : ℕ → String → Exec JobDb Job
mark_running job_id step =
    transition_job job_id "mark_running" (uploaded ∷ [])
      (run_values (normalize_step step "running"))

abbrev pub step_values : String → ℕ → Job → Job
step_values step now job = record job { current_step = step }

-- `event_payload or None`
abbrev pub payload_or_none : Json.Fields → Option Json.Fields
payload_or_none end = none
payload_or_none (field k v rest) = some (field k v rest)

-- `INSERT` of an event, whose job the update has just returned
unfoldable pub insert_event : JobEvent → ℕ → Tables → Outcome (Unit {0}) × Tables
insert_event event now t = (done tt, record t { events = t.events ++ event ∷ [] })

abbrev pub step_failure : ℕ → String → String → Error
step_failure job_id step name =
    store_failure "mark_step_completed" "Failed to mark job step as completed."
      (field "job_id" (Json.int (pos job_id)) (field "step" (Json.text step) end)) name

abbrev pub event_written : ℕ → String → Job → Outcome (Unit {0}) → Result Job
event_written job_id step job (done _) = ok job
event_written job_id step job (integrity name) = err (step_failure job_id step name)
event_written job_id step job (failed name) = err (step_failure job_id step name)

unfoldable pub add_event : ℕ → String → Option Json.Fields → Job → Exec JobDb Job
unfolding statement insert_event
add_event job_id step payload job db =
    let event : JobEvent = record {
      job_id = job_id;
      step = step;
      event_type = "step_completed";
      payload_json = payload;
    } in
    let (o, after) = statement (insert_event event) db in (event_written job_id step job o, after)

-- `mark_step_completed`; its payload `None` is the empty one
unfoldable pub mark_step_completed : ℕ → String → Json.Fields → Exec JobDb Job
unfolding add_event
mark_step_completed job_id step payload = do
  let normalized = normalize_step step "running"
  job ← transition_job job_id "mark_step_completed" (running ∷ []) (step_values normalized)
  add_event job_id normalized (payload_or_none payload) job

-- `_optional_float`, over Python's `float()`, which refuses a value by `none`
unfoldable pub optional_float : (Json → Option Float) → Option Json → Option Float
optional_float to_float none = none
optional_float to_float (some (Json.bool b)) = none
optional_float to_float (some v) = to_float v

abbrev pub complete_values : (Json → Option Float) → Json.Fields → ℕ → Job → Job
complete_values to_float output now job = record job {
  status = completed;
  current_step = "completed";
  output_json = some output;
  token_usage_json = optional_mapping (get "token_usage" output);
  execution_time_seconds = optional_float to_float (get "execution_time_seconds" output);
  finished_at = some now;
}

-- `mark_completed`
unfoldable pub mark_completed : (Json → Option Float) → ℕ → Json.Fields → Exec JobDb Job
mark_completed to_float job_id output =
    transition_job job_id "mark_completed" (running ∷ []) (complete_values to_float output)

abbrev step_text : Option Json → String
step_text (some (Json.text s)) = s
step_text _ = ""

-- `_error_step`; the step of an error payload is a text or `None`
unfoldable pub error_step : Json.Fields → String
unfolding normalize_step
error_step error = normalize_step (step_text (get "step" error)) "failed"

abbrev pub fail_values : Json.Fields → ℕ → Job → Job
fail_values error now job = record job {
  status = failed_status;
  current_step = error_step error;
  error_json = some error;
  finished_at = some now;
}

-- `mark_failed`
unfoldable pub mark_failed : ℕ → Json.Fields → Exec JobDb Job
mark_failed job_id error =
    transition_job job_id "mark_failed" (pending ∷ uploaded ∷ running ∷ []) (fail_values error)
