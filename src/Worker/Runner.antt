-- ===== src/Worker/Runner.antt =====
-- src/app/worker/runner.py: `WorkerRunner`, over the worker's job store and what lies outside it.
pub mod Laws
pub mod Refusal
pub mod Files
use kyrgstudio.Base.{
  ℕ, suc, String, Option, none, some, Bool, true, false, ◌||◌, str_eq, if◌then◌else◌,
}
use kyrgstudio.Base.Int.{ℤ, pos}
use kyrgstudio.Base.Json
use kyrgstudio.Base.Json.{Json, Float, field, end, get}
use kyrgstudio.Base.Text.{strip, is_one_of}
use kyrgstudio.Errors.{ErrorClass, Error, app, foreign, new_error, to_dict}
use kyrgstudio.Database.{Result, ok, err, Exec, pure, raise, lift, catch, ◌>>=◌, ◌>>◌, bind_result}
use kyrgstudio.Jobs.{Job, uploaded, supported_pipeline_types}
use kyrgstudio.Jobs.Adapters
use kyrgstudio.World.{World, in_db, in_outside}
use kyrgstudio.Storage.Paths.{job_prefix}

abbrev pub running_step : String
running_step = "running_pipeline"

-- `WorkflowExecutionRequest`
pub record ExecutionRequest : Type 0 where
  pub job_id : ℕ
  pub pipeline_type : String
  pub source_path : String
  pub source_type : String
  pub input_json : Json.Fields

-- `WorkerRunResult`
pub record WorkerRunResult : Type 0 where
  pub job_id : ℕ
  pub status : String
  pub pipeline_type : String
  pub execution_time_seconds : Float

-- What the runner is given: the file resolver, the workflow executor, the clock and the storage, with
-- `build_completed_output`, the difference of two times and Python's `float()`.
pub record Tools (X R W : Type 0) : Type 0 where
  pub resolve : Job → Exec X R
  pub local_path : R → String
  pub cleanup : R → Exec X (Unit {0})
  pub execute : ExecutionRequest → Exec X W
  pub clock : X → Float × X
  pub delete_prefix : String → Exec X (Unit {0})
  pub build_completed_output : String → W → Float → Result Json.Fields
  pub elapsed_seconds : Float → Float → Float
  pub to_float : Json → Option Float

abbrev loading_error : String → Json.Fields → Error
loading_error message details =
    new_error ErrorClass.workflow_result message (some "loading_job") details

abbrev id_error : Error
id_error = foreign "TypeError"

-- `_normalize_job_id` of an `int`
unfoldable pub normalize_job_id : ℤ → Result ℕ
normalize_job_id (pos (suc n)) = ok (suc n)
normalize_job_id z = err id_error

abbrev missing_job_field : String → ℕ → Error
missing_job_field name job_id =
    loading_error "Required job field is missing."
      (field "field" (Json.text name) (field "job_id" (Json.int (pos job_id)) end))

-- `_job_required_str`; the job is a row, whose id is positive
unfoldable pub job_required_text : String → Job → String → Result String
job_required_text name job value =
    let text = strip value in
    if str_eq text "" then err (missing_job_field name job.id) else ok text

abbrev not_ready : Job → String → Error
not_ready job status = loading_error "Job is not ready for worker execution." (
    field "job_id" (Json.int (pos job.id))
      (field "status" (Json.text status) (field "required_status" (Json.text uploaded) end)))

-- `_ensure_job_is_uploaded`
unfoldable pub ensure_job_is_uploaded : Job → Result (Unit {0})
unfolding job_required_text
ensure_job_is_uploaded job =
    bind_result (job_required_text "status" job job.status)
      λ status. if str_eq status uploaded then ok tt else err (not_ready job status)

-- `_pipeline_type`
unfoldable pub pipeline_type_of : String → Result String
pipeline_type_of value =
    if is_one_of value supported_pipeline_types
    then ok value
    else err (
        loading_error "Unsupported job pipeline type."
          (field "pipeline_type" (Json.text value) end))

abbrev missing_input : String → Error
missing_input name =
    loading_error "Required job input field is missing." (field "field" (Json.text name) end)

abbrev input_text : String → Option Json → Result String
input_text name (some (Json.text value)) =
    let text = strip value in if str_eq text "" then err (missing_input name) else ok text
input_text name _ = err (missing_input name)

-- `_required_input_str` of a field that holds a text or nothing
unfoldable pub required_input_str : Json.Fields → String → Result String
unfolding get
required_input_str input_json name = input_text name (get name input_json)

-- `_build_execution_request`
unfoldable pub build_execution_request : Job → String → Result ExecutionRequest
unfolding job_required_text
build_execution_request job local_path =
    bind_result (job_required_text "pipeline_type" job job.pipeline_type) λ text.
      bind_result (pipeline_type_of text) λ pipeline_type.
        bind_result (required_input_str job.input_json "source_type") λ source_type. ok (record {
          job_id = job.id;
          pipeline_type = pipeline_type;
          source_path = local_path;
          source_type = source_type;
          input_json = job.input_json;
        })

abbrev error_fields : Error → Json.Fields
error_fields (app c message step details) = to_dict c step details
error_fields (foreign name) = end

-- `_error_payload`
unfoldable pub error_payload : Error → Json.Fields
unfolding to_dict new_error
error_payload (app c message step details) = to_dict c step details
error_payload (foreign name) = error_fields (
    new_error ErrorClass.pipeline_execution "Worker execution failed." (some running_step)
      (field "error_type" (Json.text name) end))

abbrev loaded : ℕ → Option Job → Result Job
loaded job_id (some job) = ok job
loaded job_id none =
    err (loading_error "Job was not found." (field "job_id" (Json.int (pos job_id)) end))

module _ {X R W : Type 0} (tools : Tools X R W) where
  -- `_mark_failed_safely`: whether the failure was persisted
  unfoldable pub persist_failure : ℕ → Error → Exec (World X) Bool
  persist_failure job_id error =
      catch (in_db (Adapters.mark_failed job_id (error_payload error)) >> pure true)
        (λ _. pure false)

  abbrev cleanup_safely : Option R → Exec (World X) (Unit {0})
  cleanup_safely none = pure tt
  cleanup_safely (some file) = catch (in_outside (tools.cleanup file)) (λ _. pure tt)

  abbrev delete_safely : ℕ → Bool → Exec (World X) (Unit {0})
  delete_safely job_id false = pure tt
  delete_safely job_id true =
      catch (in_outside (tools.delete_prefix (job_prefix job_id))) (λ _. pure tt)

  -- The `finally` clause of `run`, after which the call returns or raises.
  unfoldable pub close : {A : Type 0} → ℕ → Option R → Bool → Result A → Exec (World X) A
  close job_id file terminal result = do
    cleanup_safely file >> delete_safely job_id terminal
    lift result

  abbrev after_failure : {A : Type 0} → ℕ → Option R → Bool → Error → Bool → Exec (World X) A
  after_failure job_id file terminal error persisted =
      close job_id file (terminal || persisted) (err error)

  -- The `except` clause of `run`, then its `finally` clause.
  unfoldable pub failing : {A : Type 0} → ℕ → Option R → Bool → Error → Exec (World X) A
  failing job_id file terminal error =
      persist_failure job_id error >>= after_failure job_id file terminal error

  abbrev read_clock : Exec (World X) Float
  read_clock w = let (t, x) = tools.clock w.outside in (ok t, record w { outside = x })

  -- The `try` statement from the request to `mark_completed`.
  unfoldable pub execute_job : ℕ → Job → Float → R → Exec (World X) (Job × String × Float)
  unfolding build_execution_request
  execute_job job_id job started_at file = do
    request ← lift (build_execution_request job (tools.local_path file))
    result ← in_outside (tools.execute request)
    now ← read_clock
    let elapsed = tools.elapsed_seconds started_at now
    output ← lift (tools.build_completed_output request.pipeline_type result elapsed)
    row ← in_db (Adapters.mark_completed tools.to_float job_id output)
    pure (row, request.pipeline_type, elapsed)

  abbrev pub run_result : ℕ → String → Float → String → WorkerRunResult
  run_result job_id pipeline_type elapsed status = record {
    job_id = job_id;
    status = status;
    pipeline_type = pipeline_type;
    execution_time_seconds = elapsed;
  }

  -- The end of the `try` statement, the final state being persisted.
  abbrev after_status : ℕ → R → String → Float → Result String → Exec (World X) WorkerRunResult
  after_status job_id file pipeline_type elapsed (ok status) =
      close job_id (some file) true (ok (run_result job_id pipeline_type elapsed status))
  after_status job_id file pipeline_type elapsed (err error) = failing job_id (some file) true error

  abbrev pub after_execution :
      ℕ → R → Result (Job × String × Float) × World X → Result WorkerRunResult × World X
  after_execution job_id file (ok (row, pipeline_type, elapsed), w) =
      after_status job_id file pipeline_type elapsed (job_required_text "status" row row.status) w
  after_execution job_id file (err error, w) = failing job_id (some file) false error w

  abbrev after_resolve : ℕ → Job → Float → Result R × World X → Result WorkerRunResult × World X
  after_resolve job_id row started_at (ok file, w) =
      after_execution job_id file (execute_job job_id row started_at file w)
  after_resolve job_id row started_at (err error, w) = failing job_id none false error w

  -- The `try` statement of `run`, with its clauses.
  unfoldable pub process : ℕ → Job → Float → Exec (World X) WorkerRunResult
  process job_id row started_at w =
      after_resolve job_id row started_at (in_outside (tools.resolve row) w)

  -- `run`
  unfoldable pub run : ℤ → Exec (World X) WorkerRunResult
  unfolding normalize_job_id ensure_job_is_uploaded
  run job_id = do
    normalized ← lift (normalize_job_id job_id)
    found ← in_db (Adapters.load_job normalized)
    job ← lift (loaded normalized found)
    lift (ensure_job_is_uploaded job)
    row ← in_db (Adapters.mark_running normalized running_step)
    started_at ← read_clock
    process normalized row started_at
