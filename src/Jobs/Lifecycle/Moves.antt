-- ===== src/Jobs/Lifecycle/Moves.antt =====
-- Each committed call moves a job along an edge of its life, or leaves it.
use kyrgstudio.Jobs.Store.{create_job}
use kyrgstudio.Jobs.Adapters
use kyrgstudio.Jobs.Fields.{required_str, normalize_step}
use kyrgstudio.Database.Laws.{transaction-lift}
use kyrgstudio.Base.{ℕ, String, ◌≡◌, refl, ◌⊎◌, Option, List, [], ◌∷◌, true, arith, str_eq_iff}
use kyrgstudio.Base.Json
use kyrgstudio.Base.Json.{Json, Float}
use kyrgstudio.Base.Text.{is_one_of}
use kyrgstudio.Database.{then_in, Result, ok, err, transaction}
use kyrgstudio.Jobs.{Job, pending, uploaded, running}
use kyrgstudio.Jobs.Store.{JobDb, transition_job}
use kyrgstudio.Jobs.Store.Transitions.{
  Keyed, Moves, Raises, committed-Transitioned, transition_job-Moves, transition_job-Raises,
  transition_job-Transitioned,
}
use kyrgstudio.Jobs.Store.Creation.{create_job-CreatedBy}
use kyrgstudio.Jobs.Marks.{
  FileReference, upload_values, run_values, step_values, complete_values, fail_values,
  mark_uploaded, mark_running, mark_step_completed, mark_completed, mark_failed, add_event,
  payload_or_none,
}
use kyrgstudio.Jobs.Lifecycle.{Call, create, upload, run, step, complete, fail, perform}
use kyrgstudio.Jobs.Lifecycle.Edges.{
  uploads, starts, works, completes, fails, same, Lives, Follows, Transitioned-Lives,
  CreatedBy-Lives,
}

-- `allowed` has one status.
only_status : (s t : String) → is_one_of s (t ∷ []) ≡ true → s ≡ t
only_status s t h = ground (arith, str_eq_iff s t)

upload-Follows : (backend key uri : String) → Follows (pending ∷ []) (upload_values backend key uri)
upload-Follows backend key uri now job h =
    (uploads (only_status job.status pending h) refl, ground arith)

run-Follows : (name : String) → Follows (uploaded ∷ []) (run_values name)
run-Follows name now job h = (starts (only_status job.status uploaded h) refl, ground arith)

step-Follows : (name : String) → Follows (running ∷ []) (step_values name)
step-Follows name now job h =
    (works (only_status job.status running h) (only_status job.status running h), ground arith)

complete-Follows :
    (to_float : Json → Option Float) (output : Json.Fields)
    → Follows (running ∷ []) (complete_values to_float output)
complete-Follows to_float output now job h =
    (completes (only_status job.status running h) refl, ground arith)

pub open_status :
    (s : String)
    → is_one_of s (pending ∷ uploaded ∷ running ∷ []) ≡ true
    → (s ≡ pending) ⊎ ((s ≡ uploaded) ⊎ (s ≡ running))
open_status s h = ground (arith, str_eq_iff s pending, str_eq_iff s uploaded, str_eq_iff s running)

fail-Follows :
    (error : Json.Fields) → Follows (pending ∷ uploaded ∷ running ∷ []) (fail_values error)
fail-Follows error now job h = (fails (open_status job.status h) refl, ground arith)

-- The committed transition of job `i` by its values.
transition-Lives :
    (db : JobDb) (i : ℕ) (operation : String) (allowed : List String) (set : ℕ → Job → Job)
    → ((now : ℕ) (job : Job) → (set now job).id ≡ job.id)
    → Follows allowed set
    → Keyed db.tables.next_id db.tables.jobs
    → Lives db (transaction (transition_job i operation allowed set) db)
transition-Lives db i operation allowed set same_id follows keyed =
    Transitioned-Lives db i allowed set (transaction (transition_job i operation allowed set) db)
      keyed follows (transition_job-Transitioned i allowed set same_id operation db keyed)

mark_uploaded-Lives :
    (i : ℕ) (payload : FileReference) (db : JobDb)
    → Keyed db.tables.next_id db.tables.jobs
    → Lives db (transaction (mark_uploaded i payload) db)
unfolding mark_uploaded
mark_uploaded-Lives i payload db keyed =
    transaction-lift (Lives db)
      (required_str payload.storage_backend "storage_backend" "mark_uploaded") _ db
      (λ e. (keyed, λ k. same refl))
      λ backend _.
        transaction-lift (Lives db)
          (required_str payload.input_file_key "input_file_key" "mark_uploaded") _ db
          (λ e. (keyed, λ k. same refl))
          λ key _.
            transaction-lift (Lives db)
              (required_str payload.input_file_uri "input_file_uri" "mark_uploaded") _ db
              (λ e. (keyed, λ k. same refl))
              λ uri _.
                transition-Lives db i "mark_uploaded" (pending ∷ []) (upload_values backend key uri)
                  (λ now job. refl) (upload-Follows backend key uri) keyed

-- The event is written beside the jobs.
add_event-Moves :
    (db : JobDb) (i : ℕ) (name : String) (payload : Option Json.Fields) (job : Job)
    (r : Result Job × JobDb)
    → Moves i (running ∷ []) (step_values name) db job r
    → Moves i (running ∷ []) (step_values name) db job (then_in (add_event i name payload) r)
unfolding add_event
add_event-Moves db i name payload job (ok row, after) m = ground arith
add_event-Moves db i name payload job (err e, after) m = tt

mark_step_completed-Lives :
    (i : ℕ) (name : String) (payload : Json.Fields) (db : JobDb)
    → Keyed db.tables.next_id db.tables.jobs
    → Lives db (transaction (mark_step_completed i name payload) db)
unfolding mark_step_completed
mark_step_completed-Lives i name payload db keyed =
    Transitioned-Lives db i (running ∷ []) (step_values step)
      (transaction (mark_step_completed i name payload) db) keyed (step-Follows step)
      (committed-Transitioned i (running ∷ []) (step_values step) (λ now job. refl)
        (mark_step_completed i name payload) db
        (λ job here may.
          add_event-Moves db i step (payload_or_none payload) job
            (transition_job i "mark_step_completed" (running ∷ []) (step_values step) db)
            (transition_job-Moves i (running ∷ []) (step_values step) (λ now row. refl)
              "mark_step_completed" db job keyed here may))
        (λ refused.
          raises (transition_job i "mark_step_completed" (running ∷ []) (step_values step) db) (
            transition_job-Raises i (running ∷ []) (step_values step) (λ now row. refl)
              "mark_step_completed" db keyed refused))
        keyed)
  where
    step : String
    step = normalize_step name "running"

    raises :
        (r : Result Job × JobDb)
        → Raises r
        → Raises (then_in (add_event i step (payload_or_none payload)) r)
    raises (err e, after) h = h
    raises (ok row, after) h = absurd h

-- A committed call on a table with unique keys, whether it returns or raises, keeps the keys
-- unique and below the next one, and leaves the row of each key as it was, new and pending, or
-- moved along one edge of the statuses with the request's fields unchanged.
pub perform-Lives :
    (c : Call) (db : JobDb) → Keyed db.tables.next_id db.tables.jobs → Lives db (perform c db)
unfolding perform Adapters.create_job Adapters.mark_uploaded Adapters.mark_running
    Adapters.mark_completed Adapters.mark_failed mark_running mark_completed mark_failed
perform-Lives (create payload) db keyed =
    CreatedBy-Lives db (transaction (create_job payload) db) keyed (create_job-CreatedBy payload db)
perform-Lives (upload i payload) db keyed = mark_uploaded-Lives i payload db keyed
perform-Lives (run i name) db keyed =
    transition-Lives db i "mark_running" (uploaded ∷ [])
      (run_values (normalize_step name "running")) (λ now job. refl)
      (run-Follows (normalize_step name "running")) keyed
perform-Lives (step i name payload) db keyed = mark_step_completed-Lives i name payload db keyed
perform-Lives (complete to_float i output) db keyed =
    transition-Lives db i "mark_completed" (running ∷ []) (complete_values to_float output)
      (λ now job. refl) (complete-Follows to_float output) keyed
perform-Lives (fail i error) db keyed =
    transition-Lives db i "mark_failed" (pending ∷ uploaded ∷ running ∷ []) (fail_values error)
      (λ now job. refl) (fail-Follows error) keyed
