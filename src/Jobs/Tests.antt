-- ===== src/Jobs/Tests.antt =====
-- The job store's theorems at two tables: one empty but for its users, one with two jobs.
use kyrgstudio.Base.{
  ℕ, ◌≡◌, ◌≢◌, refl, none, some, List, [], ◌∷◌, true, false, arith, if◌then◌else◌, ◌==◌,
}
use kyrgstudio.Base.Int.{pos, eq_ℤ}
use kyrgstudio.Base.Json.{object, end}
use kyrgstudio.Base.Lists.{find, any}
use kyrgstudio.Base.Text.{strip}
use kyrgstudio.Database.{ok, err}
use kyrgstudio.Jobs.{Job, uploaded, completed}
use kyrgstudio.Jobs.Fields
use kyrgstudio.Jobs.Fields.{Scalar, optional_str, required_int, required_str, required_mapping}
use kyrgstudio.Jobs.Marks.{fail_values, run_values}
use kyrgstudio.Jobs.Adapters
use kyrgstudio.Jobs.Store.{JobDb, JobPayload, has_run_id, run_id_taken, new_job, run_id_conflict}
use kyrgstudio.Jobs.Store.Replay.{Accepts, IsNew, create_job_replay, create_job_twice}
use kyrgstudio.Jobs.Store.Transitions.{Keyed, job_at, stamped}
use kyrgstudio.Jobs.Progress.{mark_failed-moves, mark_running-moves}
use kyrgstudio.Jobs.Lifecycle.{Event, call, weather, run, fail, history, perform}
use kyrgstudio.Jobs.Lifecycle.Edges.{Edge}
use kyrgstudio.Jobs.Lifecycle.Moves.{perform-Lives}
use kyrgstudio.Jobs.Lifecycle.Order.{Later, history-Later}
use kyrgstudio.Jobs.Lifecycle.Once.{finish, with_output, with_error, mark_running_once, finish_once}

abbrev first_job : Job
first_job = record (new_job 1 5 (pos 7) (some "first") "copy_analysis" end) { status = uploaded }

abbrev second_job : Job
second_job = record (new_job 2 6 (pos 8) none "copy_analysis" end) { status = completed }

abbrev two_jobs : JobDb
two_jobs = record {
  tables = record {
    jobs = first_job ∷ second_job ∷ [];
    events = [];
    next_id = 3;
    users = pos 7 ∷ pos 8 ∷ [];
  };
  now = 9;
  outages = [];
}

two_jobs-Keyed : Keyed 3 (first_job ∷ second_job ∷ [])
unfolding find
two_jobs-Keyed = (omega arith, refl, (omega arith, refl, tt))

first_here : job_at two_jobs 1 ≡ some first_job
unfolding find
first_here = refl

second_here : job_at two_jobs 2 ≡ some second_job
unfolding find
second_here = refl

abbrev events : List Event
events = weather 20 (some "OperationalError" ∷ []) ∷ call (run 1 "running") ∷ call (fail 1 end) ∷ []

perform-Lives_example :
    Keyed
      (perform (run 1 "running") two_jobs).1.tables.next_id
      (perform (run 1 "running") two_jobs).1.tables.jobs
    × ((k : ℕ) → Edge (job_at two_jobs k) (job_at (perform (run 1 "running") two_jobs).1 k))
perform-Lives_example = perform-Lives (run 1 "running") two_jobs two_jobs-Keyed

history-Later_example :
    (row : Job) × (job_at (history events two_jobs) 1 ≡ some row) × Later first_job row
history-Later_example = history-Later events two_jobs 1 first_job two_jobs-Keyed first_here

abbrev started_job : Job
started_job = stamped (run_values "transcribing") 9 first_job

first_runs : (Adapters.mark_running 1 "transcribing" two_jobs).0 ≡ ok started_job
first_runs =
    unfold Fields.normalize_step strip in
    (mark_running-moves 1 two_jobs two_jobs-Keyed refl "transcribing" first_job first_here
      refl).returned

mark_running_once_example :
    (Adapters.mark_running 1 "x"
      (history events (Adapters.mark_running 1 "transcribing" two_jobs).1)).0
    ≢ ok first_job
mark_running_once_example =
    mark_running_once 1 "transcribing" "x" two_jobs started_job two_jobs-Keyed first_runs events
      first_job

abbrev failed_job : Job
failed_job = stamped (fail_values end) 9 first_job

first_fails : (finish (with_error end) 1 two_jobs).0 ≡ ok failed_job
first_fails =
    (mark_failed-moves 1 two_jobs two_jobs-Keyed refl end first_job first_here refl).returned

finish_once_example :
    (finish
      (with_output (λ v. none) end)
      1
      (history events (finish (with_error end) 1 two_jobs).1)).0
    ≢ ok first_job
finish_once_example =
    finish_once 1 (with_error end) (with_output (λ v. none) end) two_jobs failed_job two_jobs-Keyed
      first_fails events first_job

abbrev payload : JobPayload
payload = record {
  user_id = Scalar.int (pos 7);
  pipeline_type = some " copy_analysis";
  run_id = some "first ";
  input_json = object end;
}

payload-Accepts : Accepts payload (pos 7) "copy_analysis" end
unfolding required_int required_str required_mapping strip
payload-Accepts = record { user_id = refl; pipeline = refl; mapping = refl }

payload_key : optional_str payload.run_id ≡ some "first"
unfolding optional_str strip
payload_key = refl

first_found : find (has_run_id "first") two_jobs.tables.jobs ≡ some first_job
unfolding find
first_found = refl

create_job_replay_example :
    Adapters.create_job payload two_jobs
    ≡ (if eq_ℤ first_job.user_id (pos 7) then ok first_job else err run_id_conflict, two_jobs)
create_job_replay_example =
    create_job_replay payload (pos 7) "copy_analysis" end payload-Accepts two_jobs refl "first"
      first_job payload_key first_found

abbrev new_payload : JobPayload
new_payload = record payload { run_id = some "third" }

new_payload-Accepts : Accepts new_payload (pos 7) "copy_analysis" end
unfolding required_int required_str required_mapping strip
new_payload-Accepts = record { user_id = refl; pipeline = refl; mapping = refl }

owner_known : any (eq_ℤ (pos 7)) two_jobs.tables.users ≡ true
unfolding any
owner_known = refl

third_key : optional_str new_payload.run_id ≡ some "third"
unfolding optional_str strip
third_key = refl

third_is_new : run_id_taken (some "third") two_jobs.tables.jobs ≡ false
unfolding any
third_is_new = refl

create_job_twice_example :
    let after = (Adapters.create_job new_payload two_jobs).1 in
    (job : Job) × IsNew two_jobs (pos 7) (some "third") "copy_analysis" end job
    × ((Adapters.create_job new_payload two_jobs).0 ≡ ok job)
    × ((i : ℕ) → job_at after i ≡ (if job.id == i then some job else job_at two_jobs i))
    × (Adapters.create_job new_payload (record after { now = 12 })
        ≡ (ok job, record after { now = 12 }))
create_job_twice_example =
    create_job_twice new_payload (pos 7) "copy_analysis" end new_payload-Accepts two_jobs "third" 12
      refl two_jobs-Keyed owner_known third_key third_is_new
