-- ===== src/Worker/Runner/Laws.antt =====
-- src/app/worker/runner.py: whatever the workflow does, a run that began ends the job.
use kyrgstudio.Base.{
  ℕ, suc, String, ◌≡◌, refl, sym, subst, ◌⊎◌, inl, inr, Option, none, some, [], Bool, true, false,
  arith, ◌||◌,
}
use kyrgstudio.Base.Int.{pos}
use kyrgstudio.Base.Json
use kyrgstudio.Base.Json.{Float}
use kyrgstudio.Base.Text.{strip}
use kyrgstudio.Errors.{Error}
use kyrgstudio.Database.{Result, ok, err, Result-cases}
use kyrgstudio.Jobs.{Job, uploaded, running, completed, failed_status}
use kyrgstudio.Jobs.Fields.{normalize_step}
use kyrgstudio.Jobs.Marks.{run_values, complete_values, fail_values}
use kyrgstudio.Jobs.Adapters
use kyrgstudio.Jobs.Progress.{mark_failed-moves, mark_running-moves, mark_completed-moves}
use kyrgstudio.Jobs.Store.{JobDb}
use kyrgstudio.Jobs.Store.Reads.{load_job-calm}
use kyrgstudio.Jobs.Store.Transitions.{Keyed, job_at, stamped}
use kyrgstudio.World.{World}
use kyrgstudio.Worker.Runner.{
  running_step, Tools, WorkerRunResult, normalize_job_id, job_required_text, ensure_job_is_uploaded,
  error_payload, persist_failure, close, failing, execute_job, build_execution_request,
  after_execution, run_result, process, run,
}

-- The job's row once a run is over: completed if the run returned, failed if it raised.
abbrev pub Settled : {A X : Type 0} → ℕ → Result A × World X → Type 0
Settled i (ok a, w) = (row : Job) × (job_at w.db i ≡ some row) × (row.status ≡ completed)
Settled i (err e, w) = (row : Job) × (job_at w.db i ≡ some row) × (row.status ≡ failed_status)

-- A database in which job `i` is running.
abbrev Running : JobDb → ℕ → Job → Type 0
Running db i job =
    Keyed db.tables.next_id db.tables.jobs
    × (db.outages ≡ [])
    × (job_at db i ≡ some job)
    × (job.status ≡ running)

pub eq_of_err : {A X : Type 0} (r : Result A × World X) (e : Error) → r.0 ≡ err e → r ≡ (err e, r.1)
eq_of_err r e raised = ground arith

module _ {A X : Type 0} (i : ℕ) (r : Result A × World X) where
  Settled-of_err :
      (e : Error) (row : Job)
      → r.0 ≡ err e
      → job_at r.1.db i ≡ some row
      → row.status ≡ failed_status
      → Settled i r
  Settled-of_err e row raised here fails =
      subst (λ (q : Result A). Settled i (q, r.1)) (sym raised) (row, here, fails)

  Settled-of_ok :
      (a : A) (row : Job)
      → r.0 ≡ ok a
      → job_at r.1.db i ≡ some row
      → row.status ≡ completed
      → Settled i r
  Settled-of_ok a row returned here completes =
      subst (λ (q : Result A). Settled i (q, r.1)) (sym returned) (row, here, completes)

module _ {X R W : Type 0} (tools : Tools X R W) where
  pub close-same :
      {A : Type 0} (i : ℕ) (file : Option R) (terminal : Bool) (result : Result A) (w : World X)
      → ((close tools i file terminal result w).0 ≡ result)
        × ((close tools i file terminal result w).1.db ≡ w.db)
  unfolding close
  close-same i file terminal result w = ground arith

  persist_failure-lem :
      (i : ℕ) (error : Error) (w : World X) (job : Job)
      → Running w.db i job
      → persist_failure tools i error w
        ≡ (ok true, record w { db = (Adapters.mark_failed i (error_payload error) w.db).1 })
  unfolding persist_failure
  persist_failure-lem i error w job (keyed, calm, here, is_running) =
      rw
        (mark_failed-moves i w.db keyed calm (error_payload error) job here
          (rw is_running refl)).returned

  failing-Settled :
      (A : Type 0) (i : ℕ) (file : Option R) (terminal : Bool) (error : Error) (w : World X)
      (job : Job)
      → Running w.db i job
      → Settled {A = A} i (failing tools i file terminal error w)
  unfolding failing
  failing-Settled A i file terminal error w job now =
      let moves =
        mark_failed-moves i w.db now.0 now.1 (error_payload error) job now.2 (rw now.3 refl) in
      let failed_db = (Adapters.mark_failed i (error_payload error) w.db).1 in
      let closed =
        close-same {A = A} i file (terminal || true) (err error) (record w { db = failed_db }) in
      rw (persist_failure-lem i error w job now) (
        Settled-of_err i _ error (stamped (fail_values (error_payload error)) w.db.now job) closed.0
          (rw closed.1 moves.row) refl)

  execute_job-cases :
      (i : ℕ) (job : Job) (started_at : Float) (file : R) (w : World X)
      → Running w.db i job
      → ((e : Error) × ((execute_job tools i job started_at file w).0 ≡ err e)
          × ((execute_job tools i job started_at file w).1.db ≡ w.db))
        ⊎ ((output : Json.Fields) × (pipeline_type : String) × (elapsed : Float) × (x : X)
            × (execute_job tools i job started_at file w ≡ (
              ok (
                stamped (complete_values tools.to_float output) w.db.now job,
                pipeline_type,
                elapsed,
              ),
              record { db = (Adapters.mark_completed tools.to_float i output w.db).1; outside = x },
            )))
  unfolding execute_job
  execute_job-cases i job started_at file w now =
      elim (Result-cases (build_execution_request job (tools.local_path file))) [
        | inl (request, built) ↦ elim (Result-cases (tools.execute request w.outside).0) [
          | inl (result, executed) ↦
              let clocked = tools.clock (tools.execute request w.outside).1 in
              let elapsed = tools.elapsed_seconds started_at clocked.0 in
              elim (Result-cases
                (tools.build_completed_output request.pipeline_type result elapsed)) [
                  | inl (output, shaped) ↦ inr (
                    output,
                    request.pipeline_type,
                    elapsed,
                    clocked.1,
                    rw (
                      built,
                      executed,
                      shaped,
                      (mark_completed-moves i w.db now.0 now.1 tools.to_float output job now.2
                          (rw now.3 refl)).returned,
                    ),
                  )
                  | inr (e, refused) ↦
                      inl (e, rw (built, executed, refused), rw (built, executed, refused))
                ]
          | inr (e, raised) ↦ inl (e, rw (built, raised), rw (built, raised))
        ]
        | inr (e, refused) ↦ inl (e, rw refused, rw refused)
      ]

  pub completed_text :
      (job row : Job)
      → row.status ≡ completed
      → job_required_text "status" job row.status ≡ ok completed
  unfolding job_required_text strip
  completed_text job row is_completed = rw is_completed refl

  executed-Settled :
      (i : ℕ) (job : Job) (file : R) (w : World X)
      → Running w.db i job
      → (output : Json.Fields) (pipeline_type : String) (elapsed : Float) (x : X)
      → Settled i (
          after_execution tools i file (
            ok (
              stamped (complete_values tools.to_float output) w.db.now job,
              pipeline_type,
              elapsed,
            ),
            record { db = (Adapters.mark_completed tools.to_float i output w.db).1; outside = x },
          ))
  executed-Settled i job file w now output pipeline_type elapsed x =
      let row = stamped (complete_values tools.to_float output) w.db.now job in
      let moves =
        mark_completed-moves i w.db now.0 now.1 tools.to_float output job now.2 (rw now.3 refl) in
      let closed =
        close-same i (some file) true (ok (run_result tools i pipeline_type elapsed completed))
          (record { db = (Adapters.mark_completed tools.to_float i output w.db).1; outside = x }) in
      rw (completed_text row row refl) (
        Settled-of_ok i _ (run_result tools i pipeline_type elapsed completed) row closed.0
          (rw closed.1 moves.row) refl)

  process-Settled :
      (i : ℕ) (job : Job) (started_at : Float) (w : World X)
      → Running w.db i job
      → Settled i (process tools i job started_at w)
  unfolding process
  process-Settled i job started_at w now = elim (Result-cases (tools.resolve job w.outside).0) [
    | inl (file, resolved) ↦
        let w1 : World X = record w { outside = (tools.resolve job w.outside).1 } in
        rw resolved (elim (execute_job-cases i job started_at file w1 now) [
          | inl (e, raised, kept) ↦
              subst
                (λ (r : Result (Job × String × Float) × World X).
                  Settled i (after_execution tools i file r))
                (sym (eq_of_err (execute_job tools i job started_at file w1) e raised))
                (failing-Settled WorkerRunResult i (some file) false e
                  (execute_job tools i job started_at file w1).1 job (rw kept now))
          | inr (output, pipeline_type, elapsed, x, finished) ↦
              rw finished (executed-Settled i job file w1 now output pipeline_type elapsed x)
        ])
    | inr (e, raised) ↦ rw raised (
        failing-Settled WorkerRunResult i none false e
          (record w { outside = (tools.resolve job w.outside).1 }) job now)
  ]

-- At a table with unique keys and while the database answers, a run of an uploaded job ends the
-- job, whatever the resolver, the executor, the clock, the output and the storage do: the run
-- returns and the job has completed, or the run raises and the job has failed.
pub run_settles :
    {X R W : Type 0} (tools : Tools X R W) (n : ℕ) (w : World X) (job : Job)
    → Keyed w.db.tables.next_id w.db.tables.jobs
    → w.db.outages ≡ []
    → job_at w.db (suc n) ≡ some job
    → job.status ≡ uploaded
    → Settled (suc n) (run tools (pos (suc n)) w)
unfolding run normalize_job_id ensure_job_is_uploaded job_required_text strip
run_settles tools n w job keyed calm here is_uploaded =
    let moves =
      mark_running-moves (suc n) w.db keyed calm running_step job here (rw is_uploaded refl) in
    let row = stamped (run_values (normalize_step running_step "running")) w.db.now job in
    let clocked = tools.clock w.outside in
    rw (load_job-calm (suc n) w.db calm, here, is_uploaded, moves.returned)
      (process-Settled tools (suc n) row clocked.0
        (record { db = (Adapters.mark_running (suc n) running_step w.db).1; outside = clocked.1 })
        (moves.keys, moves.calm, moves.row, refl))
