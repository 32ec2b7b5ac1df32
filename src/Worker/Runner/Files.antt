-- ===== src/Worker/Runner/Files.antt =====
-- src/app/worker/runner.py: the stored files of a job outlive every run that did not end the job.
use kyrgstudio.Base.{
  ℕ, suc, String, ◌≡◌, refl, sym, subst, ◌∙◌, ap, ◌⊎◌, inl, inr, Option, none, some, [], ◌∷◌, true,
  false, arith, ==_refl,
}
use kyrgstudio.Base.Int.{pos}
use kyrgstudio.Base.Json
use kyrgstudio.Base.Json.{Json, Float}
use kyrgstudio.Base.Text.{is_one_of}
use kyrgstudio.Errors.{Error}
use kyrgstudio.Database.{Result, ok, err, Exec, Result-cases, read_scope}
use kyrgstudio.Jobs.{Job, completed, failed_status, running}
use kyrgstudio.Jobs.Adapters
use kyrgstudio.Jobs.Marks
use kyrgstudio.Jobs.Marks.{complete_values, fail_values}
use kyrgstudio.Jobs.Progress.{open_statuses}
use kyrgstudio.Jobs.Store.{JobDb}
use kyrgstudio.Jobs.Store.Transitions.{
  Keyed, job_at, Transitioned, eq_of_result, transition_job-Transitioned,
}
use kyrgstudio.Jobs.Lifecycle.{Call, perform}
use kyrgstudio.Jobs.Lifecycle.Moves.{perform-Lives}
use kyrgstudio.World.{World}
use kyrgstudio.Worker.Runner.{
  running_step, normalize_job_id, ensure_job_is_uploaded, Tools, WorkerRunResult, error_payload,
  close, failing, persist_failure, execute_job, build_execution_request, after_execution,
  run_result, process, run,
}
use kyrgstudio.Worker.Runner.Laws.{close-same, completed_text}

abbrev KeyedIn : JobDb → Type 0
KeyedIn db = Keyed db.tables.next_id db.tables.jobs

ok_inj : {A : Type 0} {a b : A} → ok a ≡ ok b → a ≡ b
ok_inj h = ground arith

-- The job has completed or failed.
abbrev pub Ended : ℕ → JobDb → Type 0
Ended i db =
    (row : Job) × (job_at db i ≡ some row)
    × (is_one_of row.status (completed ∷ failed_status ∷ []) ≡ true)

-- The job has ended, or the other run is the same.
abbrev pub SameUnlessEnded : {A X : Type 0} → ℕ → Result A × World X → Result A × World X → Type 0
SameUnlessEnded i r other = Ended i r.1.db ⊎ (other ≡ r)

module _ (i : ℕ) (db : JobDb) (keyed : KeyedIn db) (row : Job) where
  mark_failed-Ended :
      (error : Json.Fields)
      → (Adapters.mark_failed i error db).0 ≡ ok row
      → Ended i (Adapters.mark_failed i error db).1
  unfolding Adapters.mark_failed Marks.mark_failed
  mark_failed-Ended error returned =
      let facts =
        subst (Transitioned db i open_statuses (fail_values error)) (eq_of_result _ row returned) (
          transition_job-Transitioned i open_statuses (fail_values error) (λ now job. refl)
            "mark_failed" db keyed) in
      (row, facts.4 i ∙ rw (==_refl i), rw facts.3 refl)

  mark_completed-Ended :
      (to_float : Json → Option Float) (output : Json.Fields)
      → (Adapters.mark_completed to_float i output db).0 ≡ ok row
      → Ended i (Adapters.mark_completed to_float i output db).1 × (row.status ≡ completed)
  unfolding Adapters.mark_completed Marks.mark_completed
  mark_completed-Ended to_float output returned =
      let facts =
        subst (Transitioned db i (running ∷ []) (complete_values to_float output))
          (eq_of_result _ row returned)
          (transition_job-Transitioned i (running ∷ []) (complete_values to_float output)
            (λ now job. refl) "mark_completed" db keyed) in
      ((row, facts.4 i ∙ rw (==_refl i), rw facts.3 refl), rw facts.3 refl)

Keyed-mark_completed :
    (to_float : Json → Option Float) (i : ℕ) (output : Json.Fields) (db : JobDb)
    → KeyedIn db
    → KeyedIn (Adapters.mark_completed to_float i output db).1
unfolding perform
Keyed-mark_completed to_float i output db keyed =
    (perform-Lives (Call.complete to_float i output) db keyed).0

Keyed-mark_running :
    (i : ℕ) (step : String) (db : JobDb) → KeyedIn db → KeyedIn (Adapters.mark_running i step db).1
unfolding perform
Keyed-mark_running i step db keyed = (perform-Lives (Call.run i step) db keyed).0

module _ {X R W : Type 0} (tools : Tools X R W) (delete_prefix : String → Exec X (Unit {0})) where
  abbrev other : Tools X R W
  other = record tools { delete_prefix = delete_prefix }

  failing-same :
      (A : Type 0) (i : ℕ) (file : Option R) (error : Error) (w : World X)
      → KeyedIn w.db
      → SameUnlessEnded {A = A} i
          (failing tools i file false error w)
          (failing other i file false error w)
  unfolding failing persist_failure
  failing-same A i file error w keyed =
      let raised_error : Result A = err error in
      let failed = Adapters.mark_failed i (error_payload error) w.db in
      elim (Result-cases failed.0) [
        | inl (row, returned) ↦ inl (
            rw
              (returned, (close-same tools i file true raised_error (record w { db = failed.1 })).1)
              (mark_failed-Ended i w.db keyed row (error_payload error) returned))
        | inr (e, raised) ↦ inr (unfold close in rw raised refl)
      ]

  execute_job-keys :
      (i : ℕ) (job : Job) (started_at : Float) (file : R) (w : World X)
      → KeyedIn w.db
      → KeyedIn (execute_job tools i job started_at file w).1.db
        × ((found : Job × String × Float)
            → (execute_job tools i job started_at file w).0 ≡ ok found
            → Ended i (execute_job tools i job started_at file w).1.db
              × (found.0.status ≡ completed))
  unfolding execute_job
  execute_job-keys i job started_at file w keyed =
      elim (Result-cases (build_execution_request job (tools.local_path file))) [
        | inl (request, built) ↦ elim (Result-cases (tools.execute request w.outside).0) [
          | inl (result, executed) ↦
              let clocked = tools.clock (tools.execute request w.outside).1 in
              let elapsed = tools.elapsed_seconds started_at clocked.0 in
              elim (Result-cases
                (tools.build_completed_output request.pipeline_type result elapsed)) [
                  | inl (output, shaped) ↦
                      elim (Result-cases (Adapters.mark_completed tools.to_float i output w.db).0) [
                        | inl (row, returned) ↦
                            let ended =
                              mark_completed-Ended i w.db keyed row tools.to_float output
                                returned in
                            rw (built, executed, shaped, returned)
                              (
                                Keyed-mark_completed tools.to_float i output w.db keyed,
                                λ found same. (
                                  ended.0,
                                  ap (λ (j : Job × String × Float). j.0.status) (sym (ok_inj same))
                                      ∙ ended.1,
                                ),
                              )
                        | inr (e, raised) ↦
                            rw (built, executed, shaped, raised)
                              (
                                Keyed-mark_completed tools.to_float i output w.db keyed,
                                λ found same. cc,
                              )
                      ]
                  | inr (e, refused) ↦ rw (built, executed, refused) (keyed, λ found same. cc)
                ]
          | inr (e, raised) ↦ rw (built, raised) (keyed, λ found same. cc)
        ]
        | inr (e, refused) ↦ rw refused (keyed, λ found same. cc)
      ]

  after_execution-same :
      (i : ℕ) (file : R) (r : Result (Job × String × Float) × World X)
      → KeyedIn r.1.db
      → ((found : Job × String × Float)
          → r.0 ≡ ok found
          → Ended i r.1.db × (found.0.status ≡ completed))
      → SameUnlessEnded i (after_execution tools i file r) (after_execution other i file r)
  after_execution-same i file (ok (row, pipeline_type, elapsed), w) keyed ended =
      let at_end = ended (row, pipeline_type, elapsed) refl in
      inl (
        rw
          (
            completed_text tools row row at_end.1,
            (close-same tools i (some file) true
                (ok (run_result tools i pipeline_type elapsed completed)) w).1,
          )
          at_end.0)
  after_execution-same i file (err e, w) keyed ended =
      failing-same WorkerRunResult i (some file) e w keyed

  process-same :
      (i : ℕ) (job : Job) (started_at : Float) (w : World X)
      → KeyedIn w.db
      → SameUnlessEnded i (process tools i job started_at w) (process other i job started_at w)
  unfolding process
  process-same i job started_at w keyed = elim (Result-cases (tools.resolve job w.outside).0) [
    | inl (file, resolved) ↦
        let w1 : World X = record w { outside = (tools.resolve job w.outside).1 } in
        let keys = execute_job-keys i job started_at file w1 keyed in
        rw resolved (
          unfold execute_job in
          after_execution-same i file (execute_job tools i job started_at file w1) keys.0 keys.1)
    | inr (e, raised) ↦ rw raised (
        failing-same WorkerRunResult i none e
          (record w { outside = (tools.resolve job w.outside).1 }) keyed)
  ]

load_job-keeps : (i : ℕ) (db : JobDb) → (Adapters.load_job i db).1.tables ≡ db.tables
unfolding Adapters.load_job read_scope
load_job-keeps i db = refl

-- At a table with unique keys, a run that does not leave its job completed or failed deletes no
-- stored file: it is the same run with any other delete_prefix, whatever the database, the
-- workflow and the other backends do.
pub run_keeps_files :
    {X R W : Type 0} (tools : Tools X R W) (delete_prefix : String → Exec X (Unit {0})) (n : ℕ)
    (w : World X)
    → Keyed w.db.tables.next_id w.db.tables.jobs
    → SameUnlessEnded
        (suc n)
        (run tools (pos (suc n)) w)
        (run (other tools delete_prefix) (pos (suc n)) w)
unfolding run normalize_job_id
run_keeps_files tools delete_prefix n w keyed =
    let i = suc n in
    let loaded_db = (Adapters.load_job i w.db).1 in
    let keys : KeyedIn loaded_db = rw (load_job-keeps i w.db) keyed in
    elim (Result-cases (Adapters.load_job i w.db).0) [
      | inl (none, found) ↦ inr (rw found refl)
      | inl (some job, found) ↦ elim (Result-cases (ensure_job_is_uploaded job)) [
        | inl (done, passed) ↦
            let marked = Adapters.mark_running i running_step loaded_db in
            elim (Result-cases marked.0) [
              | inl (row, returned) ↦
                  let clocked = tools.clock w.outside in
                  rw (found, passed, returned)
                    (process-same tools delete_prefix i row clocked.0
                      (record { db = marked.1; outside = clocked.1 })
                      (Keyed-mark_running i running_step loaded_db keys))
              | inr (e, raised) ↦ inr (rw (found, passed, raised) refl)
            ]
        | inr (e, refused) ↦ inr (rw (found, refused) refl)
      ]
      | inr (e, lost) ↦ inr (rw lost refl)
    ]
