-- ===== src/Jobs/Progress.antt =====
-- While the database answers, what `mark_uploaded` and `mark_failed` do with a job in each status.
use kyrgstudio.Base.{ℕ, String, ◌⊎◌, inl, inr, ◌≡◌, refl, Option, none, some, List, [], ◌∷◌, true}
use kyrgstudio.Base.Json
use kyrgstudio.Base.Json.{Json, Float}
use kyrgstudio.Base.Text.{is_one_of}
use kyrgstudio.Errors.{Error}
use kyrgstudio.Database.{ok, err, transaction, Result-cases}
use kyrgstudio.Jobs.{Job, pending, uploaded, running}
use kyrgstudio.Jobs.Fields.{required_str, normalize_step}
use kyrgstudio.Jobs.Marks
use kyrgstudio.Jobs.Marks.{FileReference, upload_values, run_values, complete_values, fail_values}
use kyrgstudio.Jobs.Adapters
use kyrgstudio.Jobs.Store.{JobDb, invalid_transition}
use kyrgstudio.Jobs.Store.Transitions.{Keyed, job_at, allowed_row, stamped}
use kyrgstudio.Jobs.Store.Progress.{MovesTo, transition_job-moves, transition_job-refuses}

abbrev pub open_statuses : List String
open_statuses = pending ∷ uploaded ∷ running ∷ []

module _ (i : ℕ) (db : JobDb) (keyed : Keyed db.tables.next_id db.tables.jobs)
    (calm : db.outages ≡ []) where
  pub mark_failed-moves :
      (error : Json.Fields) (job : Job)
      → job_at db i ≡ some job
      → is_one_of job.status open_statuses ≡ true
      → MovesTo i (stamped (fail_values error) db.now job) (Adapters.mark_failed i error db)
  unfolding Adapters.mark_failed Marks.mark_failed
  mark_failed-moves error job here may =
      transition_job-moves i "mark_failed" open_statuses (fail_values error) (λ now job. refl) db
        keyed calm job here may

  -- A job that is not pending is not uploaded again: `mark_uploaded` raises and changes nothing.
  pub mark_uploaded-refuses :
      (file : FileReference) (backend key uri : String)
      → required_str file.storage_backend "storage_backend" "mark_uploaded" ≡ ok backend
      → required_str file.input_file_key "input_file_key" "mark_uploaded" ≡ ok key
      → required_str file.input_file_uri "input_file_uri" "mark_uploaded" ≡ ok uri
      → allowed_row (pending ∷ []) (job_at db i) ≡ none
      → Adapters.mark_uploaded i file db
        ≡ (err (invalid_transition "mark_uploaded" i (pending ∷ [])), db)
  unfolding Adapters.mark_uploaded Marks.mark_uploaded
  mark_uploaded-refuses file backend key uri b k u refused =
      rw (b, k, u)
        (transition_job-refuses i "mark_uploaded" (pending ∷ []) (upload_values backend key uri)
          (λ now job. refl) db keyed calm refused)

  pub mark_running-moves :
      (step : String) (job : Job)
      → job_at db i ≡ some job
      → is_one_of job.status (uploaded ∷ []) ≡ true
      → MovesTo i
          (stamped (run_values (normalize_step step "running")) db.now job)
          (Adapters.mark_running i step db)
  unfolding Adapters.mark_running Marks.mark_running
  mark_running-moves step job here may =
      transition_job-moves i "mark_running" (uploaded ∷ [])
        (run_values (normalize_step step "running")) (λ now job. refl) db keyed calm job here may

  pub mark_completed-moves :
      (to_float : Json → Option Float) (output : Json.Fields) (job : Job)
      → job_at db i ≡ some job
      → is_one_of job.status (running ∷ []) ≡ true
      → MovesTo i
          (stamped (complete_values to_float output) db.now job)
          (Adapters.mark_completed to_float i output db)
  unfolding Adapters.mark_completed Marks.mark_completed
  mark_completed-moves to_float output job here may =
      transition_job-moves i "mark_completed" (running ∷ []) (complete_values to_float output)
        (λ now job. refl) db keyed calm job here may

  -- A pending job: the file reference is refused and nothing changes, or the job is uploaded.
  pub mark_uploaded-cases :
      (file : FileReference) (job : Job)
      → job_at db i ≡ some job
      → job.status ≡ pending
      → ((backend : String) × (key : String) × (uri : String) × MovesTo i
            (stamped (upload_values backend key uri) db.now job)
            (Adapters.mark_uploaded i file db))
        ⊎ ((e : Error) × (Adapters.mark_uploaded i file db ≡ (err e, db)))
  unfolding Adapters.mark_uploaded Marks.mark_uploaded transaction
  mark_uploaded-cases file job here is_pending =
      elim (Result-cases (required_str file.storage_backend "storage_backend" "mark_uploaded")) [
        | inl (backend, b) ↦
            elim (Result-cases
              (required_str file.input_file_key "input_file_key" "mark_uploaded")) [
                | inl (key, k) ↦
                    elim (Result-cases
                      (required_str file.input_file_uri "input_file_uri" "mark_uploaded")) [
                        | inl (uri, u) ↦ inl (
                          backend,
                          key,
                          uri,
                          rw (b, k, u)
                              (transition_job-moves i "mark_uploaded" (pending ∷ [])
                                (upload_values backend key uri) (λ now job. refl) db keyed calm job
                                here (rw is_pending refl)),
                        )
                        | inr (e, u) ↦ inr (e, rw (b, k, u))
                      ]
                | inr (e, k) ↦ inr (e, rw (b, k))
              ]
        | inr (e, b) ↦ inr (e, rw b)
      ]
