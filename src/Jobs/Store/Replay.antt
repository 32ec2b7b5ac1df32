-- ===== src/Jobs/Store/Replay.antt =====
-- `create_job` under its idempotency key: what a first request and a repeated one come to.
use kyrgstudio.Base.{
  ◌+◌, String, ◌≡◌, some, [], ◌∷◌, ◌++◌, true, false, arith, if◌then◌else◌, Option, none, ℕ, ◌==◌,
  List, str_eq_refl, ==_iff, ap, ◌∙◌, refl,
}
use kyrgstudio.Base.Int.{ℤ, eq_ℤ, eq_ℤ_refl}
use kyrgstudio.Base.Json
use kyrgstudio.Base.Lists.{find, any, any-eq-is_some, find-append}
use kyrgstudio.Database.{ok, err, query, transaction}
use kyrgstudio.Jobs.{Job}
use kyrgstudio.Jobs.Fields.{optional_str, required_int, required_str, required_mapping}
use kyrgstudio.Jobs.Store.{
  JobDb, JobPayload, has_id, has_run_id, run_id_taken, new_job, run_id_conflict, get_job_by_run_id,
  create_row, create_job,
}
use kyrgstudio.Jobs.Store.Creation.{find-above, optional_str-optional_str}
use kyrgstudio.Jobs.Store.Transitions.{Keyed, job_at}
use kyrgstudio.Jobs.Adapters

-- The database with one row more.
abbrev pub appended : JobDb → Job → JobDb
appended db job = record db {
  tables = record db.tables { jobs = db.tables.jobs ++ job ∷ []; next_id = db.tables.next_id + 1 };
}

-- A job that waits for its upload, with nothing but what was asked for.
pub record IsNew (db : JobDb) (user : ℤ) (run_id : Option String) (pipeline_type : String)
    (input : Json.Fields) (job : Job) : Type 0 where
  pub id : job.id ≡ db.tables.next_id
  pub owner : job.user_id ≡ user
  pub key : job.run_id ≡ run_id
  pub kind : job.pipeline_type ≡ pipeline_type
  pub request : job.input_json ≡ input
  pub status : job.status ≡ "pending"
  pub step : job.current_step ≡ "created"
  pub created : (job.created_at ≡ db.now) × (job.updated_at ≡ db.now)
  pub no_file : (job.input_file_key ≡ none) × (job.audio_file_key ≡ none)
  pub no_end : (job.output_json ≡ none) × (job.error_json ≡ none) × (job.finished_at ≡ none)

-- The payload passes the checks of `create_job`, with these values.
pub record Accepts (payload : JobPayload) (user : ℤ) (pipeline_type : String) (input : Json.Fields)
    : Type 0 where
  pub user_id : required_int payload.user_id "user_id" "create_job" ≡ ok user
  pub pipeline : required_str payload.pipeline_type "pipeline_type" "create_job" ≡ ok pipeline_type
  pub mapping : required_mapping payload.input_json "input_json" "create_job" ≡ ok input

module _ (payload : JobPayload) (user : ℤ) (pipeline_type : String) (input : Json.Fields)
    (accepts : Accepts payload user pipeline_type input) (db : JobDb) (calm : db.outages ≡ []) where
  create_job-create_row :
      create_job payload db ≡ create_row user pipeline_type (optional_str payload.run_id) input db
  unfolding create_job
  create_job-create_row = rw (accepts.user_id, accepts.pipeline, accepts.mapping)

  -- While the database answers, a request that passes the checks and whose run_id a job of the
  -- table has does not write: the user of that job gets it back as it is, and any other user gets
  -- IdempotencyConflictError.
  pub create_job_replay :
      (run_id : String) (job : Job)
      → optional_str payload.run_id ≡ some run_id
      → find (has_run_id run_id) db.tables.jobs ≡ some job
      → Adapters.create_job payload db
        ≡ (if eq_ℤ job.user_id user then ok job else err run_id_conflict, db)
  unfolding Adapters.create_job transaction create_row query get_job_by_run_id
  create_job_replay run_id job key owned = ground (
    arith,
    create_job-create_row,
    any-eq-is_some (has_run_id run_id) db.tables.jobs,
    optional_str-optional_str payload.run_id run_id key,
  )

  -- While the database answers, a request of a known user that passes the checks and whose run_id
  -- is new, or that has none, appends one row.
  pub create_job_new :
      any (eq_ℤ user) db.tables.users ≡ true
      → run_id_taken (optional_str payload.run_id) db.tables.jobs ≡ false
      → let job =
          new_job db.tables.next_id db.now user (optional_str payload.run_id) pipeline_type input in
        Adapters.create_job payload db ≡ (ok job, appended db job)
  unfolding Adapters.create_job transaction create_row query
  create_job_new known fresh = ground (arith, create_job-create_row)

-- A row that a table's keys leave room for is found at the end of the table.
job_at-append :
    (next i : ℕ) (jobs : List Job) (job : Job)
    → Keyed next jobs
    → job.id ≡ next
    → find (has_id i) (jobs ++ job ∷ []) ≡ (if job.id == i then some job else find (has_id i) jobs)
unfolding find
job_at-append next i jobs job keyed is_next = ground (
  arith,
  find-append (has_id i) jobs (job ∷ []),
  find-above next next jobs keyed,
  ==_iff job.id i,
)

-- A row with a new run_id is the one that the run_id finds.
pub run_id-append :
    (run_id : String) (jobs : List Job) (job : Job)
    → job.run_id ≡ some run_id
    → run_id_taken (some run_id) jobs ≡ false
    → find (has_run_id run_id) (jobs ++ job ∷ []) ≡ some job
unfolding find
run_id-append run_id jobs job key fresh =
    find-append (has_run_id run_id) jobs (job ∷ [])
    ∙ ground (arith, any-eq-is_some (has_run_id run_id) jobs, key, str_eq_refl run_id)

-- While the database answers, at a table with unique keys, a request of a known user that passes
-- the checks and whose run_id is new returns a pending job at the step created, with the next key,
-- the user, the run_id, the pipeline type and the input of the request, the time of the database,
-- and no file, output or error; the row of this key is that job and the rows of the other keys are
-- as they were. The same request again on the tables that it leaves, at any time and while the
-- database answers, returns the same job and changes nothing.
pub create_job_twice :
    (payload : JobPayload) (user : ℤ) (pipeline_type : String) (input : Json.Fields)
    (accepts : Accepts payload user pipeline_type input) (db : JobDb) (run_id : String) (later : ℕ)
    → db.outages ≡ []
    → Keyed db.tables.next_id db.tables.jobs
    → any (eq_ℤ user) db.tables.users ≡ true
    → optional_str payload.run_id ≡ some run_id
    → run_id_taken (some run_id) db.tables.jobs ≡ false
    → let after = (Adapters.create_job payload db).1 in
      (job : Job) × IsNew db user (some run_id) pipeline_type input job
      × ((Adapters.create_job payload db).0 ≡ ok job)
      × ((i : ℕ) → job_at after i ≡ (if job.id == i then some job else job_at db i))
      × (Adapters.create_job payload (record after { now = later })
          ≡ (ok job, record after { now = later }))
create_job_twice payload user pipeline_type input accepts db run_id later calm keyed known key
      fresh =
    let job = new_job db.tables.next_id db.now user (some run_id) pipeline_type input in
    let first =
      create_job_new payload user pipeline_type input accepts db calm known
        (ap (λ k. run_id_taken k db.tables.jobs) key ∙ fresh) in
    let again =
      create_job_replay payload user pipeline_type input accepts
        (record (appended db job) { now = later }) calm run_id job key
        (run_id-append run_id db.tables.jobs job refl fresh) in
    rw (first, key)
      (
        job,
        record {
          id = refl;
          owner = refl;
          key = refl;
          kind = refl;
          request = refl;
          status = refl;
          step = refl;
          created = (refl, refl);
          no_file = (refl, refl);
          no_end = (refl, refl, refl);
        },
        refl,
        λ i. job_at-append db.tables.next_id i db.tables.jobs job keyed refl,
        again ∙ rw (eq_ℤ_refl user) refl,
      )
