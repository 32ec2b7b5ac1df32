-- ===== src/Jobs/Store/Creation.antt =====
-- What a committed `create_job` comes to: a new pending row, or the row that owns the `run_id`.
use kyrgstudio.Base.{
  ℕ, ◌≤◌, ◌+◌, String, ◌≡◌, refl, ◌⊎◌, inl, inr, Option, none, some, List, [], ◌∷◌, ◌++◌, true,
  arith,
}
use kyrgstudio.Base.Int.{ℤ, eq_ℤ}
use kyrgstudio.Base.Json
use kyrgstudio.Base.Lists.{find, find-append}
use kyrgstudio.Base.Text.Strip.{or_none-strip}
use kyrgstudio.Database.{Result, ok, err, query, transaction}
use kyrgstudio.Database.Laws.{transaction-lift}
use kyrgstudio.Jobs.{Job}
use kyrgstudio.Jobs.Fields.{optional_str, required_int, required_str, required_mapping}
use kyrgstudio.Jobs.Store.{
  JobDb, JobPayload, has_id, new_job, get_job_by_run_id, create_row, create_job,
}
use kyrgstudio.Jobs.Store.Transitions.{Keyed}

pub find-above :
    (next i : ℕ) (jobs : List Job) → Keyed next jobs → next ≤ i → find (has_id i) jobs ≡ none
unfolding find
find-above next i [] k h = refl
find-above next i (job ∷ jobs) k h = ground (arith, find-above next i jobs k.2 h)

pub Keyed-append :
    (next : ℕ) (jobs : List Job) (job : Job)
    → Keyed next jobs
    → job.id ≡ next
    → Keyed (next + 1) (jobs ++ job ∷ [])
unfolding find
Keyed-append next [] job k h = ground arith
Keyed-append next (row ∷ jobs) job k h =
    ground (arith, Keyed-append next jobs job k.2 h, find-append (has_id row.id) jobs (job ∷ []))

-- What a creation comes to: a new pending row at the end of the table, or nothing new.
abbrev pub Created : JobDb → ℤ → String → Option String → Json.Fields → Result Job × JobDb → Type 0
Created db user pipeline_type run_id input (ok job, after) =
    ((job ≡ new_job db.tables.next_id db.now user run_id pipeline_type input)
      × (after.tables ≡ record db.tables {
        jobs = db.tables.jobs ++ job ∷ [];
        next_id = db.tables.next_id + 1;
      }))
    ⊎ ((after.tables ≡ db.tables) × (eq_ℤ job.user_id user ≡ true))
Created db user pipeline_type run_id input (err e, after) = after.tables ≡ db.tables

module _ (user : ℤ) (pipeline_type : String) (input : Json.Fields) where
  create_row-Created :
      (run_id : Option String) (db : JobDb)
      → Created db user pipeline_type run_id input
          (transaction (create_row user pipeline_type run_id input) db)
  unfolding transaction create_row query get_job_by_run_id
  create_row-Created none db = ground arith
  create_row-Created (some run_id) db = ground arith

-- The same of a whole payload.
abbrev pub CreatedBy : JobDb → Result Job × JobDb → Type 0
CreatedBy db (ok job, after) =
    ((user : ℤ) × (pipeline_type : String) × (run_id : Option String) × (input : Json.Fields) × (job
        ≡ new_job db.tables.next_id db.now user run_id pipeline_type input)
      × (after.tables ≡ record db.tables {
        jobs = db.tables.jobs ++ job ∷ [];
        next_id = db.tables.next_id + 1;
      }))
    ⊎ (after.tables ≡ db.tables)
CreatedBy db (err e, after) = after.tables ≡ db.tables

CreatedBy-of_Created :
    (db : JobDb) (user : ℤ) (pipeline_type : String) (run_id : Option String) (input : Json.Fields)
    (r : Result Job × JobDb)
    → Created db user pipeline_type run_id input r
    → CreatedBy db r
CreatedBy-of_Created db user pipeline_type run_id input (ok job, after) (inl (is_new, is_tables)) =
    inl (user, pipeline_type, run_id, input, is_new, is_tables)
CreatedBy-of_Created db user pipeline_type run_id input (ok job, after) (inr (same, owner)) =
    inr same
CreatedBy-of_Created db user pipeline_type run_id input (err e, after) same = same

pub create_job-CreatedBy :
    (payload : JobPayload) (db : JobDb) → CreatedBy db (transaction (create_job payload) db)
unfolding create_job
create_job-CreatedBy payload db =
    transaction-lift (CreatedBy db) (required_int payload.user_id "user_id" "create_job") _ db
      (λ e. refl)
      λ user _.
        transaction-lift (CreatedBy db)
          (required_str payload.pipeline_type "pipeline_type" "create_job") _ db (λ e. refl)
          λ pipeline_type _.
            transaction-lift (CreatedBy db)
              (required_mapping payload.input_json "input_json" "create_job") _ db (λ e. refl)
              λ input _.
                let run_id = optional_str payload.run_id in
                CreatedBy-of_Created db user pipeline_type run_id input
                  (transaction (create_row user pipeline_type run_id input) db)
                  (create_row-Created user pipeline_type input run_id db)

-- The key of a request as the store keeps it is its own normal form.
pub optional_str-optional_str :
    (s : Option String) (r : String) → optional_str s ≡ some r → optional_str (some r) ≡ some r
unfolding optional_str
optional_str-optional_str none r h = cc
optional_str-optional_str (some s) r h = or_none-strip s r h
