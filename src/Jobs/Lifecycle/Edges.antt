-- ===== src/Jobs/Lifecycle/Edges.antt =====
-- The edges of a job's life, and what a call leaves of the table.
use kyrgstudio.Base.{
  ap, ℕ, String, ◌≡◌, ◌⊎◌, inl, inr, Option, none, some, List, [], ◌∷◌, ◌++◌, true, arith,
  Bool-cases, ◌==◌, ==_iff, if◌then◌else◌,
}
use kyrgstudio.Base.Lists.{find, find-append}
use kyrgstudio.Base.Text.{is_one_of}
use kyrgstudio.Database.{Result, ok, err}
use kyrgstudio.Jobs.{Job, Tables, pending, uploaded, running, completed, failed_status}
use kyrgstudio.Jobs.Store.{JobDb, has_id}
use kyrgstudio.Jobs.Store.Transitions.{Keyed, job_at, Transitioned}
use kyrgstudio.Jobs.Store.Creation.{CreatedBy, Keyed-append, find-above}

-- The edges between the values of `status`.
pub data StatusStep (a b : String) : Type 0 where
  uploads : a ≡ pending → b ≡ uploaded → StatusStep a b
  starts : a ≡ uploaded → b ≡ running → StatusStep a b
  works : a ≡ running → b ≡ running → StatusStep a b
  completes : a ≡ running → b ≡ completed → StatusStep a b
  fails : (a ≡ pending) ⊎ ((a ≡ uploaded) ⊎ (a ≡ running)) → b ≡ failed_status → StatusStep a b

-- What no call changes in a row.
pub record SameRequest (a b : Job) : Type 0 where
  pub id : b.id ≡ a.id
  pub user_id : b.user_id ≡ a.user_id
  pub run_id : b.run_id ≡ a.run_id
  pub pipeline_type : b.pipeline_type ≡ a.pipeline_type
  pub input_json : b.input_json ≡ a.input_json
  pub created_at : b.created_at ≡ a.created_at

-- What a call may do to the row of a key.
pub data Edge (a b : Option Job) : Type 0 where
  same : b ≡ a → Edge a b
  born : (job : Job) → a ≡ none → b ≡ some job → job.status ≡ pending → Edge a b
  moved :
      (job row : Job)
      → a ≡ some job
      → b ≡ some row
      → StatusStep job.status row.status
      → SameRequest job row
      → Edge a b

-- The values that a transition sets follow the edges.
abbrev pub Follows : List String → (ℕ → Job → Job) → Type 0
Follows allowed set =
    (now : ℕ) (job : Job)
    → is_one_of job.status allowed ≡ true
    → StatusStep job.status (set now job).status × SameRequest job (set now job)

module _ (db : JobDb) (i : ℕ) (allowed : List String) (set : ℕ → Job → Job) where
  Edge-of_Transitioned :
      (r : Result Job × JobDb)
      → Transitioned db i allowed set r
      → Follows allowed set
      → (k : ℕ) → Edge (job_at db k) (job_at r.1 k)
  Edge-of_Transitioned (err e, after) t follows k = same (rw t)
  Edge-of_Transitioned (ok row, after) t follows k = elim (Bool-cases (k == i)) [
    | inl here ↦
        moved t.0 row (rw ((==_iff k i).0 here) t.1) (rw (t.4 k) (rw here))
          (rw t.3 (follows db.now t.0 t.2).0)
          (rw t.3 (record {
            id = (follows db.now t.0 t.2).1.id;
            user_id = (follows db.now t.0 t.2).1.user_id;
            run_id = (follows db.now t.0 t.2).1.run_id;
            pipeline_type = (follows db.now t.0 t.2).1.pipeline_type;
            input_json = (follows db.now t.0 t.2).1.input_json;
            created_at = (follows db.now t.0 t.2).1.created_at;
          }))
    | inr other ↦ same (rw (t.4 k) (rw other))
  ]

-- What a call leaves: keys, and an edge at every key.
abbrev pub Lives : JobDb → Result Job × JobDb → Type 0
Lives db r =
    Keyed r.1.tables.next_id r.1.tables.jobs × ((k : ℕ) → Edge (job_at db k) (job_at r.1 k))

pub unchanged-Lives :
    (db : JobDb) (r : Result Job × JobDb)
    → Keyed db.tables.next_id db.tables.jobs
    → r.1.tables ≡ db.tables
    → Lives db r
unchanged-Lives db r keyed h = (rw h keyed, λ k. same (rw h))

pub Transitioned-Lives :
    (db : JobDb) (i : ℕ) (allowed : List String) (set : ℕ → Job → Job) (r : Result Job × JobDb)
    → Keyed db.tables.next_id db.tables.jobs
    → Follows allowed set
    → Transitioned db i allowed set r
    → Lives db r
Transitioned-Lives db i allowed set (ok row, after) keyed follows t =
    (t.5, Edge-of_Transitioned db i allowed set (ok row, after) t follows)
Transitioned-Lives db i allowed set (err e, after) keyed follows t =
    unchanged-Lives db (err e, after) keyed t

job_at-append :
    (db after : JobDb) (job : Job) (k : ℕ)
    → Keyed db.tables.next_id db.tables.jobs
    → job.id ≡ db.tables.next_id
    → after.tables.jobs ≡ db.tables.jobs ++ job ∷ []
    → job_at after k ≡ (if k == db.tables.next_id then some job else job_at db k)
unfolding find
job_at-append db after job k keyed is_id is_tables = rw is_tables (
    ground (
      arith,
      find-append (has_id k) db.tables.jobs (job ∷ []),
      find-above db.tables.next_id k db.tables.jobs keyed,
    ))

pub CreatedBy-Lives :
    (db : JobDb) (r : Result Job × JobDb)
    → Keyed db.tables.next_id db.tables.jobs
    → CreatedBy db r
    → Lives db r
CreatedBy-Lives db (err e, after) keyed h = unchanged-Lives db (err e, after) keyed h
CreatedBy-Lives db (ok job, after) keyed (inr h) = unchanged-Lives db (ok job, after) keyed h
CreatedBy-Lives db (ok job, after) keyed (inl h) =
    (rw h.5 (Keyed-append db.tables.next_id db.tables.jobs job keyed (rw h.4)), λ k. edge k)
  where
    found : (k : ℕ) → job_at after k ≡ (if k == db.tables.next_id then some job else job_at db k)
    found k = job_at-append db after job k keyed (rw h.4) (ap (λ (t : Tables). t.jobs) h.5)

    edge : (k : ℕ) → Edge (job_at db k) (job_at after k)
    edge k = elim (Bool-cases (k == db.tables.next_id)) [
      | inl new ↦
          born job
            (rw ((==_iff k db.tables.next_id).0 new)
              (find-above db.tables.next_id db.tables.next_id db.tables.jobs keyed (omega arith)))
            (rw (found k) (rw new)) (rw h.4)
      | inr old ↦ same (rw (found k) (rw old))
    ]
