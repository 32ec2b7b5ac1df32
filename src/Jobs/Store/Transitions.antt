-- ===== src/Jobs/Store/Transitions.antt =====
-- A committed call of `_transition_job` moves one job that has an allowed status, or nothing.
use mathlib.Core.Option
use kyrgstudio.Database.Laws.{transaction-ok, transaction-err}
use kyrgstudio.Base.{
  sym, subst, ◌∙◌, ℕ, ◌<◌, String, ◌≡◌, refl, inl, inr, Option, none, some, List, [], ◌∷◌, true,
  arith, Option-cases, Bool-cases, ap, ◌==◌, ==_iff, if◌then◌else◌,
}
use kyrgstudio.Base.Lists.{find, update_where, updated_by, find-update_where, find-holds}
use kyrgstudio.Base.Text.{is_one_of}
use kyrgstudio.Database.{Exec, Result, ok, err, query, transaction}
use kyrgstudio.Jobs.{Job, Tables}
use kyrgstudio.Jobs.Store.{JobDb, has_id, allows, transition_job}

-- No two rows have one key, and the next key is above them all.
abbrev pub Keyed : ℕ → List Job → Type 0
Keyed next [] = Unit
Keyed next (job ∷ jobs) = (job.id < next) × (find (has_id job.id) jobs ≡ none) × Keyed next jobs

-- The row of a key.
abbrev pub job_at : JobDb → ℕ → Option Job
job_at db i = find (has_id i) db.tables.jobs

abbrev pub allowed_row : List String → Option Job → Option Job
allowed_row allowed none = none
allowed_row allowed (some job) = if is_one_of job.status allowed then some job else none

find-none-allows :
    (i : ℕ) (allowed : List String) (jobs : List Job)
    → find (has_id i) jobs ≡ none
    → find (allows i allowed) jobs ≡ none
unfolding find
find-none-allows i allowed [] h = refl
find-none-allows i allowed (job ∷ jobs) h = ground (arith, find-none-allows i allowed jobs)

pub find-allows :
    (i next : ℕ) (allowed : List String) (jobs : List Job)
    → Keyed next jobs
    → find (allows i allowed) jobs ≡ allowed_row allowed (find (has_id i) jobs)
unfolding find
find-allows i next allowed [] k = refl
find-allows i next allowed (job ∷ jobs) k =
    ground
      (arith, find-allows i next allowed jobs k.2, find-none-allows i allowed jobs, ==_iff job.id i)

-- The row that a transition leaves: the new values, and the time of the update.
abbrev pub stamped : (ℕ → Job → Job) → ℕ → Job → Job
stamped set now job = record (set now job) { updated_at = now }

module _ (set : ℕ → Job → Job) (now : ℕ) (same_id : (job : Job) → (set now job).id ≡ job.id) where
  Keyed-update_where :
      (next i : ℕ) (allowed : List String) (jobs : List Job)
      → Keyed next jobs
      → Keyed next (update_where (allows i allowed) (stamped set now) jobs)
  unfolding find update_where
  Keyed-update_where next i allowed [] k = tt
  Keyed-update_where next i allowed (job ∷ jobs) k = ground (
    arith,
    same_id job,
    Keyed-update_where next i allowed jobs k.2,
    find-update_where (has_id job.id) (allows i allowed) (stamped set now) jobs (λ row. rw same_id),
  )

pub eq_of_result : (r : Result Job × JobDb) (row : Job) → r.0 ≡ ok row → r ≡ (ok row, r.1)
eq_of_result r row h = ground arith

-- What a committed transition of job `i` comes to.
abbrev pub Transitioned : JobDb → ℕ → List String → (ℕ → Job → Job) → Result Job × JobDb → Type 0
Transitioned db i allowed set (ok row, after) =
    (job : Job) × (job_at db i ≡ some job)
    × (is_one_of job.status allowed ≡ true)
    × (row ≡ stamped set db.now job)
    × ((k : ℕ) → job_at after k ≡ (if k == i then some row else job_at db k))
    × Keyed after.tables.next_id after.tables.jobs
    × (after.tables.next_id ≡ db.tables.next_id)
Transitioned db i allowed set (err e, after) = after.tables ≡ db.tables

-- What a block comes to, before its commit, that moves this job.
abbrev pub Moves : ℕ → List String → (ℕ → Job → Job) → JobDb → Job → Result Job × JobDb → Type 0
Moves i allowed set db job (ok row, after) =
    (row ≡ stamped set db.now job)
    × (after.tables.jobs ≡ update_where (allows i allowed) (stamped set db.now) db.tables.jobs)
    × (after.tables.next_id ≡ db.tables.next_id)
Moves i allowed set db job (err e, after) = Unit

abbrev pub Raises : Result Job × JobDb → Type 0
Raises (ok row, after) = ⊥
Raises (err e, after) = Unit

module _ (i : ℕ) (allowed : List String) (set : ℕ → Job → Job)
    (same_id : (now : ℕ) (job : Job) → (set now job).id ≡ job.id) where
  rows-transition :
      (db : JobDb) (k : ℕ)
      → find (has_id k) (update_where (allows i allowed) (stamped set db.now) db.tables.jobs)
        ≡ Option.map (updated_by (allows i allowed) (stamped set db.now)) (job_at db k)
  rows-transition db k =
      find-update_where (has_id k) (allows i allowed) (stamped set db.now) db.tables.jobs
        (λ job. rw same_id)

  pub row_found : (db : JobDb) (job : Job) → job_at db i ≡ some job → (job.id == i) ≡ true
  row_found db job = find-holds (has_id i) db.tables.jobs job

  pub rows_after :
      (db : JobDb) (job : Job)
      → job_at db i ≡ some job
      → is_one_of job.status allowed ≡ true
      → (k : ℕ)
      → find (has_id k) (update_where (allows i allowed) (stamped set db.now) db.tables.jobs)
        ≡ (if k == i then some (stamped set db.now job) else job_at db k)
  rows_after db job at may k = elim (Bool-cases (k == i)) [
    | inl same ↦ ground (
      arith,
      rows-transition db k,
      row_found db job,
      ==_iff k i,
      ap (job_at db) ((==_iff k i).0 same),
    )
    | inr other ↦ elim (Option-cases (job_at db k)) [
      | inl gone ↦ ground (arith, rows-transition db k)
      | inr (row, here) ↦
          ground (arith, rows-transition db k, find-holds (has_id k) db.tables.jobs row)
    ]
  ]

  pub transition_job-Moves :
      (operation : String) (db : JobDb) (job : Job)
      → Keyed db.tables.next_id db.tables.jobs
      → job_at db i ≡ some job
      → is_one_of job.status allowed ≡ true
      → Moves i allowed set db job (transition_job i operation allowed set db)
  unfolding transition_job query
  transition_job-Moves operation db job keyed here may = ground (
    arith,
    find-allows i db.tables.next_id allowed db.tables.jobs keyed,
    row_found db job here,
    rows_after db job here may job.id,
  )

  -- A job that is missing, or whose status is not allowed, is refused.
  pub transition_job-Raises :
      (operation : String) (db : JobDb)
      → Keyed db.tables.next_id db.tables.jobs
      → allowed_row allowed (job_at db i) ≡ none
      → Raises (transition_job i operation allowed set db)
  unfolding transition_job
  transition_job-Raises operation db keyed refused =
      ground (arith, find-allows i db.tables.next_id allowed db.tables.jobs keyed)

  pub Moves-Transitioned :
      (db : JobDb) (job : Job)
      → Keyed db.tables.next_id db.tables.jobs
      → job_at db i ≡ some job
      → is_one_of job.status allowed ≡ true
      → (m : Exec JobDb Job) → Moves i allowed set db job (m db)
      → (r : Result Job × JobDb) → transaction m db ≡ r
      → Transitioned db i allowed set r
  Moves-Transitioned db job keyed here may m moves (ok row, after) is_r =
      let done = transaction-ok m db row (ap (λ (r : Result Job × JobDb). r.0) is_r) in
      let moved = subst (Moves i allowed set db job) (eq_of_result (m db) row done.0) moves in
      let same = ap (λ (r : Result Job × JobDb). r.1.tables) (sym is_r) ∙ done.1 in
      (
        job,
        here,
        may,
        moved.0,
        λ k. rw (same, moved.1, moved.0) (rows_after db job here may k),
        rw (same, moved.1, moved.2)
            (Keyed-update_where set db.now (same_id db.now) db.tables.next_id i allowed
              db.tables.jobs keyed),
        ap (λ (t : Tables). t.next_id) same ∙ moved.2,
      )
  Moves-Transitioned db job keyed here may m moves (err e, after) is_r =
      ap (λ (r : Result Job × JobDb). r.1.tables) (sym is_r)
      ∙ transaction-err m db e (ap (λ (r : Result Job × JobDb). r.0) is_r)

  pub Raises-Transitioned :
      (db : JobDb) (m : Exec JobDb Job)
      → Raises (m db)
      → (r : Result Job × JobDb) → transaction m db ≡ r
      → Transitioned db i allowed set r
  Raises-Transitioned db m raises (ok row, after) is_r =
      let done = transaction-ok m db row (ap (λ (r : Result Job × JobDb). r.0) is_r) in
      absurd (subst Raises (eq_of_result (m db) row done.0) raises)
  Raises-Transitioned db m raises (err e, after) is_r =
      ap (λ (r : Result Job × JobDb). r.1.tables) (sym is_r)
      ∙ transaction-err m db e (ap (λ (r : Result Job × JobDb). r.0) is_r)

  -- A block that moves the job where it may and raises where it may not is a transition.
  pub committed-Transitioned :
      (m : Exec JobDb Job) (db : JobDb)
      → ((job : Job)
          → job_at db i ≡ some job
          → is_one_of job.status allowed ≡ true
          → Moves i allowed set db job (m db))
      → (allowed_row allowed (job_at db i) ≡ none → Raises (m db))
      → Keyed db.tables.next_id db.tables.jobs
      → Transitioned db i allowed set (transaction m db)
  committed-Transitioned m db moves raises keyed = elim (Option-cases (job_at db i)) [
    | inl gone ↦ Raises-Transitioned db m (raises (rw gone)) (transaction m db) refl
    | inr (job, here) ↦ elim (Bool-cases (is_one_of job.status allowed)) [
      | inl may ↦
          Moves-Transitioned db job keyed here may m (moves job here may) (transaction m db) refl
      | inr refused ↦ Raises-Transitioned db m (raises (rw (here, refused))) (transaction m db) refl
    ]
  ]

  -- A committed call of `_transition_job` is one.
  pub transition_job-Transitioned :
      (operation : String) (db : JobDb)
      → Keyed db.tables.next_id db.tables.jobs
      → Transitioned db i allowed set (transaction (transition_job i operation allowed set) db)
  transition_job-Transitioned operation db keyed =
      committed-Transitioned (transition_job i operation allowed set) db
        (λ job here may. transition_job-Moves operation db job keyed here may)
        (transition_job-Raises operation db keyed) keyed
