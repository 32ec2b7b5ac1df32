-- ===== src/Jobs/Lifecycle/Once.antt =====
-- Each edge of a job's life is passed by one call only, however many processes try.
use mathlib.Core.Option.{some-injective}
use kyrgstudio.Base.{
  ℕ, ◌≤◌, ◌<◌, String, ◌≡◌, refl, sym, ◌∙◌, ap, subst, ◌≢◌, inl, inr, Option, some, List, [], ◌∷◌,
  true, arith, str_eq_iff, ==_refl,
}
use kyrgstudio.Base.Json
use kyrgstudio.Base.Json.{Json, Float}
use kyrgstudio.Base.Text.{is_one_of}
use kyrgstudio.Database.{Result, ok, transaction}
use kyrgstudio.Jobs.{Job, pending, uploaded, running}
use kyrgstudio.Jobs.Fields.{normalize_step}
use kyrgstudio.Jobs.Marks
use kyrgstudio.Jobs.Marks.{run_values, complete_values, fail_values}
use kyrgstudio.Jobs.Adapters
use kyrgstudio.Jobs.Store.{JobDb, transition_job}
use kyrgstudio.Jobs.Store.Transitions.{
  eq_of_result, Keyed, job_at, Transitioned, stamped, transition_job-Transitioned,
}
use kyrgstudio.Jobs.Lifecycle.{Event, history}
use kyrgstudio.Jobs.Lifecycle.Moves.{open_status}
use kyrgstudio.Jobs.Lifecycle.Order.{rank, history-Keyed, history-Later}

-- What a transition that returned tells of the rows before and after it.
module _ (i : ℕ) (operation : String) (allowed : List String) (set : ℕ → Job → Job)
    (same_id : (now : ℕ) (job : Job) → (set now job).id ≡ job.id) (db : JobDb)
    (keyed : Keyed db.tables.next_id db.tables.jobs) {row : Job}
    (returned : (transaction (transition_job i operation allowed set) db).0 ≡ ok row) where
  facts :
      Transitioned db i allowed set
        (ok row, (transaction (transition_job i operation allowed set) db).1)
  facts =
      subst (Transitioned db i allowed set)
        (eq_of_result (transaction (transition_job i operation allowed set) db) row returned)
        (transition_job-Transitioned i allowed set same_id operation db keyed)

  row_after : job_at (transaction (transition_job i operation allowed set) db).1 i ≡ some row
  row_after = facts.4 i ∙ rw (==_refl i)

  row_before : (job : Job) × (job_at db i ≡ some job) × (is_one_of job.status allowed ≡ true)
  row_before = (facts.0, facts.1, facts.2)

  Keyed-after :
      Keyed
        (transaction (transition_job i operation allowed set) db).1.tables.next_id
        (transaction (transition_job i operation allowed set) db).1.tables.jobs
  Keyed-after = facts.5

  status_after :
      (status : String)
      → ((now : ℕ) (job : Job) → (set now job).status ≡ status)
      → row.status ≡ status
  status_after status sets = ap (λ (job : Job). job.status) facts.3 ∙ sets db.now facts.0

  row_is : row ≡ stamped set db.now facts.0
  row_is = facts.3

-- A call at a key whose row is further on than the call allows does not return.
refused_later :
    (i : ℕ) (operation : String) (allowed : List String) (set : ℕ → Job → Job)
    (same_id : (now : ℕ) (job : Job) → (set now job).id ≡ job.id) (bound : ℕ)
    → ((s : String) → is_one_of s allowed ≡ true → rank s < bound)
    → (es : List Event) (db : JobDb) (job : Job) → Keyed db.tables.next_id db.tables.jobs
    → job_at db i ≡ some job
    → bound ≤ rank job.status
    → (row : Job)
    → (transaction (transition_job i operation allowed set) (history es db)).0 ≢ ok row
refused_later i operation allowed set same_id bound below es db job keyed here high row returned =
    let later = history-Later es db i job keyed here in
    let before =
      row_before i operation allowed set same_id (history es db) (history-Keyed es db keyed)
        returned in
    let one : before.0 ≡ later.0 = some-injective before.0 later.0 (sym before.1 ∙ later.1) in
    absurd (
      omega (
        arith,
        later.2.forward,
        below before.0.status before.2,
        ap (λ (job : Job). rank job.status) one,
      ))

rank-uploaded : (s : String) → is_one_of s (uploaded ∷ []) ≡ true → rank s < 2
rank-uploaded s h =
    let e : s ≡ uploaded = ground (arith, str_eq_iff s uploaded) in rw e (omega arith)

-- After a mark_running of a job of a table with unique keys has returned, no other mark_running of
-- that job returns, after whatever calls of other processes, so a job that is delivered twice is
-- started once.
pub mark_running_once :
    (i : ℕ) (first second : String) (db : JobDb) (row : Job)
    → Keyed db.tables.next_id db.tables.jobs
    → (Adapters.mark_running i first db).0 ≡ ok row
    → (es : List Event) (other : Job)
    → (Adapters.mark_running i second (history es (Adapters.mark_running i first db).1)).0
      ≢ ok other
unfolding Adapters.mark_running Marks.mark_running
mark_running_once i first second db row keyed returned es other =
    let set = run_values (normalize_step first "running") in
    refused_later i "mark_running" (uploaded ∷ []) (run_values (normalize_step second "running"))
      (λ now job. refl) 2 rank-uploaded es
      (transaction (transition_job i "mark_running" (uploaded ∷ []) set) db).1 row
      (Keyed-after i "mark_running" (uploaded ∷ []) set (λ now job. refl) db keyed returned)
      (row_after i "mark_running" (uploaded ∷ []) set (λ now job. refl) db keyed returned)
      (rw
        (status_after i "mark_running" (uploaded ∷ []) set (λ now job. refl) db keyed returned
          running (λ now job. refl))
        (omega arith))
      other

rank-running : (s : String) → is_one_of s (running ∷ []) ≡ true → rank s < 3
rank-running s h = let e : s ≡ running = ground (arith, str_eq_iff s running) in rw e (omega arith)

open_rank : (s : String) → is_one_of s (pending ∷ uploaded ∷ running ∷ []) ≡ true → rank s < 3
open_rank s h = elim (open_status s h) [
  | inl e ↦ rw e (omega arith)
  | inr (inl e) ↦ rw e (omega arith)
  | inr (inr e) ↦ rw e (omega arith)
]

-- A call that finishes a job: with an output, or with an error.
pub data Finish : Type 0 where
  with_output : (Json → Option Float) → Json.Fields → Finish
  with_error : Json.Fields → Finish

abbrev pub finish : Finish → ℕ → JobDb → Result Job × JobDb
finish (with_output to_float output) i = Adapters.mark_completed to_float i output
finish (with_error error) i = Adapters.mark_failed i error

abbrev finish_allowed : Finish → List String
finish_allowed (with_output to_float output) = running ∷ []
finish_allowed (with_error error) = pending ∷ uploaded ∷ running ∷ []

abbrev finish_values : Finish → ℕ → Job → Job
finish_values (with_output to_float output) = complete_values to_float output
finish_values (with_error error) = fail_values error

abbrev finish_name : Finish → String
finish_name (with_output to_float output) = "mark_completed"
finish_name (with_error error) = "mark_failed"

finish_lem :
    (f : Finish) (i : ℕ) (db : JobDb)
    → finish f i db
      ≡ transaction (transition_job i (finish_name f) (finish_allowed f) (finish_values f)) db
unfolding Adapters.mark_completed Adapters.mark_failed Marks.mark_completed Marks.mark_failed
finish_lem (with_output to_float output) i db = refl
finish_lem (with_error error) i db = refl

finish-same_id : (f : Finish) (now : ℕ) (job : Job) → (finish_values f now job).id ≡ job.id
finish-same_id (with_output to_float output) now job = refl
finish-same_id (with_error error) now job = refl

finish-rank : (f : Finish) (now : ℕ) (job : Job) → 3 ≤ rank (finish_values f now job).status
finish-rank (with_output to_float output) now job = omega arith
finish-rank (with_error error) now job = omega arith

finish_allowed-rank : (f : Finish) (s : String) → is_one_of s (finish_allowed f) ≡ true → rank s < 3
finish_allowed-rank (with_output to_float output) s h = rank-running s h
finish_allowed-rank (with_error error) s h = open_rank s h

-- After a mark_completed or a mark_failed of a job of a table with unique keys has returned, no
-- mark_completed and no mark_failed of that job returns, after whatever calls of other processes.
pub finish_once :
    (i : ℕ) (first second : Finish) (db : JobDb) (row : Job)
    → Keyed db.tables.next_id db.tables.jobs
    → (finish first i db).0 ≡ ok row
    → (es : List Event) (other : Job)
    → (finish second i (history es (finish first i db).1)).0 ≢ ok other
finish_once i first second db row keyed returned es other =
    rw (finish_lem second, finish_lem first i db)
      (refused_later i (finish_name second) (finish_allowed second) (finish_values second)
        (finish-same_id second) 3 (finish_allowed-rank second) es
        (transaction (transition_job i name allowed set) db).1 row
        (Keyed-after i name allowed set (finish-same_id first) db keyed started)
        (row_after i name allowed set (finish-same_id first) db keyed started)
        (rw (row_is i name allowed set (finish-same_id first) db keyed started)
          (finish-rank first db.now _))
        other)
  where
    name : String
    name = finish_name first

    allowed : List String
    allowed = finish_allowed first

    set : ℕ → Job → Job
    set = finish_values first

    started : (transaction (transition_job i name allowed set) db).0 ≡ ok row
    started = ap (λ (r : Result Job × JobDb). r.0) (sym (finish_lem first i db)) ∙ returned
