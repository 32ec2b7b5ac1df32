-- ===== src/Pipeline/Service/Failure.antt =====
-- src/app/pipeline/service.py: `_mark_failed_safely`.
use kyrgstudio.Base.{ℕ, ◌≡◌, some, [], true, arith}
use kyrgstudio.Base.Text.{is_one_of}
use kyrgstudio.Errors.{Error}
use kyrgstudio.Database.{ok}
use kyrgstudio.Jobs.{Job}
use kyrgstudio.Jobs.Marks.{fail_values}
use kyrgstudio.Jobs.Progress.{open_statuses, mark_failed-moves}
use kyrgstudio.Jobs.Store.Transitions.{Keyed, job_at, stamped}
use kyrgstudio.World.{World}
use kyrgstudio.Pipeline.Payloads.{build_failed_job_payload}
use kyrgstudio.Pipeline.Service.{mark_failed_safely}

-- It never raises.
pub mark_failed_safely-ok :
    {X : Type 0} (i : ℕ) (error : Error) (w : World X)
    → mark_failed_safely i error w ≡ (ok tt, (mark_failed_safely i error w).1)
unfolding mark_failed_safely
mark_failed_safely-ok i error w = ground arith

module _ {X : Type 0} (w : World X) (i : ℕ) (job : Job)
    (keyed : Keyed w.db.tables.next_id w.db.tables.jobs) (calm : w.db.outages ≡ [])
    (here : job_at w.db i ≡ some job) (may : is_one_of job.status open_statuses ≡ true) where
  -- While the database answers, it fails a job that has not ended.
  pub mark_failed_safely-fails :
      (error : Error) (x : X)
      → job_at (mark_failed_safely i error (record w { outside = x })).1.db i
        ≡ some (stamped (fail_values (build_failed_job_payload error)) w.db.now job)
  unfolding mark_failed_safely
  mark_failed_safely-fails error x =
      let moves =
        mark_failed-moves i w.db keyed calm (build_failed_job_payload error) job here may in
      rw (moves.returned) moves.row
