-- ===== src/Worker/Runner/Refusal.antt =====
-- src/app/worker/runner.py: a run of a job that is not waiting for it.
use kyrgstudio.Base.{
  ℕ, suc, ◌≡◌, refl, inl, inr, some, [], Bool, true, false, arith, str_eq, Option-cases,
}
use kyrgstudio.Base.Int.{pos}
use kyrgstudio.Base.Text.{strip}
use kyrgstudio.Database.{Result, ok, err, Result-cases}
use kyrgstudio.Jobs.{Job, uploaded}
use kyrgstudio.Jobs.Store.Reads.{load_job-calm}
use kyrgstudio.Jobs.Store.Transitions.{job_at}
use kyrgstudio.World.{World}
use kyrgstudio.Worker.Runner.{
  Tools, normalize_job_id, job_required_text, ensure_job_is_uploaded, run,
}

-- The call raised and left everything as it was.
abbrev pub RefusedAt : {A X : Type 0} → World X → Result A × World X → Type 0
RefusedAt w (ok a, after) = ⊥
RefusedAt w (err e, after) = after ≡ w

ensure_ok :
    (job : Job) → ensure_job_is_uploaded job ≡ ok tt → str_eq (strip job.status) uploaded ≡ true
unfolding ensure_job_is_uploaded job_required_text
ensure_ok job passed = ground arith

-- While the database answers, a run of a job that is missing or whose status is not uploaded
-- raises and leaves everything as it was: no row is written, and neither the resolver nor the
-- executor nor the storage is called.
pub run_refuses :
    {X R W : Type 0} (tools : Tools X R W) (n : ℕ) (w : World X)
    → w.db.outages ≡ []
    → ((job : Job) → job_at w.db (suc n) ≡ some job → str_eq (strip job.status) uploaded ≡ false)
    → RefusedAt w (run tools (pos (suc n)) w)
unfolding run normalize_job_id
run_refuses tools n w calm other = elim (Option-cases (job_at w.db (suc n))) [
  | inl gone ↦ rw (load_job-calm (suc n) w.db calm, gone) refl
  | inr (job, here) ↦ elim (Result-cases (ensure_job_is_uploaded job)) [
    | inl (tt, passed) ↦ absurd (contra (ensure_ok job passed) (other job here))
    | inr (e, refused) ↦ rw (load_job-calm (suc n) w.db calm, here, refused) refl
  ]
]
  where
    contra : {b : Bool} → b ≡ true → b ≡ false → ⊥
    contra p q = cc
