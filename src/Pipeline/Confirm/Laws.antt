-- ===== src/Pipeline/Confirm/Laws.antt =====
-- src/app/pipeline/service.py: what a confirmation does to the job, the storage and the queue.
use kyrgstudio.Base.{
  ℕ, ◌≡◌, refl, ◌∙◌, ap, Option, some, false, arith, str_eq, ◌⊎◌, inl, inr, Option-cases,
}
use kyrgstudio.Base.Int.{ℤ}
use kyrgstudio.Errors.{Error}
use kyrgstudio.Database.{ok, err, Result-cases}
use kyrgstudio.Jobs.{Job, pending}
use kyrgstudio.Jobs.Adapters
use kyrgstudio.Jobs.Store.{JobDb}
use kyrgstudio.Jobs.Store.Reads.{get_job-reads}
use kyrgstudio.Jobs.Store.Transitions.{job_at}
use kyrgstudio.Pipeline.Service.{Backends}
use kyrgstudio.World.{World}
use kyrgstudio.Pipeline.Confirm.{confirm_presigned_upload}

-- The read at the start of a confirmation: it found the job, or it failed.
read-cases :
    (i : ℕ) (db : JobDb) (job : Job)
    → job_at db i ≡ some job
    → ((Adapters.get_job i db).0 ≡ ok (some job))
      ⊎ ((e : Error) × ((Adapters.get_job i db).0 ≡ err e))
read-cases i db job here = elim (Result-cases (Adapters.get_job i db).0) [
  | inl (found, is_ok) ↦
      inl (is_ok ∙ ap (λ (o : Option Job). ok o) ((get_job-reads i db).1 found is_ok ∙ here))
  | inr raised ↦ inr raised
]

module _ {X : Type 0} (backends : Backends X) (user_id : ℤ) (i : ℕ) (w : World X) (job : Job)
    (here : job_at w.db i ≡ some job) where
  -- A confirmation of a job that is not pending changes no row and calls neither the storage nor
  -- the queue, whatever the database does.
  pub confirm_settled :
      str_eq job.status pending ≡ false
      → ((confirm_presigned_upload backends user_id i w).1.db.tables ≡ w.db.tables)
        × ((confirm_presigned_upload backends user_id i w).1.outside ≡ w.outside)
  unfolding confirm_presigned_upload
  confirm_settled settled = elim (Option-cases backends.get_object_metadata) [
    | inl unsupported ↦ rw unsupported (refl, refl)
    | inr (get_metadata, supported) ↦ elim (read-cases i w.db job here) [
      | inl found ↦ rw (supported, found) (ground (arith, (get_job-reads i w.db).0), ground arith)
      | inr (e, failed) ↦ rw (supported, failed) ((get_job-reads i w.db).0, refl)
    ]
  ]
