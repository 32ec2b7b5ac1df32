-- ===== src/Jobs/Adapters.antt =====
-- src/app/pipeline/transactional_job_store.py and src/app/worker/transactional_job_store.py: each
-- call of the job store in a transaction of its own. The two adapters share `mark_failed`.
use kyrgstudio.Base.{ℕ, String, Option}
use kyrgstudio.Base.Json
use kyrgstudio.Base.Json.{Json, Float}
use kyrgstudio.Database.{Exec, transaction, read_scope}
use kyrgstudio.Jobs.{Job}
use kyrgstudio.Jobs.Store
use kyrgstudio.Jobs.Store.{JobDb, JobPayload}
use kyrgstudio.Jobs.Marks
use kyrgstudio.Jobs.Marks.{FileReference}

-- `PipelineJobStore.create_job`
unfoldable pub create_job : JobPayload → Exec JobDb Job
create_job payload = transaction (Store.create_job payload)

-- `PipelineJobStore.get_job`
unfoldable pub get_job : ℕ → Exec JobDb (Option Job)
get_job job_id = transaction (Store.get_job job_id)

-- `PipelineJobStore.mark_uploaded`
unfoldable pub mark_uploaded : ℕ → FileReference → Exec JobDb Job
mark_uploaded job_id payload = transaction (Marks.mark_uploaded job_id payload)

-- `PipelineJobStore.mark_failed` and `WorkerJobStore.mark_failed`
unfoldable pub mark_failed : ℕ → Json.Fields → Exec JobDb Job
mark_failed job_id error = transaction (Marks.mark_failed job_id error)

-- `WorkerJobStore.get_job`
unfoldable pub load_job : ℕ → Exec JobDb (Option Job)
load_job job_id = read_scope (Store.get_job job_id)

-- `WorkerJobStore.mark_running`
unfoldable pub mark_running : ℕ → String → Exec JobDb Job
mark_running job_id step = transaction (Marks.mark_running job_id step)

-- `WorkerJobStore.mark_completed`
unfoldable pub mark_completed : (Json → Option Float) → ℕ → Json.Fields → Exec JobDb Job
mark_completed to_float job_id output = transaction (Marks.mark_completed to_float job_id output)
