-- ===== src/Jobs/Store/Reads.antt =====
-- What a committed `get_job` reads.
use kyrgstudio.Base.{ℕ, ◌≡◌, Option, [], arith}
use kyrgstudio.Database.{ok, transaction, read_scope, query}
use kyrgstudio.Jobs.{Job}
use kyrgstudio.Jobs.Adapters
use kyrgstudio.Jobs.Store.{JobDb, get_job}
use kyrgstudio.Jobs.Store.Transitions.{job_at}

-- It reads the row of its key, or fails, and changes no row.
pub get_job-reads :
    (i : ℕ) (db : JobDb)
    → ((Adapters.get_job i db).1.tables ≡ db.tables)
      × ((r : Option Job) → (Adapters.get_job i db).0 ≡ ok r → r ≡ job_at db i)
unfolding Adapters.get_job get_job query transaction
get_job-reads i db = (ground arith, λ r h. ground arith)

-- While the database answers, it reads the row.
pub get_job-calm :
    (i : ℕ) (db : JobDb) → db.outages ≡ [] → Adapters.get_job i db ≡ (ok (job_at db i), db)
unfolding Adapters.get_job get_job query transaction
get_job-calm i db calm = ground arith

-- The worker's read, in a scope that only reads.
pub load_job-calm :
    (i : ℕ) (db : JobDb) → db.outages ≡ [] → Adapters.load_job i db ≡ (ok (job_at db i), db)
unfolding Adapters.load_job get_job query read_scope
load_job-calm i db calm = ground arith
