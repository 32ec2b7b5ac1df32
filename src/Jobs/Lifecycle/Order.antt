-- ===== src/Jobs/Lifecycle/Order.antt =====
-- Along any history of committed calls a job only goes forward, and stops at its two ends.
use kyrgstudio.Base.{
  ℕ, ◌≤◌, ◌<◌, String, ◌≡◌, refl, ◌∙◌, inl, inr, Option, none, some, List, [], ◌∷◌, arith, str_eq,
  subst, if◌then◌else◌,
}
use kyrgstudio.Jobs.{Job, pending, uploaded, running}
use kyrgstudio.Jobs.Store.{JobDb}
use kyrgstudio.Jobs.Store.Transitions.{Keyed, job_at}
use kyrgstudio.Jobs.Lifecycle.{Event, call, weather, perform, react, history}
use kyrgstudio.Jobs.Lifecycle.Moves.{perform-Lives}
use kyrgstudio.Jobs.Lifecycle.Edges.{
  StatusStep, uploads, starts, works, completes, fails, SameRequest, Edge, same, born, moved,
}

-- How far a status is along the line; the two ends are alike.
abbrev pub rank : String → ℕ
rank s =
    if str_eq s pending
    then 0
    else if str_eq s uploaded
    then 1
    else if str_eq s running
    then 2
    else 3

-- What a later row of the same job may be.
pub record Later (job row : Job) : Type 0 where
  pub forward : rank job.status ≤ rank row.status
  pub request : SameRequest job row
  pub ended : 3 ≤ rank job.status → row ≡ job

StatusStep-rank : {a b : String} → StatusStep a b → (rank a ≤ rank b) × (rank a < 3)
StatusStep-rank (uploads p q) = rw (p, q) (omega arith, omega arith)
StatusStep-rank (starts p q) = rw (p, q) (omega arith, omega arith)
StatusStep-rank (works p q) = rw (p, q) (omega arith, omega arith)
StatusStep-rank (completes p q) = rw (p, q) (omega arith, omega arith)
StatusStep-rank (fails (inl p) q) = rw (p, q) (omega arith, omega arith)
StatusStep-rank (fails (inr (inl p)) q) = rw (p, q) (omega arith, omega arith)
StatusStep-rank (fails (inr (inr p)) q) = rw (p, q) (omega arith, omega arith)

SameRequest-refl : (job : Job) → SameRequest job job
SameRequest-refl job = ground arith

SameRequest-trans : {a b c : Job} → SameRequest a b → SameRequest b c → SameRequest a c
SameRequest-trans h k = ground arith

Later-trans : {a b c : Job} → Later a b → Later b c → Later a c
Later-trans {a} {b} {c} h k = record {
  forward = omega (arith, h.forward, k.forward);
  request = SameRequest-trans h.request k.request;
  ended = λ e. k.ended (omega (arith, h.forward)) ∙ h.ended e;
}

-- From one state to another, every job that is there stays, later.
abbrev pub Onward : Option Job → Option Job → Type 0
Onward none o = Unit
Onward (some job) o = (row : Job) × (o ≡ some row) × Later job row

Onward-refl : (o : Option Job) → Onward o o
Onward-refl none = tt
Onward-refl (some job) =
    (job, refl, record { forward = omega arith; request = SameRequest-refl job; ended = λ e. refl })

Onward-trans : (a b c : Option Job) → Onward a b → Onward b c → Onward a c
Onward-trans none b c h k = tt
Onward-trans (some job) b c h k =
    let k' = subst (λ (o : Option Job). Onward o c) h.1 k in (k'.0, k'.1, Later-trans h.2 k'.2)

Edge-Onward : (a b : Option Job) → Edge a b → Onward a b
Edge-Onward a b (same e) = rw e (Onward-refl a)
Edge-Onward a b (born job is_none is_some is_pending) = rw is_none tt
Edge-Onward a b (moved job row is_job is_row step request) = rw is_job (
  row,
  is_row,
  record {
    forward = (StatusStep-rank step).0;
    request = request;
    ended = λ e. absurd (omega (arith, (StatusStep-rank step).1));
  },
)

react-Keyed :
    (e : Event) (db : JobDb)
    → Keyed db.tables.next_id db.tables.jobs
    → Keyed (react e db).tables.next_id (react e db).tables.jobs
unfolding react
react-Keyed (call c) db keyed = (perform-Lives c db keyed).0
react-Keyed (weather now outages) db keyed = keyed

react-Onward :
    (e : Event) (db : JobDb) (i : ℕ)
    → Keyed db.tables.next_id db.tables.jobs
    → Onward (job_at db i) (job_at (react e db) i)
unfolding react
react-Onward (call c) db i keyed =
    Edge-Onward (job_at db i) (job_at (perform c db).1 i) ((perform-Lives c db keyed).1 i)
react-Onward (weather now outages) db i keyed = Onward-refl (job_at db i)

-- The keys of a table, if they are unique and below the next one, stay unique, and below the next
-- one, along every history of calls, failures of the database and passages of time.
pub history-Keyed :
    (es : List Event) (db : JobDb)
    → Keyed db.tables.next_id db.tables.jobs
    → Keyed (history es db).tables.next_id (history es db).tables.jobs
unfolding history
history-Keyed [] db keyed = keyed
history-Keyed (e ∷ es) db keyed = history-Keyed es (react e db) (react-Keyed e db keyed)

pub history-Onward :
    (es : List Event) (db : JobDb) (i : ℕ)
    → Keyed db.tables.next_id db.tables.jobs
    → Onward (job_at db i) (job_at (history es db) i)
unfolding history
history-Onward [] db i keyed = Onward-refl (job_at db i)
history-Onward (e ∷ es) db i keyed =
    Onward-trans (job_at db i) (job_at (react e db) i) (job_at (history es (react e db)) i)
      (react-Onward e db i keyed) (history-Onward es (react e db) i (react-Keyed e db keyed))

-- A job that is in a table with unique keys stays in the table along every history of calls, with
-- the same id, user, run_id, pipeline type, input and time of creation, at a status that is no
-- earlier on the line pending, uploaded, running, ended, and with an unchanged row if it had
-- ended.
pub history-Later :
    (es : List Event) (db : JobDb) (i : ℕ) (job : Job)
    → Keyed db.tables.next_id db.tables.jobs
    → job_at db i ≡ some job
    → (row : Job) × (job_at (history es db) i ≡ some row) × Later job row
history-Later es db i job keyed here =
    subst (λ (o : Option Job). Onward o (job_at (history es db) i)) here
      (history-Onward es db i keyed)
