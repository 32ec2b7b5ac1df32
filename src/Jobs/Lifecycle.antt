-- ===== src/Jobs/Lifecycle.antt =====
-- The life of a job under committed calls of the job store, by whatever process: its states form a
-- line with two ends, and each edge of it is passed once.
pub mod Edges
pub mod Moves
pub mod Order
pub mod Once
use kyrgstudio.Base.{ℕ, String, List, [], ◌∷◌, Option}
use kyrgstudio.Base.Json
use kyrgstudio.Base.Json.{Json, Float}
use kyrgstudio.Database.{Exec, transaction}
use kyrgstudio.Jobs.{Job}
use kyrgstudio.Jobs.Store.{JobDb, JobPayload}
use kyrgstudio.Jobs.Marks
use kyrgstudio.Jobs.Marks.{FileReference}
use kyrgstudio.Jobs.Adapters

-- A call that writes to the job store.
pub data Call : Type 0 where
  create : JobPayload → Call
  upload : ℕ → FileReference → Call
  run : ℕ → String → Call
  step : ℕ → String → Json.Fields → Call
  complete : (Json → Option Float) → ℕ → Json.Fields → Call
  fail : ℕ → Json.Fields → Call

-- The call in a transaction of its own.
unfoldable pub perform : Call → Exec JobDb Job
perform (create payload) = Adapters.create_job payload
perform (upload i payload) = Adapters.mark_uploaded i payload
perform (run i name) = Adapters.mark_running i name
perform (step i name payload) = transaction (Marks.mark_step_completed i name payload)
perform (complete to_float i output) = Adapters.mark_completed to_float i output
perform (fail i error) = Adapters.mark_failed i error

-- Calls one after the other, by any processes; between two the clock may move on and the failures
-- to come may be others.
pub data Event : Type 0 where
  call : Call → Event
  weather : ℕ → List (Option String) → Event

unfoldable pub react : Event → JobDb → JobDb
react (call c) db = (perform c db).1
react (weather now outages) db = record db { now = now; outages = outages }

unfoldable pub history : List Event → JobDb → JobDb
unfolding react
history [] db = db
history (e ∷ es) db = history es (react e db)
