-- ===== src/Jobs.antt =====
-- The tables of src/app/store/models.py that the job store uses, and the job store's children:
-- the field checks, the store, its transaction adapters, and their laws.
pub mod Fields
pub mod Store
pub mod Marks
pub mod Adapters
pub mod Lifecycle
pub mod Listing
pub mod Progress
mod Tests
use kyrgstudio.Base.{ℕ, String, Option, List, [], ◌∷◌}
use kyrgstudio.Base.Int.{ℤ}
use kyrgstudio.Base.Json
use kyrgstudio.Base.Json.{Json, Float}

-- A row of `jobs`. Its times are those of `func.now()`.
pub record Job : Type 0 where
  pub id : ℕ
  pub user_id : ℤ
  pub run_id : Option String
  pub status : String
  pub current_step : String
  pub pipeline_type : String
  pub input_json : Json.Fields
  pub storage_backend : Option String
  pub input_file_key : Option String
  pub input_file_uri : Option String
  pub audio_file_key : Option String
  pub audio_file_uri : Option String
  pub output_json : Option Json.Fields
  pub error_json : Option Json.Fields
  pub token_usage_json : Option Json.Fields
  pub execution_time_seconds : Option Float
  pub created_at : ℕ
  pub updated_at : ℕ
  pub started_at : Option ℕ
  pub finished_at : Option ℕ

-- A row of `job_events`.
pub record JobEvent : Type 0 where
  pub job_id : ℕ
  pub step : String
  pub event_type : String
  pub payload_json : Option Json.Fields

-- The tables, in the order of insertion, with the next value of the key of `jobs` and the keys of
-- `users` that a foreign key may name.
pub record Tables : Type 0 where
  pub jobs : List Job
  pub events : List JobEvent
  pub next_id : ℕ
  pub users : List ℤ

abbrev pub pending : String
pending = "pending"

abbrev pub uploaded : String
uploaded = "uploaded"

abbrev pub running : String
running = "running"

abbrev pub completed : String
completed = "completed"

abbrev pub failed_status : String
failed_status = "failed"

abbrev pub supported_statuses : List String
supported_statuses = pending ∷ uploaded ∷ running ∷ completed ∷ failed_status ∷ []

abbrev pub supported_pipeline_types : List String
supported_pipeline_types = "copy_analysis" ∷ "copy_adaptation" ∷ []
