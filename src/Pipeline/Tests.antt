-- ===== src/Pipeline/Tests.antt =====
-- The service's theorems at a table with a running job, and a storage and a queue that only note
-- what they are asked.
use kyrgstudio.Base.{ℕ, String, ◌≡◌, refl, Option, none, some, List, [], ◌∷◌, true, false, arith}
use kyrgstudio.Base.Int.{pos, eq_ℤ}
use kyrgstudio.Base.Json.{Json, field, end}
use kyrgstudio.Base.Json
use kyrgstudio.Base.Lists.{find, any}
use kyrgstudio.Base.Text.{strip, lower}
use kyrgstudio.Database.{ok, err, Exec}
use kyrgstudio.Jobs.{Job, running}
use kyrgstudio.Jobs.Fields.{required_str, optional_str}
use kyrgstudio.Jobs.Marks.{fail_values}
use kyrgstudio.Jobs.Store.{new_job, has_run_id, run_id_taken}
use kyrgstudio.Jobs.Store.Transitions.{Keyed, job_at, stamped}
use kyrgstudio.Pipeline.Input.{
  PipelineInput, normalize_pipeline_input, get_pipeline_type, normalize_source_type,
  normalize_choice, required_text, normalize_max_duration, normalize_output_formats, optional_text,
}
use kyrgstudio.Pipeline.Payloads.{StoredFile, build_failed_job_payload, normalize_user_id}
use kyrgstudio.Pipeline.Service.{ObjectMetadata, Backends, start}
use kyrgstudio.World.{World}
use kyrgstudio.Pipeline.Service.Replay.{Referable, not_waiting_for_upload, start_replay_fails}
use kyrgstudio.Pipeline.Confirm.{UploadMetadata, confirm_presigned_upload}
use kyrgstudio.Pipeline.Service.Submission.{Submitted, start_new}
use kyrgstudio.Pipeline.Confirm.Laws.{confirm_settled}

-- The ids that were enqueued.
abbrev pub Queue : Type 0
Queue = List ℕ

abbrev pub backends : Backends Queue
backends = record {
  backend = "local";
  uri = λ key. key;
  create_presigned_upload_url = none;
  get_object_metadata = some (λ key q. (ok none, q));
  enqueue = λ i q. (ok tt, i ∷ q);
  digest = λ fields. "digest";
}

abbrev running_job : Job
running_job = record (new_job 1 5 (pos 7) (some "first") "copy_analysis" end) { status = running }

abbrev pub world : World Queue
world = record {
  db = record {
    tables = record { jobs = running_job ∷ []; events = []; next_id = 2; users = pos 7 ∷ [] };
    now = 9;
    outages = [];
  };
  outside = [];
}

world-Keyed : Keyed 2 (running_job ∷ [])
unfolding find
world-Keyed = (omega arith, refl, tt)

running_here : job_at world.db 1 ≡ some running_job
unfolding find
running_here = refl

running_found : find (has_run_id "first") world.db.tables.jobs ≡ some running_job
unfolding find
running_found = refl

abbrev pub input : PipelineInput
input = record {
  source_type = "video";
  run_id = some "first";
  language = none;
  transcriber_provider = "openai";
  transcriber_model = "whisper-1";
  llm_provider = "openai";
  analysis_model = "gpt";
  max_duration_seconds = none;
  output_formats = "json" ∷ [];
  need_correction = false;
  adaptation = none;
}

pub input_is_normal : normalize_pipeline_input input ≡ ok input
unfolding normalize_pipeline_input normalize_source_type lower strip normalize_choice required_text
    normalize_max_duration normalize_output_formats optional_text
input_is_normal = refl

abbrev file : StoredFile
file = record { key = "jobs/1/input.mp4"; uri = "/data/jobs/1/input.mp4"; backend = "local" }

file-Referable : Referable file "local" "jobs/1/input.mp4" "/data/jobs/1/input.mp4"
unfolding required_str strip
file-Referable = record { has_backend = refl; has_key = refl; has_uri = refl }

pub owner_passes : normalize_user_id (pos 7) (get_pipeline_type input) ≡ ok (pos 7)
unfolding normalize_user_id
owner_passes = refl

pub input_key : optional_str input.run_id ≡ some "first"
unfolding optional_str strip
input_key = refl

abbrev save : ℕ → Exec Queue StoredFile
save i q = (ok file, q)

start_replay_fails_example :
    ((start backends (pos 7) input save world).0 ≡ err (not_waiting_for_upload 1))
    × (job_at (start backends (pos 7) input save world).1.db 1
        ≡ some (
            stamped
              (fail_values (build_failed_job_payload (not_waiting_for_upload 1)))
              9
              running_job))
start_replay_fails_example =
    start_replay_fails backends save world running_job world-Keyed refl refl (pos 7) (pos 7) input
      input "first" input_is_normal owner_passes input_key running_found refl file "local"
      "jobs/1/input.mp4" "/data/jobs/1/input.mp4" refl file-Referable

confirm_settled_example :
    ((confirm_presigned_upload backends (pos 7) 1 world).1.db.tables ≡ world.db.tables)
    × ((confirm_presigned_upload backends (pos 7) 1 world).1.outside ≡ [])
confirm_settled_example = confirm_settled backends (pos 7) 1 world running_job running_here refl

abbrev new_input : PipelineInput
new_input = record input { run_id = some "second" }

new_input_is_normal : normalize_pipeline_input new_input ≡ ok new_input
unfolding normalize_pipeline_input normalize_source_type lower strip normalize_choice required_text
    normalize_max_duration normalize_output_formats optional_text
new_input_is_normal = refl

new_owner_passes : normalize_user_id (pos 7) (get_pipeline_type new_input) ≡ ok (pos 7)
unfolding normalize_user_id
new_owner_passes = refl

owner_known : any (eq_ℤ (pos 7)) world.db.tables.users ≡ true
unfolding any
owner_known = refl

second_is_new : run_id_taken (optional_str new_input.run_id) world.db.tables.jobs ≡ false
unfolding any optional_str strip
second_is_new = refl

start_new_example : Submitted backends save 2 [] (start backends (pos 7) new_input save world)
start_new_example =
    start_new backends save world (pos 7) (pos 7) new_input new_input world-Keyed refl
      new_input_is_normal new_owner_passes owner_known second_is_new

abbrev two_formats : List String
two_formats = "md" ∷ "json" ∷ []

-- A job that waits for the confirmation of its upload.
abbrev upload_fields : Json.Fields
upload_fields =
    field "_direct_upload"
      (Json.object (
        field "filename" (Json.text "clip.mp4") (
          field "content_type" (Json.text "Video/MP4; codecs=avc1")
            (field "size_bytes" (Json.int (pos 12)) end))))
      end

abbrev prepared_job : Job
prepared_job = new_job 1 5 (pos 7) (some "first") "copy_analysis" upload_fields

abbrev prepared_world : World Queue
prepared_world = record world {
  db = record world.db { tables = record world.db.tables { jobs = prepared_job ∷ [] } };
}

abbrev look_up : String → Exec Queue (Option ObjectMetadata)
look_up key q = (ok (some (record { size_bytes = 12; content_type = some "video/mp4" })), q)

abbrev full_backends : Backends Queue
full_backends = record backends { get_object_metadata = some look_up }

abbrev expected : UploadMetadata
expected = record { filename = "clip.mp4"; content_type = "video/mp4"; size_bytes = 12 }
