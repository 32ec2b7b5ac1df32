-- ===== src/Worker/Tests.antt =====
-- The runner's theorems at a table with an uploaded job, over tools that fail in the executor.
use kyrgstudio.Base.{ℕ, String, ◌≡◌, refl, none, some, List, [], ◌∷◌, false, arith, str_eq}
use kyrgstudio.Base.Int.{pos}
use kyrgstudio.Base.Json.{end}
use kyrgstudio.Base.Lists.{find}
use kyrgstudio.Base.Text.{strip}
use kyrgstudio.Errors.{foreign}
use kyrgstudio.Database.{ok, err, Exec}
use kyrgstudio.Jobs.{Job, uploaded}
use kyrgstudio.Jobs.Store.{new_job}
use kyrgstudio.Jobs.Store.Transitions.{Keyed, job_at}
use kyrgstudio.World.{World}
use kyrgstudio.Worker.Runner.{Tools, run}
use kyrgstudio.Worker.Runner.Laws.{Settled, run_settles}
use kyrgstudio.Worker.Runner.Files.{SameUnlessEnded, run_keeps_files}
use kyrgstudio.Worker.Runner.Refusal.{RefusedAt, run_refuses}

-- The prefixes that were deleted.
abbrev Deleted : Type 0
Deleted = List String

abbrev tools : Tools Deleted String ℕ
tools = record {
  resolve = λ job x. (ok "/tmp/input.mp4", x);
  local_path = λ path. path;
  cleanup = λ path x. (ok tt, x);
  execute = λ request x. (err (foreign "RuntimeError"), x);
  clock = λ x. (0, x);
  delete_prefix = λ prefix x. (ok tt, prefix ∷ x);
  build_completed_output = λ kind result elapsed. ok end;
  elapsed_seconds = λ before after. after;
  to_float = λ v. none;
}

abbrev waiting_job : Job
waiting_job = record (new_job 1 5 (pos 7) none "copy_analysis" end) { status = uploaded }

abbrev world : World Deleted
world = record {
  db = record {
    tables = record { jobs = waiting_job ∷ []; events = []; next_id = 2; users = pos 7 ∷ [] };
    now = 9;
    outages = [];
  };
  outside = [];
}

world-Keyed : Keyed 2 (waiting_job ∷ [])
unfolding find
world-Keyed = (omega arith, refl, tt)

job_waits : job_at world.db 1 ≡ some waiting_job
unfolding find
job_waits = refl

run_settles_example : Settled 1 (run tools (pos 1) world)
run_settles_example = run_settles tools 0 world waiting_job world-Keyed refl job_waits refl

no_second : job_at world.db 2 ≡ none
unfolding find
no_second = refl

absent : (job : Job) → job_at world.db 2 ≡ some job → str_eq (strip job.status) uploaded ≡ false
unfolding find
absent job here = cc

run_refuses_example : RefusedAt world (run tools (pos 2) world)
run_refuses_example = run_refuses tools 1 world refl absent

abbrev keep_all : String → Exec Deleted (Unit {0})
keep_all prefix x = (ok tt, x)

run_keeps_files_example :
    SameUnlessEnded 1
      (run tools (pos 1) world)
      (run (record tools { delete_prefix = keep_all }) (pos 1) world)
run_keeps_files_example = run_keeps_files tools keep_all 0 world world-Keyed
