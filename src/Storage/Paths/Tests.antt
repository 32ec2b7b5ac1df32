-- ===== src/Storage/Paths/Tests.antt =====
-- The keys of one job.
use Prim.Native.String.{◌++◌}
use kyrgstudio.Base.{ℕ, ◌≡◌, refl, inl}
use kyrgstudio.Storage.Paths.{job_prefix, job_input_key}
use kyrgstudio.Storage.Paths.Separate.{job_keys_separate}

abbrev job_id : ℕ
job_id = 12

key_begins : job_input_key 12 "clip.mp4" ≡ job_prefix 12 ++ "input.mp4"
unfolding job_input_key
key_begins = refl

job_keys_separate_example : job_id ≡ job_id
job_keys_separate_example = job_keys_separate 12 12 "clip.mp4" "input.mp4" (inl key_begins)
