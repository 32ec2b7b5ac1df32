-- ===== src/Storage/Paths.antt =====
-- src/app/storage/paths.py: the storage keys of a job's files. A job id is a number here, so
-- `_validate_segment` of its decimal digits passes.
pub mod Separate
mod Tests
use Prim.Native.Nat.{◌+◌, ◌/◌, ◌%◌}
use Prim.Native.Char.{Char, code}
use Prim.Native.String.{[], ◌∷◌, ◌++◌, char_at}
use kyrgstudio.Base.Decimal.{decimal}
use kyrgstudio.Base.{
  ℕ, zero, suc, String, ◌≡◌, refl, Bool, true, false, ◌||◌, ◌&&◌, not, str_eq, ◌==◌, ltb,
  if◌then◌else◌,
}

-- `job_prefix(str(job_id))`
unfoldable pub job_prefix : ℕ → String
unfolding decimal
job_prefix job_id = "jobs/" ++ decimal job_id ++ "/"

-- `value.replace("\\", "/")`
slashes : String → String
slashes [] = []
slashes (c ∷ s) = (if code c == 92 then char_at "/" 0 else c) ∷ slashes s

abbrev named : String → String → String
named before part = if str_eq part "" || str_eq part "." then before else part

-- The last part of a path: parts that are empty or "." are dropped. The second argument is the part
-- before, the third the part that is being read.
name_from : String → String → String → String
name_from [] before part = named before part
name_from (c ∷ s) before part =
    let cut = code c == 47 in
    name_from s (if cut then named before part else before) (if cut then [] else part ++ c ∷ [])

-- `PurePosixPath(path).name`
unfoldable pub path_name : String → String
unfolding name_from
path_name path = name_from path [] []

-- What follows the last dot, with the dot; the second argument is the suffix that was found so far,
-- and the last tells whether a character stands before this one. A dot at the end is no suffix.
suffix_from : String → String → Bool → String
suffix_from [] found inside = found
suffix_from (c ∷ s) found inside =
    suffix_from s
      (if code c == 46 then (if inside && not (str_eq s "") then c ∷ s else "") else found) true

-- `PurePosixPath(name).suffix`
unfoldable pub path_suffix : String → String
unfolding suffix_from
path_suffix name = suffix_from name "" false

-- `_safe_suffix`
unfoldable pub safe_suffix : String → String
unfolding slashes path_name path_suffix
safe_suffix filename =
    if str_eq filename ""
    then ""
    else let suffix = path_suffix (path_name (path_name (slashes filename))) in
      if str_eq suffix "." || str_eq suffix ".." then "" else suffix

-- `job_input_key`
unfoldable pub job_input_key : ℕ → String → String
unfolding job_prefix safe_suffix
job_input_key job_id filename = job_prefix job_id ++ "input" ++ safe_suffix filename

-- `job_audio_key`
unfoldable pub job_audio_key : ℕ → String
unfolding job_prefix
job_audio_key job_id = job_prefix job_id ++ "audio.wav"

job_input_key_test : job_input_key 1207 "C:\\clips\\a.b/take.final.MP4" ≡ "jobs/1207/input.MP4"
unfolding job_input_key
job_input_key_test = refl
