-- ===== src/Pipeline/Service/Tests.antt =====
-- Repeated requests for a presigned upload, from a table without a job.
use kyrgstudio.Base.{
  ℕ, String, ◌≡◌, ◌≢◌, refl, inl, Option, some, [], true, false, str_eq, str_eq_iff,
}
use kyrgstudio.Base.Int.{pos, eq_ℤ}
use kyrgstudio.Base.Json.{Json, get, put}
use kyrgstudio.Base.Lists.{any}
use kyrgstudio.Database.{ok, err, Exec}
use kyrgstudio.Jobs.Store.{run_id_taken}
use kyrgstudio.World.{World}
use kyrgstudio.Pipeline.Payloads.{build_input_json}
use kyrgstudio.Pipeline.Service.{Backends, key_reused}
use kyrgstudio.Pipeline.Service.Prepare.{prepare_reused, prepare_again}
use kyrgstudio.Pipeline.Service.Prepare.Request.{UploadRequest, asked, Agree, Differs}
use kyrgstudio.Pipeline.Service.Prepare.Steps.{Valid, call, prepared}
use kyrgstudio.Pipeline.Tests.{
  Queue, backends, world, input, input_is_normal, owner_passes, input_key,
}

abbrev create_url : String → String → ℕ → Exec Queue String
create_url key content_type expires_in q = (ok "https://upload", q)

-- A digest that tells two file names apart, in place of SHA-256.
abbrev name_in : Option Json → String
name_in (some (Json.object fields)) = elim (get "filename" fields) [
  | some (Json.text s) ↦ s
  | _ ↦ ""
]
name_in _ = ""

abbrev signing : Backends Queue
signing = record backends {
  create_presigned_upload_url = some create_url;
  digest = λ fields. name_in (get "_direct_upload" fields);
}

names_differ : ◌≢◌ {A = String} "a.mp4" "b.mp4"
names_differ same = not_true ((str_eq_iff "a.mp4" "b.mp4").1 same)
  where
    not_true : str_eq "a.mp4" "b.mp4" ≢ true
    not_true h = cc

abbrev empty : World Queue
empty = record world { db = record world.db { tables = record world.db.tables { jobs = [] } } }

abbrev clip : String → UploadRequest
clip filename = record {
  input = input;
  filename = filename;
  content_type = "video/mp4";
  size_bytes = 12;
}

clip-Valid : (filename : String) → Valid (clip filename) (pos 7) (pos 7) input "first"
clip-Valid filename = record {
  is_normal = input_is_normal;
  is_owner = owner_passes;
  key = input_key;
}

owner_known : any (eq_ℤ (pos 7)) empty.db.tables.users ≡ true
unfolding any
owner_known = refl

first_is_new : run_id_taken (some "first") empty.db.tables.jobs ≡ false
unfolding any
first_is_new = refl

-- The tables that the first request leaves, an hour later.
abbrev hour_later : World Queue
hour_later = record empty {
  db = record (call signing (clip "a.mp4") (pos 7) input 60 empty).1.db {
    now = 3609;
    outages = [];
  };
}

prepare_again_example :
    ((call signing (clip "a.mp4") (pos 7) input 60 empty).0
      ≡ ok (prepared 2 "a.mp4" "https://upload" 60))
    × (call signing (clip "a.mp4") (pos 7) input 60 hour_later
        ≡ (ok (prepared 2 "a.mp4" "https://upload" 60), hour_later))
prepare_again_example =
    prepare_again signing create_url refl (clip "a.mp4") (pos 7) (pos 7) input "first" 60
      (clip-Valid "a.mp4") empty refl owner_known first_is_new "https://upload" refl hour_later refl
      refl "https://upload" refl

clips_differ : Differs (clip "a.mp4") (clip "b.mp4")
clips_differ = inl (λ same. absurd (names_differ same))

no_collision :
    signing.digest (asked (clip "a.mp4")) ≡ signing.digest (asked (clip "b.mp4"))
    → Agree (asked (clip "a.mp4")) (asked (clip "b.mp4"))
unfolding get put build_input_json
no_collision same = absurd (names_differ same)

prepare_reused_example :
    call signing (clip "b.mp4") (pos 7) input 60 hour_later ≡ (err (key_reused signing), hour_later)
prepare_reused_example =
    prepare_reused signing create_url refl (clip "a.mp4") (pos 7) (pos 7) input "first" 60
      (clip-Valid "a.mp4") empty refl owner_known first_is_new "https://upload" refl hour_later refl
      refl (clip "b.mp4") input (clip-Valid "b.mp4") clips_differ no_collision
