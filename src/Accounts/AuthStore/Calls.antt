-- ===== src/Accounts/AuthStore/Calls.antt =====
-- Sequences of the writing calls of `AuthStore`, by any processes.
use kyrgstudio.Base.{ℕ, String, Option, none, some, List, [], ◌∷◌}
use kyrgstudio.Base.Text.{strip}
use kyrgstudio.Accounts.{AccountDb}
use kyrgstudio.Accounts.Checks.{Datetime}
use kyrgstudio.Accounts.Users.{NewUser}
use kyrgstudio.Accounts.Sessions.{NewSession}
use kyrgstudio.Accounts.AuthStore

-- A call of `AuthStore` that writes. `create_user_with_session` stands for the two methods that are
-- it at their payloads.
pub data Call : Type 0 where
  create_email_verification_token : ℕ → String → String → Datetime → Call
  mark_email_verification_token_used : ℕ → Call
  revoke_pending_email_verification_tokens : ℕ → Call
  create_password_reset_token : ℕ → String → Datetime → Datetime → Call
  reset_password_with_token : String → String → Datetime → Call
  delete_expired_password_reset_tokens : Datetime → Call
  create_password_user : String → String → String → Call
  mark_user_email_verified : ℕ → Call
  create_user_with_session : NewUser → String → String → Datetime → Call
  create_session : NewSession → Call
  rotate_session : ℕ → String → Datetime → Call
  rotate_session_by_token_hash : String → String → Datetime → Datetime → Call
  revoke_session : ℕ → Call
  revoke_user_sessions : ℕ → Call
  revoke_session_family : String → Call
  update_password_hash : ℕ → String → Call

-- The database behind the call, whether it returns or raises.
unfoldable pub perform : Call → AccountDb → AccountDb
perform (create_email_verification_token i email hash expires) db =
    (AuthStore.create_email_verification_token i email hash expires db).1
perform (mark_email_verification_token_used i) db =
    (AuthStore.mark_email_verification_token_used i db).1
perform (revoke_pending_email_verification_tokens i) db =
    (AuthStore.revoke_pending_email_verification_tokens_for_user i db).1
perform (create_password_reset_token i hash expires requested) db =
    (AuthStore.create_password_reset_token i hash expires requested db).1
perform (reset_password_with_token hash password at) db =
    (AuthStore.reset_password_with_token hash password at db).1
perform (delete_expired_password_reset_tokens before) db =
    (AuthStore.delete_expired_password_reset_tokens before db).1
perform (create_password_user email password name) db =
    (AuthStore.create_password_user email password name db).1
perform (mark_user_email_verified i) db = (AuthStore.mark_user_email_verified i db).1
perform (create_user_with_session payload hash family expires) db =
    (AuthStore.create_user_with_session payload hash family expires db).1
perform (create_session payload) db = (AuthStore.create_session payload db).1
perform (rotate_session i hash expires) db = (AuthStore.rotate_session i hash expires db).1
perform (rotate_session_by_token_hash hash replacement expires checked) db =
    (AuthStore.rotate_session_by_token_hash hash replacement expires checked db).1
perform (revoke_session i) db = (AuthStore.revoke_session i db).1
perform (revoke_user_sessions i) db = (AuthStore.revoke_user_sessions i db).1
perform (revoke_session_family family) db = (AuthStore.revoke_session_family family db).1
perform (update_password_hash i password) db = (AuthStore.update_password_hash i password db).1

-- The family in which the call may open a session that replaces no other.
abbrev pub opened_family : Call → Option String
opened_family (create_user_with_session payload hash family expires) = some (strip family)
opened_family (create_session payload) = some (strip payload.family_id)
opened_family _ = none

-- Calls one after the other; between two the clock may move on and the failures to come may be
-- others.
pub data Event : Type 0 where
  call : Call → Event
  weather : ℕ → List (Option String) → Event

unfoldable pub react : Event → AccountDb → AccountDb
react (call c) db = perform c db
react (weather now outages) db = record db { now = now; outages = outages }

unfoldable pub history : List Event → AccountDb → AccountDb
unfolding react
history [] db = db
history (e ∷ es) db = history es (react e db)
