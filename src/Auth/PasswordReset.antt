-- ===== src/Auth/PasswordReset.antt =====
-- src/app/auth/password_reset.py: `PasswordResetService`.
use Prim.Native.String.{◌++◌, count}
use kyrgstudio.Base.{
  ℕ, ◌+◌, ◌/◌, String, Option, none, some, Bool, false, ◌&&◌, ◌||◌, not, str_eq, leb, if◌then◌else◌,
}
use kyrgstudio.Base.Json.{Json, field, end}
use kyrgstudio.Base.Text.{strip, lower, has_char}
use kyrgstudio.Errors.{ErrorClass, Error, foreign, new_error, detail, is_instance}
use kyrgstudio.Database.{Result, ok, err, Exec, pure, raise, lift, ◌>>=◌, ◌>>◌, catch}
use kyrgstudio.Accounts.{is_none}
use kyrgstudio.Accounts.Checks.{aware}
use kyrgstudio.Accounts.Records.{AuthUserRecord, disabled}
use kyrgstudio.Accounts.AuthStore
use kyrgstudio.Auth.{AuthWorld, Outside, AuthConfig, reset_mail, in_accounts, in_outside, seconds}
use kyrgstudio.Auth.Principal.{value_error}
use kyrgstudio.Auth.Passwords.{hash}

abbrev input_error : String → String → Error
input_error message name =
    new_error ErrorClass.invalid_input message none (field "field" (Json.text name) end)

-- `_required_token` of a string
unfoldable pub required_token : String → Result String
unfolding new_error
required_token raw_token =
    if str_eq (strip raw_token) ""
    then err (input_error "Password-reset token is required." "token")
    else ok (strip raw_token)

-- `_required_generated_token` of a string
unfoldable pub required_generated_token : String → Result String
required_generated_token raw_token =
    if str_eq (strip raw_token) "" then err value_error else ok (strip raw_token)

-- `_normalize_email` of a string
unfoldable pub normalize_email : String → Result String
unfolding new_error
normalize_email email =
    let normalized = lower (strip email) in
    if str_eq normalized "" || not (has_char 64 normalized) || not (leb (count normalized) 320)
    then err (input_error "A valid email is required." "email")
    else ok normalized

-- The user may be sent a link.
abbrev pub is_eligible : AuthUserRecord → Bool
is_eligible user =
    not (disabled user) && str_eq user.auth_provider "password" && not (is_none user.password_hash)

abbrev is_unavailable : Option Json → Bool
is_unavailable (some (Json.text reason)) = str_eq reason "unavailable"
is_unavailable _ = false

-- The `except StoreError` clause of `reset_password`.
unfoldable pub reset_failed : Error → Error
unfolding is_instance detail new_error
reset_failed e =
    if is_instance ErrorClass.store e && is_unavailable (detail "reason" e)
    then input_error "Password-reset token could not be accepted." "token"
    else e

module _ {X : Type 0} (out : Outside X) (config : AuthConfig) where
  -- `_build_password_reset_url`
  unfoldable pub build_password_reset_url : String → String
  build_password_reset_url raw_token =
      config.public_web_url ++ "/reset-password" ++ "#" ++ out.urlencode_token raw_token

  abbrev expiration_minutes : ℕ
  expiration_minutes =
      if leb 1 (config.reset_ttl_seconds / 60) then config.reset_ttl_seconds / 60 else 1

  -- `request_password_reset` behind the lookup, for an eligible user
  unfoldable pub send_reset_link : AuthUserRecord → Exec (AuthWorld X) Unit
  unfolding required_generated_token AuthStore.create_password_reset_token build_password_reset_url
  send_reset_link user = do
    requested_at ← in_outside out.clock
    generated ← in_outside out.random_token
    raw_token ← lift (required_generated_token generated)
    token ← in_accounts (
        AuthStore.create_password_reset_token user.user_id (out.sha256 raw_token)
          (aware (requested_at + seconds config.reset_ttl_seconds)) (aware requested_at))
    in_outside
        (out.send (reset_mail user.email (build_password_reset_url raw_token) expiration_minutes))

  abbrev send_if_eligible : Option AuthUserRecord → Exec (AuthWorld X) Unit
  send_if_eligible none = pure tt
  send_if_eligible (some user) = if is_eligible user then send_reset_link user else pure tt

  -- `request_password_reset`
  unfoldable pub request_password_reset : String → Exec (AuthWorld X) Unit
  unfolding normalize_email AuthStore.get_user_by_email send_reset_link
  request_password_reset email = do
    normalized ← lift (normalize_email email)
    user ← in_accounts (AuthStore.get_user_by_email normalized)
    send_if_eligible user

  abbrev hash_failed : Error → Error
  hash_failed (foreign name) =
      if str_eq name "TypeError" || str_eq name "ValueError"
      then input_error "New password is invalid." "new_password"
      else foreign name
  hash_failed e = e

  -- `_hash_new_password`
  unfoldable pub hash_new_password : String → Exec X String
  unfolding hash new_error
  hash_new_password new_password = catch (hash out config new_password) λ e. raise (hash_failed e)

  -- `reset_password`
  unfoldable pub reset_password : String → String → Exec (AuthWorld X) Unit
  unfolding required_token hash_new_password AuthStore.reset_password_with_token reset_failed
  reset_password raw_token new_password = do
    text ← lift (required_token raw_token)
    password_hash ← in_outside (hash_new_password new_password)
    consumed_at ← in_outside out.clock
    catch
        (in_accounts (
            AuthStore.reset_password_with_token (out.sha256 text) password_hash (aware consumed_at))
          >> pure tt)
        λ e. raise (reset_failed e)
