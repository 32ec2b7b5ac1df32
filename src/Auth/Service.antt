-- ===== src/Auth/Service.antt =====
-- src/app/auth/service.py: `AuthService`, one action for each use case.
pub mod Login
use Prim.Native.String.{count}
use kyrgstudio.Base.{
  ℕ, ◌+◌, String, Option, none, some, Bool, true, false, ◌&&◌, ◌||◌, not, str_eq, leb,
  if◌then◌else◌,
}
use kyrgstudio.Base.Json
use kyrgstudio.Base.Json.{Json, field, end}
use kyrgstudio.Base.Text.{strip, lower}
use kyrgstudio.Errors.{ErrorClass, Error, foreign, new_error, detail, is_instance}
use kyrgstudio.Database.{Result, ok, err, bind_result, Exec, pure, raise, lift, ◌>>=◌, ◌>>◌, catch}
use kyrgstudio.Accounts.Checks.{aware}
use kyrgstudio.Accounts.Records.{
  AuthUserRecord, AuthSessionRecord, AuthUserSessionRecord, Rotation, rotated, disabled,
  email_verified,
}
use kyrgstudio.Accounts.AuthStore
use kyrgstudio.Auth.{
  AuthWorld, Outside, AuthConfig, GoogleIdentity, in_accounts, in_outside, seconds,
}
use kyrgstudio.Auth.Principal.{
  Principal, principal, IssuedTokens, issued_tokens, Claims, is_address, value_error,
}
use kyrgstudio.Auth.Passwords.{hash, verify_and_update}
use kyrgstudio.Auth.Tokens.{issue, decode, digest}
use kyrgstudio.Auth.EmailVerification.{send_verification_email, verify_email_token}

-- `AuthenticationResult`
pub record AuthenticationResult : Type 0 where
  pub principal : Principal
  pub tokens : IssuedTokens

-- `_RefreshTokenMaterial`
pub record RefreshTokenMaterial : Type 0 where
  pub token : String
  pub token_hash : String
  pub expires_at : ℕ

abbrev pub invalid_credentials : Error
invalid_credentials =
    new_error ErrorClass.invalid_credentials "Email or password could not be authenticated." none
      end

abbrev pub invalid_refresh_token : Error
invalid_refresh_token =
    new_error ErrorClass.refresh_token_invalid "Refresh token could not be accepted." none end

abbrev pub account_disabled : Error
account_disabled =
    new_error ErrorClass.account_disabled "Authentication is disabled for this account." none end

abbrev pub link_required : Error
link_required =
    new_error ErrorClass.account_link_required
      "An existing account requires explicit Google linking." none end

abbrev pub unverified : String → Error
unverified message = new_error ErrorClass.email_verification_required message none end

abbrev pub registration_error : String → String → Error
registration_error message name =
    new_error ErrorClass.invalid_input message none (field "field" (Json.text name) end)

-- `_normalized_email`
unfoldable pub normalized_email : String → Result String
unfolding is_address
normalized_email value =
    let email = lower (strip value) in
    if not (str_eq email "") && leb (count email) 320 && is_address email
    then ok email
    else err value_error

abbrev or_error : {A : Type 0} → Result A → Error → Result A
or_error (ok a) e = ok a
or_error (err _) e = err e

-- `_registration_email`
unfoldable pub registration_email : String → Result String
unfolding normalized_email new_error
registration_email value =
    or_error (normalized_email value) (registration_error "Registration email is invalid." "email")

-- `_login_email`
unfoldable pub login_email : String → Result String
unfolding normalized_email new_error
login_email value = or_error (normalized_email value) invalid_credentials

-- `_required_name`
unfoldable pub required_name : String → Result String
unfolding new_error
required_name value =
    let name = strip value in
    if not (leb (count name) 255)
    then err (registration_error "Registration name is too long." "name")
    else if str_eq name ""
    then err (registration_error "Registration name is required." "name")
    else ok name

-- `_require_active_user`
unfoldable pub require_active_user : AuthUserRecord → Result Unit
unfolding new_error
require_active_user user = if disabled user then err account_disabled else ok tt

-- `_principal_from_user`
unfoldable pub principal_from_user : AuthUserRecord → Result Principal
unfolding principal
principal_from_user user =
    principal user.user_id user.email user.name user.auth_provider (email_verified user)

abbrev hash_failed : Error → Error
hash_failed (foreign name) =
    if str_eq name "TypeError" || str_eq name "ValueError"
    then registration_error "Registration password is invalid." "password"
    else foreign name
hash_failed e = e

abbrev has_detail : String → Error → Bool
has_detail key e = elim (detail key e) [ none ↦ false | some v ↦ true ]

-- The `except UserStoreError` clause of `register_with_password`.
unfoldable pub registration_failed : Error → Error
unfolding is_instance detail new_error
registration_failed e =
    if is_instance ErrorClass.user_store e && has_detail "conflict_fields" e
    then new_error ErrorClass.invalid_input "An account already uses this email." none
        (field "field" (Json.text "email") (field "code" (Json.text "already_exists") end))
    else e

module _ {X : Type 0} (out : Outside X) (config : AuthConfig) where
  -- `_new_refresh_token`
  unfoldable pub new_refresh_token : ℕ → Exec X RefreshTokenMaterial
  unfolding digest
  new_refresh_token issued_at = do
    token ← out.random_token
    token_hash ← lift (digest out config token)
    pure (record {
      token = token;
      token_hash = token_hash;
      expires_at = issued_at + seconds config.refresh_ttl_seconds;
    })

  -- `_refresh_token_digest`
  unfoldable pub refresh_token_digest : String → Result String
  unfolding digest new_error
  refresh_token_digest token = or_error (digest out config token) invalid_refresh_token

  -- `_authentication_result`
  unfoldable pub authentication_result :
      AuthUserRecord → RefreshTokenMaterial → Exec X AuthenticationResult
  unfolding principal_from_user issue decode issued_tokens
  authentication_result user material = do
    who ← lift (principal_from_user user)
    access_token ← issue out config who
    claims ← decode out config access_token
    tokens ← lift (issued_tokens access_token material.token claims.expires_at material.expires_at)
    pure (record { principal = who; tokens = tokens })

  -- `_create_session_and_authentication_result`
  unfoldable pub create_session_and_result :
      AuthUserRecord → Exec (AuthWorld X) AuthenticationResult
  unfolding new_refresh_token AuthStore.create_session authentication_result
  create_session_and_result user = do
    now ← in_outside out.clock
    material ← in_outside (new_refresh_token now)
    family_id ← in_outside out.new_uuid
    session ← in_accounts (
        AuthStore.create_session (record {
          user_id = user.user_id;
          token_hash = material.token_hash;
          family_id = family_id;
          expires_at = aware material.expires_at;
        }))
    in_outside (authentication_result user material)

  -- `register_with_password`
  unfoldable pub register_with_password :
      String → String → String → Exec (AuthWorld X) AuthUserRecord
  unfolding registration_email required_name hash AuthStore.create_password_user registration_failed
      send_verification_email
  register_with_password email password name = do
    normalized ← lift (registration_email email)
    user_name ← lift (required_name name)
    password_hash ← in_outside (catch (hash out config password) λ e. raise (hash_failed e))
    user ← in_accounts (
        catch (AuthStore.create_password_user normalized password_hash user_name)
          λ e. raise (registration_failed e))
    sent ← send_verification_email out config user.user_id user.email
    pure user

  -- `verify_email`
  unfoldable pub verify_email : String → Exec (AuthWorld X) AuthenticationResult
  unfolding verify_email_token require_active_user create_session_and_result
  verify_email token = do
    user ← verify_email_token out config token
    active ← lift (require_active_user user)
    create_session_and_result user

  abbrev resend_to : Option AuthUserRecord → Exec (AuthWorld X) Unit
  resend_to none = pure tt
  resend_to (some user) =
      if disabled user || email_verified user
      then pure tt
      else send_verification_email out config user.user_id user.email

  -- `resend_email_verification`
  unfoldable pub resend_email_verification : String → Exec (AuthWorld X) Unit
  unfolding registration_email AuthStore.get_user_by_email send_verification_email
  resend_email_verification email = do
    normalized ← lift (registration_email email)
    user ← in_accounts (AuthStore.get_user_by_email normalized)
    resend_to user

  abbrev pub stored_hash : Option AuthUserRecord → Option String
  stored_hash none = none
  stored_hash (some user) = user.password_hash

  -- The user whose password matched.
  abbrev pub matched : Option AuthUserRecord → Bool → Result AuthUserRecord
  matched (some user) true = ok user
  matched _ _ = err invalid_credentials

  abbrev pub require_verified : AuthUserRecord → Result Unit
  require_verified user =
      if email_verified user
      then ok tt
      else err (unverified "Email verification is required before login.")

  abbrev pub rehashed : AuthUserRecord → Option String → Exec (AuthWorld X) AuthUserRecord
  rehashed user none = pure user
  rehashed user (some updated) = in_accounts (AuthStore.update_password_hash user.user_id updated)

  -- `login_with_password`
  unfoldable pub login_with_password : String → String → Exec (AuthWorld X) AuthenticationResult
  unfolding login_email AuthStore.get_user_by_email verify_and_update require_active_user
      AuthStore.update_password_hash create_session_and_result new_error
  login_with_password email password = do
    normalized ← lift (login_email email)
    found ← in_accounts (AuthStore.get_user_by_email normalized)
    (password_matches, updated) ←
        in_outside (verify_and_update out config password (stored_hash found))
    user ← lift (matched found password_matches)
    active ← lift (require_active_user user)
    verified ← lift (require_verified user)
    current ← rehashed user updated
    create_session_and_result current
