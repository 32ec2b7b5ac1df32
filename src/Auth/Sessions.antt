-- ===== src/Auth/Sessions.antt =====
-- src/app/auth/service.py: the use cases of `AuthService` on refresh sessions and access tokens, and
-- the login with Google.
pub mod Once
use kyrgstudio.Base.{ℕ, String, Option, none, some, Bool, true, false, if◌then◌else◌}
use kyrgstudio.Base.Json
use kyrgstudio.Base.Json.{end}
use kyrgstudio.Errors.{ErrorClass, Error, new_error, is_instance}
use kyrgstudio.Database.{Result, ok, err, Exec, pure, raise, lift, ◌>>=◌, ◌>>◌, catch_in}
use kyrgstudio.Accounts.Checks.{aware}
use kyrgstudio.Accounts.Records.{
  AuthUserRecord, AuthSessionRecord, AuthUserSessionRecord, Rotation, rotated, disabled,
}
use kyrgstudio.Accounts.AuthStore
use kyrgstudio.Auth.{AuthWorld, Outside, AuthConfig, GoogleIdentity, in_accounts, in_outside}
use kyrgstudio.Auth.Principal.{Principal}
use kyrgstudio.Auth.Tokens.{invalid_token, decode}
use kyrgstudio.Auth.Service.{
  AuthenticationResult, RefreshTokenMaterial, invalid_refresh_token, account_disabled,
  link_required, unverified, require_active_user, principal_from_user, new_refresh_token,
  refresh_token_digest, authentication_result, create_session_and_result,
}

-- The outcome of a call as a value, for a clause that handles it.
abbrev attempt : {S A : Type 0} → Exec S A → Exec S (Result A)
attempt m s = let (r, after) = m s in (ok r, after)

module _ {X : Type 0} (out : Outside X) (config : AuthConfig) where
  -- What `refresh` does with the result of the rotation.
  unfoldable pub finish_refresh :
      Rotation → RefreshTokenMaterial → Exec (AuthWorld X) AuthenticationResult
  unfolding AuthStore.revoke_user_sessions authentication_result new_error
  finish_refresh (rotated user current replacement) material =
      if disabled user
      then in_accounts (AuthStore.revoke_user_sessions user.user_id) >> raise account_disabled
      else in_outside (authentication_result out config user material)
  finish_refresh _ material = raise invalid_refresh_token

  -- `refresh`
  unfoldable pub refresh : String → Exec (AuthWorld X) AuthenticationResult
  unfolding refresh_token_digest new_refresh_token AuthStore.rotate_session_by_token_hash
      finish_refresh
  refresh refresh_token = do
    current_hash ← lift (refresh_token_digest out config refresh_token)
    checked_at ← in_outside out.clock
    material ← in_outside (new_refresh_token out config checked_at)
    rotation ← in_accounts (
        AuthStore.rotate_session_by_token_hash current_hash material.token_hash
          (aware material.expires_at) (aware checked_at))
    finish_refresh rotation material

  abbrev revoke_found : Option AuthSessionRecord → Exec (AuthWorld X) Unit
  revoke_found none = pure tt
  revoke_found (some session) =
      in_accounts (AuthStore.revoke_session_family session.family_id) >> pure tt

  abbrev logout_digest : Result String → Exec (AuthWorld X) Unit
  logout_digest (err e) = pure tt
  logout_digest (ok token_hash) = do
    found ← in_accounts (AuthStore.get_session_by_token_hash token_hash)
    revoke_found found

  -- `logout`
  unfoldable pub logout : String → Exec (AuthWorld X) Unit
  unfolding refresh_token_digest AuthStore.get_session_by_token_hash AuthStore.revoke_session_family
  logout refresh_token = logout_digest (refresh_token_digest out config refresh_token)

  abbrev token_user : Option AuthUserRecord → Result AuthUserRecord
  token_user none = err (invalid_token "Access token user no longer exists.")
  token_user (some user) = ok user

  -- `authenticate_access_token`
  unfoldable pub authenticate_access_token : String → Exec (AuthWorld X) Principal
  unfolding decode AuthStore.get_user require_active_user principal_from_user new_error
  authenticate_access_token access_token = do
    claims ← in_outside (decode out config access_token)
    found ← in_accounts (AuthStore.get_user claims.user_id)
    user ← lift (token_user found)
    active ← lift (require_active_user user)
    lift (principal_from_user user)

  abbrev google_verifier : Result (String → Exec X GoogleIdentity)
  google_verifier = elim out.google [
    | none ↦ err (
        new_error ErrorClass.auth_configuration "Google authentication is not configured." none end)
    | some verify ↦ ok verify
  ]

  abbrev require_google_verified : GoogleIdentity → Result Unit
  require_google_verified identity =
      if identity.email_verified
      then ok tt
      else err (unverified "Google email verification is required.")

  -- A user who is there already: active, and with a new session.
  abbrev enter : AuthUserRecord → Exec (AuthWorld X) AuthenticationResult
  enter user = do
    active ← lift (require_active_user user)
    create_session_and_result out config user

  abbrev email_owner_or : Error → Option AuthUserRecord → Exec (AuthWorld X) AuthenticationResult
  email_owner_or e none = raise e
  email_owner_or e (some user) = raise link_required

  abbrev conflict_owner :
      String → Error → Option AuthUserRecord → Exec (AuthWorld X) AuthenticationResult
  conflict_owner email e (some user) = enter user
  conflict_owner email e none = do
    found ← in_accounts (AuthStore.get_user_by_email email)
    email_owner_or e found

  -- `_resolve_google_creation_conflict`
  unfoldable pub resolve_google_creation_conflict :
      String → String → Error → Exec (AuthWorld X) AuthenticationResult
  unfolding AuthStore.get_user_by_google_sub require_active_user create_session_and_result
      AuthStore.get_user_by_email new_error
  resolve_google_creation_conflict subject email e = do
    found ← in_accounts (AuthStore.get_user_by_google_sub subject)
    conflict_owner email e found

  -- The `except UserStoreError` clause around the creation.
  abbrev created_or_resolved :
      GoogleIdentity
      → RefreshTokenMaterial
      → Result AuthUserSessionRecord
      → Exec (AuthWorld X) AuthenticationResult
  created_or_resolved identity material (ok created) =
      in_outside (authentication_result out config created.user material)
  created_or_resolved identity material (err e) =
      if is_instance ErrorClass.user_store e
      then resolve_google_creation_conflict identity.subject identity.email e
      else raise e

  -- `login_with_google` for a subject and an email that no account has
  unfoldable pub create_google_account : GoogleIdentity → Exec (AuthWorld X) AuthenticationResult
  unfolding new_refresh_token AuthStore.create_google_user_with_session authentication_result
      is_instance resolve_google_creation_conflict
  create_google_account identity = do
    issued_at ← in_outside out.clock
    material ← in_outside (new_refresh_token out config issued_at)
    family_id ← in_outside out.new_uuid
    created ← in_accounts (
        attempt (
          AuthStore.create_google_user_with_session identity.email identity.subject (some issued_at)
            identity.name identity.avatar_url material.token_hash family_id
            (aware material.expires_at)))
    created_or_resolved identity material created

  abbrev google_email_owner :
      GoogleIdentity → Option AuthUserRecord → Exec (AuthWorld X) AuthenticationResult
  google_email_owner identity none = create_google_account identity
  google_email_owner identity (some user) = raise link_required

  abbrev google_owner :
      GoogleIdentity → Option AuthUserRecord → Exec (AuthWorld X) AuthenticationResult
  google_owner identity (some user) = enter user
  google_owner identity none = do
    found ← in_accounts (AuthStore.get_user_by_email identity.email)
    google_email_owner identity found

  -- `login_with_google`
  unfoldable pub login_with_google : String → Exec (AuthWorld X) AuthenticationResult
  unfolding AuthStore.get_user_by_google_sub AuthStore.get_user_by_email require_active_user
      create_session_and_result create_google_account new_error
  login_with_google google_id_token = do
    verify ← lift google_verifier
    identity ← in_outside (verify google_id_token)
    verified ← lift (require_google_verified identity)
    found ← in_accounts (AuthStore.get_user_by_google_sub identity.subject)
    google_owner identity found
