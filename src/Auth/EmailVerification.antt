-- ===== src/Auth/EmailVerification.antt =====
-- src/app/auth/email_verification.py: `EmailVerificationService`.
use Prim.Native.Char.{Char, code}
use Prim.Native.String.{◌++◌, [], ◌∷◌}
use kyrgstudio.Base.{
  ℕ, ◌+◌, String, Option, none, some, ◌||◌, not, str_eq, leb, ◌==◌, if◌then◌else◌,
}
use kyrgstudio.Base.Json
use kyrgstudio.Base.Json.{field, end}
use kyrgstudio.Base.Text.{strip, lower, has_char}
use kyrgstudio.Errors.{ErrorClass, Error, new_error}
use kyrgstudio.Database.{Result, ok, err, Exec, lift, ◌>>=◌}
use kyrgstudio.Accounts.Checks.{aware}
use kyrgstudio.Accounts.Records.{AuthUserRecord, EmailVerificationTokenRecord, verification_used}
use kyrgstudio.Accounts.AuthStore
use kyrgstudio.Auth.{
  AuthWorld, Outside, AuthConfig, verification_mail, in_accounts, in_outside, seconds,
}

abbrev input_error : String → String → Error
input_error message name =
    new_error ErrorClass.invalid_input message none (field "field" (Json.text name) end)

-- `_required_token`
unfoldable pub required_token : String → Result String
unfolding new_error
required_token raw_token =
    let token = strip raw_token in
    if str_eq token ""
    then err (input_error "Email verification token is required." "token")
    else ok token

-- `_normalize_email`
unfoldable pub normalize_email : String → Result String
unfolding new_error
normalize_email email =
    let normalized = lower (strip email) in
    if str_eq normalized "" || not (has_char 64 normalized)
    then err (input_error "A valid email is required." "email")
    else ok normalized

abbrev token_error : String → String → Error
token_error message reason =
    new_error ErrorClass.invalid_token message none (field "reason" (Json.text reason) end)

-- The checks of the token that was found.
unfoldable pub check_token :
    Option EmailVerificationTokenRecord → ℕ → Result EmailVerificationTokenRecord
unfolding new_error
check_token none now = err (token_error "Email verification token was not found." "not_found")
check_token (some token) now =
    if verification_used token
    then err (token_error "Email verification token was already used." "used")
    else if leb token.expires_at now
    then err (token_error "Email verification token expired." "expired")
    else ok token

abbrev keep_unless_slash : Char → String → String
keep_unless_slash c [] = if code c == 47 then [] else c ∷ []
keep_unless_slash c (d ∷ s) = c ∷ d ∷ s

-- `s.rstrip("/")`
unfoldable pub rstrip_slashes : String → String
rstrip_slashes [] = []
rstrip_slashes (c ∷ s) = keep_unless_slash c (rstrip_slashes s)

module _ {X : Type 0} (out : Outside X) (config : AuthConfig) where
  -- `_build_verification_url`
  unfoldable pub build_verification_url : String → String
  unfolding rstrip_slashes
  build_verification_url raw_token =
      rstrip_slashes config.public_web_url
      ++ "/v1/auth/verify-email?"
      ++ out.urlencode_token raw_token

  -- `send_verification_email`
  unfoldable pub send_verification_email : ℕ → String → Exec (AuthWorld X) Unit
  unfolding normalize_email AuthStore.revoke_pending_email_verification_tokens_for_user
      AuthStore.create_email_verification_token build_verification_url
  send_verification_email user_id email = do
    normalized ← lift (normalize_email email)
    raw_token ← in_outside out.random_token
    now ← in_outside out.clock
    revoked ← in_accounts (AuthStore.revoke_pending_email_verification_tokens_for_user user_id)
    token ← in_accounts (
        AuthStore.create_email_verification_token user_id normalized (out.sha256 raw_token)
          (aware (now + seconds config.verification_ttl_seconds)))
    in_outside (out.send (verification_mail normalized (build_verification_url raw_token)))

  -- `verify_email_token`
  unfoldable pub verify_email_token : String → Exec (AuthWorld X) AuthUserRecord
  unfolding required_token AuthStore.get_email_verification_token_by_hash check_token
      AuthStore.mark_email_verification_token_used AuthStore.mark_user_email_verified
  verify_email_token raw_token = do
    text ← lift (required_token raw_token)
    found ← in_accounts (AuthStore.get_email_verification_token_by_hash (out.sha256 text))
    now ← in_outside out.clock
    token ← lift (check_token found now)
    used ← in_accounts (AuthStore.mark_email_verification_token_used token.token_id)
    in_accounts (AuthStore.mark_user_email_verified token.user_id)
