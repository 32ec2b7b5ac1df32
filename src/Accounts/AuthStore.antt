-- ===== src/Accounts/AuthStore.antt =====
-- src/app/auth/transactional_store.py: `AuthStore`, each method a transaction of its own over the
-- stores of the accounts.
pub mod Calls
pub mod Stays
pub mod Moves
pub mod Spent
pub mod Refresh
pub mod Once
pub mod Families
pub mod Checked
pub mod Reuse
pub mod Resets
pub mod ResetMoves
pub mod ResetKeeps
pub mod ResetHistory
pub mod ResetOnce
pub mod Creation
use Prim.Native.String.{◌++◌}
use kyrgstudio.Base.{ℕ, String, Option, none, some, Bool, true, false, not, leb, if◌then◌else◌}
use kyrgstudio.Base.Json
use kyrgstudio.Base.Json.{field, end}
use kyrgstudio.Errors.{ErrorClass, Error, new_error}
use kyrgstudio.Database.{
  Result, ok, err, Exec, pure, raise, lift, ◌>>=◌, Database, transaction, read_scope,
}
use kyrgstudio.Accounts.{User, AuthSession, AccountDb}
use kyrgstudio.Accounts.Checks.{
  Datetime, aware, positive_identifier, utc_datetime, required_sensitive_text,
}
use kyrgstudio.Accounts.Users
use kyrgstudio.Accounts.Users.{NewUser, default_auth_provider, google_auth_provider}
use kyrgstudio.Accounts.Sessions
use kyrgstudio.Accounts.Sessions.{NewSession, is_usable}
use kyrgstudio.Accounts.ResetTokens
use kyrgstudio.Accounts.EmailTokens
use kyrgstudio.Accounts.Records.{
  AuthUserRecord, AuthSessionRecord, EmailVerificationTokenRecord, PasswordResetTokenRecord,
  AuthUserSessionRecord, Rotation, rotated, not_found, expired, reused, user_not_found, user_record,
  optional_user_record, auth_session_record, optional_auth_session_record,
  email_verification_token_record, optional_email_verification_token_record,
  password_reset_token_record, optional_password_reset_token_record,
}

abbrev pub fmap : {A B : Type 0} → (A → B) → Exec AccountDb A → Exec AccountDb B
fmap f m = m >>= λ a. pure (f a)

-- `get_user`
unfoldable pub get_user : ℕ → Exec AccountDb (Option AuthUserRecord)
unfolding positive_identifier read_scope Users.get_user
get_user user_id = do
  id ← lift (positive_identifier user_id "user_id")
  read_scope (fmap optional_user_record (Users.get_user id))

-- `get_user_by_email`
unfoldable pub get_user_by_email : String → Exec AccountDb (Option AuthUserRecord)
unfolding read_scope Users.get_user_by_email
get_user_by_email email = read_scope (fmap optional_user_record (Users.get_user_by_email email))

-- `get_user_by_google_sub`
unfoldable pub get_user_by_google_sub : String → Exec AccountDb (Option AuthUserRecord)
unfolding read_scope Users.get_user_by_google_sub
get_user_by_google_sub subject =
    read_scope (fmap optional_user_record (Users.get_user_by_google_sub subject))

-- `get_session_by_token_hash`
unfoldable pub get_session_by_token_hash : String → Exec AccountDb (Option AuthSessionRecord)
unfolding read_scope Sessions.get_session_by_token_hash
get_session_by_token_hash token_hash =
    read_scope (fmap optional_auth_session_record (Sessions.get_session_by_token_hash token_hash))

-- `create_email_verification_token`
unfoldable pub create_email_verification_token :
    ℕ → String → String → Datetime → Exec AccountDb EmailVerificationTokenRecord
unfolding positive_identifier utc_datetime transaction EmailTokens.create_token
create_email_verification_token user_id email token_hash expires_at = do
  id ← lift (positive_identifier user_id "user_id")
  transaction (
      fmap email_verification_token_record
        (EmailTokens.create_token id email token_hash (utc_datetime expires_at)))

-- `get_email_verification_token_by_hash`
unfoldable pub get_email_verification_token_by_hash :
    String → Exec AccountDb (Option EmailVerificationTokenRecord)
unfolding read_scope EmailTokens.get_token_by_hash
get_email_verification_token_by_hash token_hash =
    read_scope
      (fmap optional_email_verification_token_record (EmailTokens.get_token_by_hash token_hash))

-- `mark_email_verification_token_used`
unfoldable pub mark_email_verification_token_used : ℕ → Exec AccountDb EmailVerificationTokenRecord
unfolding positive_identifier transaction EmailTokens.mark_token_used
mark_email_verification_token_used token_id = do
  id ← lift (positive_identifier token_id "token_id")
  transaction (fmap email_verification_token_record (EmailTokens.mark_token_used id))

-- `revoke_pending_email_verification_tokens_for_user`
unfoldable pub revoke_pending_email_verification_tokens_for_user : ℕ → Exec AccountDb ℕ
unfolding positive_identifier transaction EmailTokens.revoke_pending_tokens_for_user
revoke_pending_email_verification_tokens_for_user user_id = do
  id ← lift (positive_identifier user_id "user_id")
  transaction (EmailTokens.revoke_pending_tokens_for_user id)

abbrev pub late_expiry : Error
late_expiry =
    new_error ErrorClass.user_store "expires_at must be later than requested_at." none
      (field "field" (Json.text "expires_at") end)

-- The check of the two instants in `create_password_reset_token`.
abbrev pub check_expiry : ℕ → ℕ → Result Unit
check_expiry expires_at requested_at =
    if leb expires_at requested_at then err late_expiry else ok tt

-- The block of `create_password_reset_token`
unfoldable pub replace_reset_token : ℕ → String → ℕ → ℕ → Exec AccountDb PasswordResetTokenRecord
unfolding ResetTokens.revoke_pending_tokens_for_user ResetTokens.create_token
replace_reset_token user_id token_hash expires_at requested_at = do
  revoked ← ResetTokens.revoke_pending_tokens_for_user user_id requested_at
  fmap password_reset_token_record (ResetTokens.create_token user_id token_hash expires_at)

-- `create_password_reset_token`
unfoldable pub create_password_reset_token :
    ℕ → String → Datetime → Datetime → Exec AccountDb PasswordResetTokenRecord
unfolding positive_identifier required_sensitive_text utc_datetime new_error transaction
    replace_reset_token
create_password_reset_token user_id token_hash expires_at requested_at = do
  id ← lift (positive_identifier user_id "user_id")
  hash ← lift (required_sensitive_text token_hash "token_hash")
  checked ← lift (check_expiry (utc_datetime expires_at) (utc_datetime requested_at))
  transaction (replace_reset_token id hash (utc_datetime expires_at) (utc_datetime requested_at))

-- `get_password_reset_token_by_hash`
unfoldable pub get_password_reset_token_by_hash :
    String → Exec AccountDb (Option PasswordResetTokenRecord)
unfolding required_sensitive_text read_scope ResetTokens.get_token_by_hash
get_password_reset_token_by_hash token_hash = do
  hash ← lift (required_sensitive_text token_hash "token_hash")
  read_scope (fmap optional_password_reset_token_record (ResetTokens.get_token_by_hash hash))

-- The block of `reset_password_with_token`
unfoldable pub reset_password : String → String → ℕ → Exec AccountDb AuthUserRecord
unfolding ResetTokens.consume_token Users.update_password_hash Sessions.revoke_user_sessions
reset_password token_hash password_hash consumed_at = do
  token ← ResetTokens.consume_token token_hash consumed_at
  user ← Users.update_password_hash token.user_id password_hash
  revoked ← Sessions.revoke_user_sessions token.user_id
  pure (user_record user)

-- `reset_password_with_token`
unfoldable pub reset_password_with_token :
    String → String → Datetime → Exec AccountDb AuthUserRecord
unfolding required_sensitive_text utc_datetime transaction reset_password
reset_password_with_token token_hash password_hash consumed_at = do
  hash ← lift (required_sensitive_text token_hash "token_hash")
  transaction (reset_password hash password_hash (utc_datetime consumed_at))

-- `delete_expired_password_reset_tokens`
unfoldable pub delete_expired_password_reset_tokens : Datetime → Exec AccountDb ℕ
unfolding utc_datetime transaction ResetTokens.delete_expired_tokens
delete_expired_password_reset_tokens before =
    transaction (ResetTokens.delete_expired_tokens (utc_datetime before))

abbrev pub password_payload : String → String → Option String → Option ℕ → NewUser
password_payload email password_hash name email_verified_at = record {
  email = some email;
  password_hash = some password_hash;
  name = name;
  avatar_url = none;
  auth_provider = some default_auth_provider;
  google_sub = none;
  email_verified_at = email_verified_at;
}

-- `create_password_user`
unfoldable pub create_password_user : String → String → String → Exec AccountDb AuthUserRecord
unfolding transaction Users.create_user
create_password_user email password_hash name =
    transaction
      (fmap user_record (Users.create_user (password_payload email password_hash (some name) none)))

-- `mark_user_email_verified`
unfoldable pub mark_user_email_verified : ℕ → Exec AccountDb AuthUserRecord
unfolding positive_identifier transaction Users.mark_email_verified
mark_user_email_verified user_id = do
  id ← lift (positive_identifier user_id "user_id")
  transaction (fmap user_record (Users.mark_email_verified id))

abbrev user_session_record : User → AuthSession → AuthUserSessionRecord
user_session_record user session = record {
  user = user_record user;
  session = auth_session_record session;
}

-- `_create_user_with_session`
unfoldable pub create_user_with_session :
    NewUser → String → String → Datetime → Exec AccountDb AuthUserSessionRecord
unfolding transaction Users.create_user Sessions.create_session
create_user_with_session payload token_hash family_id session_expires_at = transaction (do
  user ← Users.create_user payload
  session ← Sessions.create_session (record {
    user_id = user.id;
    token_hash = token_hash;
    family_id = family_id;
    expires_at = session_expires_at;
  })
  pure (user_session_record user session))

-- `create_password_user_with_session`
unfoldable pub create_password_user_with_session :
    String
    → String
    → Option String
    → String
    → String
    → Datetime
    → Option ℕ
    → Exec AccountDb AuthUserSessionRecord
unfolding create_user_with_session
create_password_user_with_session email password_hash name token_hash family_id expires verified =
    create_user_with_session (password_payload email password_hash name verified) token_hash
      family_id expires

abbrev pub google_payload : String → String → Option ℕ → Option String → Option String → NewUser
google_payload email google_subject email_verified_at name avatar_url = record {
  email = some email;
  password_hash = none;
  name = name;
  avatar_url = avatar_url;
  auth_provider = some google_auth_provider;
  google_sub = some google_subject;
  email_verified_at = email_verified_at;
}

-- `create_google_user_with_session`
unfoldable pub create_google_user_with_session :
    String
    → String
    → Option ℕ
    → Option String
    → Option String
    → String
    → String
    → Datetime
    → Exec AccountDb AuthUserSessionRecord
unfolding create_user_with_session
create_google_user_with_session email subject verified name avatar token_hash family_id expires =
    create_user_with_session (google_payload email subject verified name avatar) token_hash
      family_id expires

-- `create_session`
unfoldable pub create_session : NewSession → Exec AccountDb AuthSessionRecord
unfolding transaction Sessions.create_session
create_session payload = transaction (fmap auth_session_record (Sessions.create_session payload))

abbrev replacement_record : AuthSession × AuthSession → AuthSessionRecord
replacement_record (replacement, current) = auth_session_record replacement

-- `rotate_session`
unfoldable pub rotate_session : ℕ → String → Datetime → Exec AccountDb AuthSessionRecord
unfolding transaction Sessions.rotate_session
rotate_session session_id token_hash expires_at =
    transaction (fmap replacement_record (Sessions.rotate_session session_id token_hash expires_at))

abbrev rotation_record : User → AuthSession × AuthSession → Rotation
rotation_record user (replacement, current) =
    rotated (user_record user) (auth_session_record current) (auth_session_record replacement)

-- What `rotate_session_by_token_hash` does with a usable session, by its user.
unfoldable pub rotate_for : AuthSession → Option User → String → Datetime → Exec AccountDb Rotation
unfolding Sessions.revoke_session Sessions.rotate_session
rotate_for current none token_hash expires_at =
    fmap (λ s. user_not_found (auth_session_record s)) (Sessions.revoke_session current.id)
rotate_for current (some user) token_hash expires_at =
    fmap (rotation_record user) (Sessions.rotate_session current.id token_hash expires_at)

abbrev pub rotate_usable : AuthSession → String → Datetime → Exec AccountDb Rotation
rotate_usable current token_hash expires_at = do
  user ← Users.get_user current.user_id
  rotate_for current user token_hash expires_at

-- The branches of `rotate_session_by_token_hash`, by the session that was found.
unfoldable pub rotate_found : Option AuthSession → String → Datetime → ℕ → Exec AccountDb Rotation
unfolding Sessions.revoke_family Sessions.revoke_session Users.get_user rotate_for
rotate_found none token_hash expires_at checked_at = pure not_found
rotate_found (some current) token_hash expires_at checked_at =
    if not (is_usable current)
    then fmap (λ n. reused (auth_session_record current)) (Sessions.revoke_family current.family_id)
    else if leb current.expires_at checked_at
    then fmap (λ s. expired (auth_session_record s)) (Sessions.revoke_session current.id)
    else rotate_usable current token_hash expires_at

-- `rotate_session_by_token_hash`
unfoldable pub rotate_session_by_token_hash :
    String → String → Datetime → Datetime → Exec AccountDb Rotation
unfolding utc_datetime transaction Sessions.get_session_by_token_hash rotate_found
rotate_session_by_token_hash token_hash replacement_hash replacement_expires_at checked_at =
    transaction (do
      current ← Sessions.get_session_by_token_hash token_hash
      rotate_found current replacement_hash replacement_expires_at (utc_datetime checked_at))

-- `revoke_session`
unfoldable pub revoke_session : ℕ → Exec AccountDb AuthSessionRecord
unfolding transaction Sessions.revoke_session
revoke_session session_id =
    transaction (fmap auth_session_record (Sessions.revoke_session session_id))

-- `revoke_user_sessions`
unfoldable pub revoke_user_sessions : ℕ → Exec AccountDb ℕ
unfolding transaction Sessions.revoke_user_sessions
revoke_user_sessions user_id = transaction (Sessions.revoke_user_sessions user_id)

-- `revoke_session_family`
unfoldable pub revoke_session_family : String → Exec AccountDb ℕ
unfolding transaction Sessions.revoke_family
revoke_session_family family_id = transaction (Sessions.revoke_family family_id)

-- `update_password_hash`
unfoldable pub update_password_hash : ℕ → String → Exec AccountDb AuthUserRecord
unfolding transaction Users.update_password_hash
update_password_hash user_id password_hash =
    transaction (fmap user_record (Users.update_password_hash user_id password_hash))
