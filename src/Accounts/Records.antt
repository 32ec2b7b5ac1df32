-- ===== src/Accounts/Records.antt =====
-- The snapshots of rows that src/app/auth/transactional_store.py returns.
use kyrgstudio.Base.{ℕ, String, Option, none, some, Bool}
use kyrgstudio.Accounts.{User, AuthSession, EmailVerificationToken, PasswordResetToken, is_some}

-- `AuthUserRecord`
pub record AuthUserRecord : Type 0 where
  pub user_id : ℕ
  pub email : String
  pub password_hash : Option String
  pub name : Option String
  pub avatar_url : Option String
  pub auth_provider : String
  pub google_subject : Option String
  pub email_verified_at : Option ℕ
  pub disabled_at : Option ℕ

-- `AuthUserRecord.email_verified`
abbrev pub email_verified : AuthUserRecord → Bool
email_verified user = is_some user.email_verified_at

-- `AuthUserRecord.disabled`
abbrev pub disabled : AuthUserRecord → Bool
disabled user = is_some user.disabled_at

-- `AuthSessionRecord`
pub record AuthSessionRecord : Type 0 where
  pub session_id : ℕ
  pub user_id : ℕ
  pub token_hash : String
  pub family_id : String
  pub expires_at : ℕ
  pub last_used_at : ℕ
  pub revoked_at : Option ℕ
  pub replaced_by_session_id : Option ℕ
  pub created_at : ℕ

-- `AuthSessionRecord.revoked`
abbrev pub revoked : AuthSessionRecord → Bool
revoked session = is_some session.revoked_at

-- `EmailVerificationTokenRecord`
pub record EmailVerificationTokenRecord : Type 0 where
  pub token_id : ℕ
  pub user_id : ℕ
  pub token_hash : String
  pub email : String
  pub expires_at : ℕ
  pub used_at : Option ℕ
  pub created_at : ℕ

-- `EmailVerificationTokenRecord.used`
abbrev pub verification_used : EmailVerificationTokenRecord → Bool
verification_used token = is_some token.used_at

-- `PasswordResetTokenRecord`
pub record PasswordResetTokenRecord : Type 0 where
  pub token_id : ℕ
  pub user_id : ℕ
  pub token_hash : String
  pub expires_at : ℕ
  pub used_at : Option ℕ
  pub created_at : ℕ

-- `PasswordResetTokenRecord.used`
abbrev pub reset_used : PasswordResetTokenRecord → Bool
reset_used token = is_some token.used_at

-- `AuthUserSessionRecord`
pub record AuthUserSessionRecord : Type 0 where
  pub user : AuthUserRecord
  pub session : AuthSessionRecord

-- `RefreshSessionRotationRecord`, one constructor for each `RefreshSessionRotationStatus`, with the
-- records that this status carries
pub data Rotation : Type 0 where
  rotated : AuthUserRecord → AuthSessionRecord → AuthSessionRecord → Rotation
  not_found : Rotation
  expired : AuthSessionRecord → Rotation
  reused : AuthSessionRecord → Rotation
  user_not_found : AuthSessionRecord → Rotation

-- `_user_record`
abbrev pub user_record : User → AuthUserRecord
user_record user = record {
  user_id = user.id;
  email = user.email;
  password_hash = user.password_hash;
  name = user.name;
  avatar_url = user.avatar_url;
  auth_provider = user.auth_provider;
  google_subject = user.google_sub;
  email_verified_at = user.email_verified_at;
  disabled_at = user.disabled_at;
}

-- `_optional_user_record`
abbrev pub optional_user_record : Option User → Option AuthUserRecord
optional_user_record none = none
optional_user_record (some user) = some (user_record user)

-- `_auth_session_record`
abbrev pub auth_session_record : AuthSession → AuthSessionRecord
auth_session_record session = record {
  session_id = session.id;
  user_id = session.user_id;
  token_hash = session.token_hash;
  family_id = session.family_id;
  expires_at = session.expires_at;
  last_used_at = session.last_used_at;
  revoked_at = session.revoked_at;
  replaced_by_session_id = session.replaced_by_session_id;
  created_at = session.created_at;
}

-- `_optional_auth_session_record`
abbrev pub optional_auth_session_record : Option AuthSession → Option AuthSessionRecord
optional_auth_session_record none = none
optional_auth_session_record (some session) = some (auth_session_record session)

-- `_email_verification_token_record`
abbrev pub email_verification_token_record : EmailVerificationToken → EmailVerificationTokenRecord
email_verification_token_record token = record {
  token_id = token.id;
  user_id = token.user_id;
  token_hash = token.token_hash;
  email = token.email;
  expires_at = token.expires_at;
  used_at = token.used_at;
  created_at = token.created_at;
}

-- `_optional_email_verification_token_record`
abbrev pub optional_email_verification_token_record :
    Option EmailVerificationToken → Option EmailVerificationTokenRecord
optional_email_verification_token_record none = none
optional_email_verification_token_record (some token) = some (email_verification_token_record token)

-- `_password_reset_token_record`
abbrev pub password_reset_token_record : PasswordResetToken → PasswordResetTokenRecord
password_reset_token_record token = record {
  token_id = token.id;
  user_id = token.user_id;
  token_hash = token.token_hash;
  expires_at = token.expires_at;
  used_at = token.used_at;
  created_at = token.created_at;
}

-- `_optional_password_reset_token_record`
abbrev pub optional_password_reset_token_record :
    Option PasswordResetToken → Option PasswordResetTokenRecord
optional_password_reset_token_record none = none
optional_password_reset_token_record (some token) = some (password_reset_token_record token)
