-- ===== src/Accounts.antt =====
-- src/app/store/models.py: the rows of the accounts, of their refresh sessions and of the tokens in
-- their mails. An instant is a number; the text of a column stands without its length limit.
pub mod Checks
pub mod Users
pub mod Sessions
pub mod ResetTokens
pub mod EmailTokens
pub mod Records
pub mod AuthStore
mod Tests
use kyrgstudio.Base.{ℕ, String, Option, List, Bool, ◌==◌, if◌then◌else◌, true, false}
use kyrgstudio.Database.{Database}

-- `User`
pub record User : Type 0 where
  pub id : ℕ
  pub email : String
  pub password_hash : Option String
  pub name : Option String
  pub avatar_url : Option String
  pub auth_provider : String
  pub google_sub : Option String
  pub email_verified_at : Option ℕ
  pub created_at : ℕ
  pub updated_at : ℕ
  pub disabled_at : Option ℕ

-- `AuthSession`
pub record AuthSession : Type 0 where
  pub id : ℕ
  pub user_id : ℕ
  pub token_hash : String
  pub family_id : String
  pub expires_at : ℕ
  pub last_used_at : ℕ
  pub revoked_at : Option ℕ
  pub replaced_by_session_id : Option ℕ
  pub created_at : ℕ

-- `EmailVerificationToken`
pub record EmailVerificationToken : Type 0 where
  pub id : ℕ
  pub user_id : ℕ
  pub token_hash : String
  pub email : String
  pub expires_at : ℕ
  pub used_at : Option ℕ
  pub created_at : ℕ

-- `PasswordResetToken`
pub record PasswordResetToken : Type 0 where
  pub id : ℕ
  pub user_id : ℕ
  pub token_hash : String
  pub expires_at : ℕ
  pub used_at : Option ℕ
  pub created_at : ℕ

-- The tables and the keys that their next rows get.
pub record AccountTables : Type 0 where
  pub users : List User
  pub sessions : List AuthSession
  pub email_tokens : List EmailVerificationToken
  pub reset_tokens : List PasswordResetToken
  pub next_user : ℕ
  pub next_session : ℕ
  pub next_email_token : ℕ
  pub next_reset_token : ℕ

abbrev pub AccountDb : Type 0
AccountDb = Database AccountTables

abbrev pub user_has_id : ℕ → User → Bool
user_has_id user_id user = user.id == user_id

abbrev pub is_some : {A : Type 0} → Option A → Bool
is_some Option.none = false
is_some (Option.some a) = true

abbrev pub is_none : {A : Type 0} → Option A → Bool
is_none Option.none = true
is_none (Option.some a) = false
