-- ===== src/Accounts/AuthStore/Moves.antt =====
-- Each call of `AuthStore` makes one move on the sessions.
use kyrgstudio.Base.{ℕ, String, ◌≡◌, refl, Option, none, some, leb, Bool-cases, inl, inr}
use kyrgstudio.Base.Text.{strip}
use kyrgstudio.Database.{Result, ok, err, Exec, pure, lift, ◌>>=◌, transaction}
use kyrgstudio.Database.Effects.{Effect, Effect-pure, Effect-check, Effect-transaction}
use kyrgstudio.Accounts.{User, AuthSession, AccountDb}
use kyrgstudio.Accounts.Checks.{
  Datetime, positive_identifier, required_sensitive_text, utc_datetime,
}
use kyrgstudio.Accounts.Users
use kyrgstudio.Accounts.Users.{NewUser}
use kyrgstudio.Accounts.Sessions
use kyrgstudio.Accounts.Sessions.{NewSession, is_usable}
use kyrgstudio.Accounts.Sessions.Moves.{
  Move, Moving, Moving-refl, Still, Still-refl, Moving-behind, Moving-before, Still-bind, stays,
  get_session_by_token_hash-Still, revoke_user_sessions-Moving, revoke_family-Moving,
  revoke_session-Moving, create_session-Moving,
}
use kyrgstudio.Accounts.Sessions.Rotation.{rotate_session-Moving}
use kyrgstudio.Accounts.ResetTokens
use kyrgstudio.Accounts.AuthStore
use kyrgstudio.Accounts.Records.{user_record}
use kyrgstudio.Accounts.AuthStore.{
  password_payload, fmap, rotate_found, rotate_for, reset_password, replace_reset_token,
  check_expiry,
}
use kyrgstudio.Accounts.AuthStore.Calls.{Call, perform, opened_family}
use kyrgstudio.Accounts.AuthStore.Calls
use kyrgstudio.Accounts.AuthStore.Stays.{
  create_user-Still, get_user-Still, update_password_hash-Still, mark_email_verified-Still,
  consume_token-Still, replace_reset_token-Still, delete_expired_tokens-Still,
  create_email_token-Still, mark_token_used-Still, revoke_email_tokens-Still,
}

fmap-Moving :
    {A B : Type 0} (family : Option String) (f : A → B) (m : Exec AccountDb A)
    → Effect (Moving family) m
    → Effect (Moving family) (fmap f m)
fmap-Moving family f m h =
    Moving-before family m (λ a. pure (f a)) h (λ a. Effect-pure Still Still-refl (f a))

fmap-Still :
    {A B : Type 0} (f : A → B) (m : Exec AccountDb A) → Effect Still m → Effect Still (fmap f m)
fmap-Still f m h = Still-bind m (λ a. pure (f a)) h (λ a. Effect-pure Still Still-refl (f a))

-- A call that leaves the sessions, in a transaction.
stays_in :
    {A : Type 0} (family : Option String) (m : Exec AccountDb A) (db : AccountDb)
    → Effect Still m
    → Moving family db.tables (transaction m db).1.tables
stays_in family m db h = stays ((Effect-transaction Still Still-refl m h).holds db)

-- A checked identifier in front of such a call.
stays_behind :
    {A B : Type 0} (family : Option String) (r : Result A) (m : A → Exec AccountDb B)
    → ((a : A) → Effect Still (m a))
    → (db : AccountDb) → Moving family db.tables ((lift r >>= λ a. transaction (m a)) db).1.tables
stays_behind family (ok a) m h db = stays_in family (m a) db (h a)
stays_behind family (err e) m h db = stays refl

in_transaction :
    {A : Type 0} (family : Option String) (m : Exec AccountDb A)
    → Effect (Moving family) m
    → (db : AccountDb) → Moving family db.tables (transaction m db).1.tables
in_transaction family m h db =
    (Effect-transaction (Moving family) (Moving-refl family) m h).holds db

reset_password-Moving :
    (family : Option String) (hash password : String) (at : ℕ)
    → Effect (Moving family) (reset_password hash password at)
unfolding reset_password
reset_password-Moving family hash password at =
    Moving-behind family (ResetTokens.consume_token hash at) _ (consume_token-Still hash at)
      λ token.
        Moving-behind family (Users.update_password_hash token.user_id password) _
          (update_password_hash-Still token.user_id password)
          λ user.
            Moving-before family (Sessions.revoke_user_sessions token.user_id) _
              (revoke_user_sessions-Moving family token.user_id) λ n. Effect-pure Still Still-refl _

rotate_for-Moving :
    (family : Option String) (current : AuthSession) (user : Option User) (hash : String)
    (expires : Datetime)
    → Effect (Moving family) (rotate_for current user hash expires)
unfolding rotate_for
rotate_for-Moving family current none hash expires =
    fmap-Moving family _ _ (revoke_session-Moving family current.id)
rotate_for-Moving family current (some user) hash expires =
    fmap-Moving family _ _ (rotate_session-Moving family current.id hash expires)

rotate_found-Moving :
    (family : Option String) (found : Option AuthSession) (hash : String) (expires : Datetime)
    (checked : ℕ)
    → Effect (Moving family) (rotate_found found hash expires checked)
unfolding rotate_found
rotate_found-Moving family none hash expires checked =
    Effect-pure (Moving family) (Moving-refl family) _
rotate_found-Moving family (some current) hash expires checked =
    elim (Bool-cases (is_usable current)) [
      | inr spent ↦
          rw spent (fmap-Moving family _ _ (revoke_family-Moving family current.family_id))
      | inl usable ↦ elim (Bool-cases (leb current.expires_at checked)) [
        | inl late ↦
            rw (usable, late) (fmap-Moving family _ _ (revoke_session-Moving family current.id))
        | inr early ↦
            rw (usable, early)
              (Moving-behind family _ _ (get_user-Still current.user_id)
                λ user. rotate_for-Moving family current user hash expires)
      ]
    ]

create_reset-same :
    (i : ℕ) (hash : String) (expires requested : Datetime) (db : AccountDb)
    → (AuthStore.create_password_reset_token i hash expires requested db).1.tables.sessions
      ≡ db.tables.sessions
unfolding AuthStore.create_password_reset_token
create_reset-same i hash expires requested db =
    (Effect-check Still Still-refl (positive_identifier i "user_id") _ λ id _.
        Effect-check Still Still-refl (required_sensitive_text hash "token_hash") _ λ text _.
          Effect-check Still Still-refl
            (check_expiry (utc_datetime expires) (utc_datetime requested)) _
            λ checked _. Effect-transaction Still Still-refl _ (
              replace_reset_token-Still id text (utc_datetime expires)
                (utc_datetime requested))).holds
      db

create_user_with_session-Moving :
    (payload : NewUser) (hash family : String) (expires : Datetime) (db : AccountDb)
    → Moving
        (some (strip family))
        db.tables
        (AuthStore.create_user_with_session payload hash family expires db).1.tables
unfolding AuthStore.create_user_with_session
create_user_with_session-Moving payload hash family expires =
    in_transaction (some (strip family)) _ (
      Moving-behind (some (strip family)) (Users.create_user payload) _ (create_user-Still payload)
        λ user.
          Moving-before (some (strip family)) _ _ (create_session-Moving _)
            λ session. Effect-pure Still Still-refl _)

-- A call of AuthStore, whether it returns or raises, leaves the sessions, appends one usable
-- session with a new digest, in the family that the call opens, revokes some sessions, or replaces
-- one usable session by a new one of its user and family.
pub perform-Move :
    (c : Call) (db : AccountDb)
    → Move (opened_family c) db.tables.sessions (perform c db).tables.sessions
unfolding perform AuthStore.create_email_verification_token
    AuthStore.mark_email_verification_token_used
    AuthStore.revoke_pending_email_verification_tokens_for_user
    AuthStore.create_password_reset_token AuthStore.reset_password_with_token
    AuthStore.delete_expired_password_reset_tokens AuthStore.create_password_user
    AuthStore.mark_user_email_verified AuthStore.create_session AuthStore.rotate_session
    AuthStore.rotate_session_by_token_hash AuthStore.revoke_session AuthStore.revoke_user_sessions
    AuthStore.revoke_session_family AuthStore.update_password_hash
perform-Move (Calls.create_email_verification_token i email hash expires) db =
    stays_behind none (positive_identifier i "user_id") _
      (λ id. fmap-Still _ _ (create_email_token-Still id email hash (utc_datetime expires))) db
perform-Move (Calls.mark_email_verification_token_used i) db =
    stays_behind none (positive_identifier i "token_id") _
      (λ id. fmap-Still _ _ (mark_token_used-Still id)) db
perform-Move (Calls.revoke_pending_email_verification_tokens i) db =
    stays_behind none (positive_identifier i "user_id") _ revoke_email_tokens-Still db
perform-Move (Calls.create_password_reset_token i hash expires requested) db =
    stays (create_reset-same i hash expires requested db)
perform-Move (Calls.reset_password_with_token hash password at) db =
    (Effect-check (Moving none) (Moving-refl none) (required_sensitive_text hash "token_hash") _
        λ text _.
          Effect-transaction (Moving none) (Moving-refl none) _
            (reset_password-Moving none text password (utc_datetime at))).holds
      db
perform-Move (Calls.delete_expired_password_reset_tokens before) db =
    stays_in none _ db (delete_expired_tokens-Still (utc_datetime before))
perform-Move (Calls.create_password_user email password name) db = stays_in none _ db (
    fmap-Still user_record _ (create_user-Still (password_payload email password (some name) none)))
perform-Move (Calls.mark_user_email_verified i) db =
    stays_behind none (positive_identifier i "user_id") _
      (λ id. fmap-Still _ _ (mark_email_verified-Still id)) db
perform-Move (Calls.create_user_with_session payload hash family expires) db =
    create_user_with_session-Moving payload hash family expires db
perform-Move (Calls.create_session payload) db =
    in_transaction (some (strip payload.family_id)) _
      (fmap-Moving _ _ _ (create_session-Moving payload)) db
perform-Move (Calls.rotate_session i hash expires) db =
    in_transaction none _ (fmap-Moving none _ _ (rotate_session-Moving none i hash expires)) db
perform-Move (Calls.rotate_session_by_token_hash hash replacement expires checked) db =
    in_transaction none _
      (Moving-behind none _ _ (get_session_by_token_hash-Still hash)
        λ found. rotate_found-Moving none found replacement expires (utc_datetime checked))
      db
perform-Move (Calls.revoke_session i) db =
    in_transaction none _ (fmap-Moving none _ _ (revoke_session-Moving none i)) db
perform-Move (Calls.revoke_user_sessions i) db =
    in_transaction none _ (revoke_user_sessions-Moving none i) db
perform-Move (Calls.revoke_session_family family) db =
    in_transaction none _ (revoke_family-Moving none family) db
perform-Move (Calls.update_password_hash i password) db =
    stays_in none _ db (fmap-Still _ _ (update_password_hash-Still i password))
