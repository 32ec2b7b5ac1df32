-- ===== src/Accounts/AuthStore/ResetMoves.antt =====
-- What the calls of `AuthStore` do to the password-reset tokens.
use kyrgstudio.Base.{
  ℕ, String, ◌≡◌, refl, ◌∙◌, Option, none, some, leb, arith, inl, inr, Bool-cases,
}
use kyrgstudio.Database.{
  Result, Exec, pure, lift, ◌>>=◌, transaction, savepoint, sql, sql_query, statement,
}
use kyrgstudio.Database.Effects.{
  Effect, Effect-bind, Effect-pure, Effect-check, Effect-sql_query, Effect-transaction,
}
use kyrgstudio.Accounts.{User, AuthSession, AccountTables, AccountDb}
use kyrgstudio.Accounts.Checks.{Datetime, required_value, required_auth_session_text}
use kyrgstudio.Accounts.Users
use kyrgstudio.Accounts.Users.{NewUser}
use kyrgstudio.Accounts.Sessions
use kyrgstudio.Accounts.Sessions.{NewSession, is_usable}
use kyrgstudio.Accounts.EmailTokens
use kyrgstudio.Accounts.AuthStore.{fmap, rotate_found, rotate_for}

-- The reset tokens stay.
abbrev pub Same : AccountTables → AccountTables → Type 0
Same t u = u.reset_tokens ≡ t.reset_tokens

pub update_user-Same :
    (operation : String) (i : ℕ) (values : ℕ → User → User)
    → Effect Same (Users.update_user operation i values)
unfolding Users.update_user Users.update_row Users.get_user sql_query sql statement
update_user-Same operation i values = record { holds = λ db. ground arith }

pub create_user-Same : (payload : NewUser) → Effect Same (Users.create_user payload)
unfolding Users.create_user Users.insert_user savepoint sql statement
create_user-Same payload = record { holds = λ db. ground arith }

pub create_session-Same : (payload : NewSession) → Effect Same (Sessions.create_session payload)
unfolding Sessions.create_session Sessions.insert_session savepoint sql statement
create_session-Same payload = record { holds = λ db. ground arith }

pub rotate_session-Same :
    (i : ℕ) (hash : String) (expires : Datetime)
    → Effect Same (Sessions.rotate_session i hash expires)
unfolding Sessions.rotate_session Sessions.rotate_block Sessions.get_session_for_update
    Sessions.insert_session Sessions.update_session Sessions.refresh_row savepoint sql_query sql
    statement
rotate_session-Same i hash expires = record { holds = λ db. ground arith }

pub revoke_session-Same : (i : ℕ) → Effect Same (Sessions.revoke_session i)
unfolding Sessions.revoke_session Sessions.update_session Sessions.get_session Sessions.refresh_row
    sql_query sql statement
revoke_session-Same i = record { holds = λ db. ground arith }

pub revoke_family-Same : (family : String) → Effect Same (Sessions.revoke_family family)
unfolding Sessions.revoke_family Sessions.revoke_matching_sessions Sessions.revoke_rows sql
    statement
revoke_family-Same family = record { holds = λ db. ground arith }

pub revoke_user_sessions-Same : (i : ℕ) → Effect Same (Sessions.revoke_user_sessions i)
unfolding Sessions.revoke_user_sessions Sessions.revoke_matching_sessions Sessions.revoke_rows sql
    statement
revoke_user_sessions-Same i = record { holds = λ db. ground arith }

pub Same-refl : (t : AccountTables) → Same t t
Same-refl t = refl

pub Same-bind :
    {A B : Type 0} (m : Exec AccountDb A) (f : A → Exec AccountDb B)
    → Effect Same m
    → ((a : A) → Effect Same (f a))
    → Effect Same (m >>= f)
Same-bind m f start go_on =
    Effect-bind Same Same Same m f (λ a b h. h) (λ a b c h k. k ∙ h) start go_on

pub fmap-Same :
    {A B : Type 0} (f : A → B) (m : Exec AccountDb A) → Effect Same m → Effect Same (fmap f m)
fmap-Same f m h = Same-bind m (λ a. pure (f a)) h (λ a. Effect-pure Same Same-refl (f a))

pub committed : {A : Type 0} (m : Exec AccountDb A) → Effect Same m → Effect Same (transaction m)
committed m h = Effect-transaction Same Same-refl m h

pub checked :
    {A B : Type 0} (r : Result A) (m : A → Exec AccountDb B)
    → ((a : A) → Effect Same (m a))
    → Effect Same (lift r >>= λ a. transaction (m a))
checked r m h =
    Effect-check Same Same-refl r (λ a. transaction (m a)) (λ a eq. committed (m a) (h a))

pub update_password_hash-Same :
    (i : ℕ) (password : String) → Effect Same (Users.update_password_hash i password)
unfolding Users.update_password_hash
update_password_hash-Same i password =
    Effect-check Same Same-refl
      (required_value (some password) "password_hash" "update_password_hash") _
      λ hash _. update_user-Same _ _ (λ now user. record user { password_hash = some hash })

pub mark_email_verified-Same : (i : ℕ) → Effect Same (Users.mark_email_verified i)
unfolding Users.mark_email_verified
mark_email_verified-Same i =
    update_user-Same _ _ (λ now user. record user { email_verified_at = some now })

pub lookup-Same : (h : String) → Effect Same (Sessions.get_session_by_token_hash h)
unfolding Sessions.get_session_by_token_hash
lookup-Same h =
    Effect-check Same Same-refl
      (required_auth_session_text h "token_hash" "get_auth_session_by_token_hash" 128) _
      λ a eq. Effect-sql_query Same Same-refl _ _

pub get_user-Same : (i : ℕ) → Effect Same (Users.get_user i)
unfolding Users.get_user
get_user-Same i = Effect-sql_query Same Same-refl _ _

pub rotate_for-Same :
    (current : AuthSession) (user : Option User) (hash : String) (expires : Datetime)
    → Effect Same (rotate_for current user hash expires)
unfolding rotate_for
rotate_for-Same current none hash expires = fmap-Same _ _ (revoke_session-Same current.id)
rotate_for-Same current (some user) hash expires =
    fmap-Same _ _ (rotate_session-Same current.id hash expires)

pub rotate_found-Same :
    (found : Option AuthSession) (hash : String) (expires : Datetime) (now : ℕ)
    → Effect Same (rotate_found found hash expires now)
unfolding rotate_found
rotate_found-Same none hash expires now = Effect-pure Same Same-refl _
rotate_found-Same (some current) hash expires now = elim (Bool-cases (is_usable current)) [
  | inr spent ↦ rw spent (fmap-Same _ _ (revoke_family-Same current.family_id))
  | inl usable ↦ elim (Bool-cases (leb current.expires_at now)) [
    | inl late ↦ rw (usable, late) (fmap-Same _ _ (revoke_session-Same current.id))
    | inr early ↦
        rw (usable, early)
          (Same-bind _ _ (get_user-Same current.user_id)
            λ user. rotate_for-Same current user hash expires)
  ]
]

pub create_email_token-Same :
    (i : ℕ) (email hash : String) (expires : ℕ)
    → Effect Same (EmailTokens.create_token i email hash expires)
unfolding EmailTokens.create_token EmailTokens.insert_email_token sql statement
create_email_token-Same i email hash expires = record { holds = λ db. ground arith }

pub mark_token_used-Same : (i : ℕ) → Effect Same (EmailTokens.mark_token_used i)
unfolding EmailTokens.mark_token_used EmailTokens.mark_row sql statement
mark_token_used-Same i = record { holds = λ db. ground arith }

pub revoke_email_tokens-Same : (i : ℕ) → Effect Same (EmailTokens.revoke_pending_tokens_for_user i)
unfolding EmailTokens.revoke_pending_tokens_for_user EmailTokens.revoke_pending_rows sql statement
revoke_email_tokens-Same i = record { holds = λ db. ground arith }
