-- ===== src/Accounts/AuthStore/Stays.antt =====
-- The methods of the user store and of the token stores leave the sessions as they are.
use kyrgstudio.Base.{ℕ, String, some, arith}
use kyrgstudio.Database.{savepoint, sql, sql_query, statement}
use kyrgstudio.Database.Effects.{Effect, Effect-check, Effect-sql_query}
use kyrgstudio.Accounts.{User}
use kyrgstudio.Accounts.Checks.{required_value}
use kyrgstudio.Accounts.Users
use kyrgstudio.Accounts.Users.{NewUser}
use kyrgstudio.Accounts.Sessions.Moves.{Still, Still-refl}
use kyrgstudio.Accounts.ResetTokens
use kyrgstudio.Accounts.EmailTokens
use kyrgstudio.Accounts.AuthStore.{replace_reset_token}

-- The calls of the other stores leave the sessions.
pub create_user-Still : (payload : NewUser) → Effect Still (Users.create_user payload)
unfolding Users.create_user Users.insert_user savepoint sql statement
create_user-Still payload = record { holds = λ db. ground arith }

pub get_user-Still : (i : ℕ) → Effect Still (Users.get_user i)
unfolding Users.get_user
get_user-Still i = Effect-sql_query Still Still-refl _ _

pub update_user-Still :
    (operation : String) (i : ℕ) (values : ℕ → User → User)
    → Effect Still (Users.update_user operation i values)
unfolding Users.update_user Users.update_row Users.get_user sql_query sql statement
update_user-Still operation i values = record { holds = λ db. ground arith }

pub update_password_hash-Still :
    (i : ℕ) (password : String) → Effect Still (Users.update_password_hash i password)
unfolding Users.update_password_hash
update_password_hash-Still i password =
    Effect-check Still Still-refl
      (required_value (some password) "password_hash" "update_password_hash") _
      λ hash _. update_user-Still _ _ (λ now user. record user { password_hash = some hash })

pub mark_email_verified-Still : (i : ℕ) → Effect Still (Users.mark_email_verified i)
unfolding Users.mark_email_verified
mark_email_verified-Still i =
    update_user-Still _ _ (λ now user. record user { email_verified_at = some now })

pub consume_token-Still :
    (hash : String) (at : ℕ) → Effect Still (ResetTokens.consume_token hash at)
unfolding ResetTokens.consume_token ResetTokens.consume_row sql statement
consume_token-Still hash at = record { holds = λ db. ground arith }

pub replace_reset_token-Still :
    (i : ℕ) (hash : String) (expires requested : ℕ)
    → Effect Still (replace_reset_token i hash expires requested)
unfolding replace_reset_token ResetTokens.revoke_pending_tokens_for_user
    ResetTokens.revoke_pending_rows ResetTokens.create_token ResetTokens.insert_reset savepoint sql
    statement
replace_reset_token-Still i hash expires requested = record { holds = λ db. ground arith }

pub delete_expired_tokens-Still :
    (before : ℕ) → Effect Still (ResetTokens.delete_expired_tokens before)
unfolding ResetTokens.delete_expired_tokens ResetTokens.delete_expired_rows sql statement
delete_expired_tokens-Still before = record { holds = λ db. ground arith }

pub create_email_token-Still :
    (i : ℕ) (email hash : String) (expires : ℕ)
    → Effect Still (EmailTokens.create_token i email hash expires)
unfolding EmailTokens.create_token EmailTokens.insert_email_token sql statement
create_email_token-Still i email hash expires = record { holds = λ db. ground arith }

pub mark_token_used-Still : (i : ℕ) → Effect Still (EmailTokens.mark_token_used i)
unfolding EmailTokens.mark_token_used EmailTokens.mark_row sql statement
mark_token_used-Still i = record { holds = λ db. ground arith }

pub revoke_email_tokens-Still :
    (i : ℕ) → Effect Still (EmailTokens.revoke_pending_tokens_for_user i)
unfolding EmailTokens.revoke_pending_tokens_for_user EmailTokens.revoke_pending_rows sql statement
revoke_email_tokens-Still i = record { holds = λ db. ground arith }
