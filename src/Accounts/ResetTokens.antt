-- ===== src/Accounts/ResetTokens.antt =====
-- src/app/store/password_resets.py: `SQLAlchemyPasswordResetStore`, one action for each method.
use kyrgstudio.Base.{
  ℕ, ◌+◌, String, Option, none, some, [], ◌∷◌, ◌++◌, Bool, true, false, ◌&&◌, not, str_eq, ◌==◌,
  ltb, leb,
}
use kyrgstudio.Base.Json
use kyrgstudio.Base.Json.{field, end}
use kyrgstudio.Base.Lists.{length, find, any, select, update_where}
use kyrgstudio.Errors.{ErrorClass, Error, new_error}
use kyrgstudio.Database.{
  Exec, raise, pure, ◌>>=◌, Outcome, done, integrity, sql, sql_query, savepoint,
}
use kyrgstudio.Accounts.{PasswordResetToken, AccountTables, AccountDb, user_has_id, is_none}

-- `_password_reset_store_error`
unfoldable pub password_reset_store_error : String → String → String → Error
unfolding new_error
password_reset_store_error operation message name =
    new_error ErrorClass.store message none
      (field "operation" (Json.text operation) (field "error_type" (Json.text name) end))

abbrev pub reset_has_hash : String → PasswordResetToken → Bool
reset_has_hash token_hash token = str_eq token.token_hash token_hash

-- The row of `PasswordResetToken(…)` with the defaults of its columns.
abbrev pub reset_row : ℕ → String → ℕ → ℕ → ℕ → PasswordResetToken
reset_row user_id token_hash expires_at id now = record {
  id = id;
  user_id = user_id;
  token_hash = token_hash;
  expires_at = expires_at;
  used_at = none;
  created_at = now;
}

abbrev insert_reset_if :
    Bool → PasswordResetToken → AccountTables → Outcome PasswordResetToken × AccountTables
insert_reset_if false token t = (integrity "IntegrityError", t)
insert_reset_if true token t = (
  done token,
  record t {
    reset_tokens = t.reset_tokens ++ token ∷ [];
    next_reset_token = t.next_reset_token + 1;
  },
)

-- `INSERT` of a token: the foreign key to `users` and the unique digest are checked.
unfoldable pub insert_reset :
    (ℕ → ℕ → PasswordResetToken) → ℕ → AccountTables → Outcome PasswordResetToken × AccountTables
unfolding any
insert_reset row now t =
    let token = row t.next_reset_token now in
    insert_reset_if
      (any (user_has_id token.user_id) t.users
        && not (any (reset_has_hash token.token_hash) t.reset_tokens))
      token t

-- `create_token`
unfoldable pub create_token : ℕ → String → ℕ → Exec AccountDb PasswordResetToken
unfolding password_reset_store_error insert_reset savepoint sql
create_token user_id token_hash expires_at = savepoint (
    sql
      (password_reset_store_error "create_password_reset_token"
        "Password-reset token violates a database constraint.")
      (password_reset_store_error "create_password_reset_token"
        "Failed to create password-reset token.")
      (insert_reset (reset_row user_id token_hash expires_at)))

-- `get_token_by_hash`
unfoldable pub get_token_by_hash : String → Exec AccountDb (Option PasswordResetToken)
unfolding password_reset_store_error find sql_query
get_token_by_hash token_hash =
    sql_query
      (password_reset_store_error "get_password_reset_token_by_hash"
        "Failed to load password-reset token.")
      (λ t. find (reset_has_hash token_hash) t.reset_tokens)

-- The conditions of the update in `consume_token`.
abbrev pub consumable : String → ℕ → PasswordResetToken → Bool
consumable token_hash consumed_at token =
    reset_has_hash token_hash token && is_none token.used_at && ltb consumed_at token.expires_at

abbrev pub set_used : ℕ → PasswordResetToken → PasswordResetToken
set_used at token = record token { used_at = some at }

abbrev used_copy : ℕ → Option PasswordResetToken → Option PasswordResetToken
used_copy at none = none
used_copy at (some token) = some (set_used at token)

-- `UPDATE password_reset_tokens SET used_at = … WHERE … RETURNING *`
unfoldable pub consume_row :
    String → ℕ → ℕ → AccountTables → Outcome (Option PasswordResetToken) × AccountTables
unfolding find update_where
consume_row token_hash consumed_at now t = (
  done (used_copy consumed_at (find (consumable token_hash consumed_at) t.reset_tokens)),
  record t {
    reset_tokens =
        update_where (consumable token_hash consumed_at) (set_used consumed_at) t.reset_tokens;
  },
)

abbrev pub unavailable : Error
unavailable =
    new_error ErrorClass.store "Password-reset token is missing, expired, or already used." none (
      field "operation" (Json.text "consume_password_reset_token")
        (field "reason" (Json.text "unavailable") end))

abbrev pub consumed : Option PasswordResetToken → Exec AccountDb PasswordResetToken
consumed none = raise unavailable
consumed (some token) = pure token

-- `consume_token`
unfoldable pub consume_token : String → ℕ → Exec AccountDb PasswordResetToken
unfolding password_reset_store_error consume_row sql new_error
consume_token token_hash consumed_at = do
  let failure =
      password_reset_store_error "consume_password_reset_token"
        "Failed to consume password-reset token."
  token ← sql failure failure (consume_row token_hash consumed_at)
  consumed token

-- The conditions of the update in `revoke_pending_tokens_for_user`.
abbrev pub pending_of : ℕ → PasswordResetToken → Bool
pending_of user_id token = token.user_id == user_id && is_none token.used_at

-- `UPDATE password_reset_tokens SET used_at = … WHERE user_id = … AND used_at IS NULL`
unfoldable pub revoke_pending_rows : ℕ → ℕ → ℕ → AccountTables → Outcome ℕ × AccountTables
unfolding select update_where
revoke_pending_rows user_id revoked_at now t = (
  done (length (select (pending_of user_id) t.reset_tokens)),
  record t {
    reset_tokens = update_where (pending_of user_id) (set_used revoked_at) t.reset_tokens;
  },
)

-- `revoke_pending_tokens_for_user`
unfoldable pub revoke_pending_tokens_for_user : ℕ → ℕ → Exec AccountDb ℕ
unfolding password_reset_store_error revoke_pending_rows sql
revoke_pending_tokens_for_user user_id revoked_at =
    let failure =
      password_reset_store_error "revoke_pending_password_reset_tokens"
        "Failed to revoke pending password-reset tokens." in
    sql failure failure (revoke_pending_rows user_id revoked_at)

-- `DELETE FROM password_reset_tokens WHERE expires_at <= …`
unfoldable pub delete_expired_rows : ℕ → ℕ → AccountTables → Outcome ℕ × AccountTables
unfolding select
delete_expired_rows before now t = (
  done (length (select (λ token. leb token.expires_at before) t.reset_tokens)),
  record t { reset_tokens = select (λ token. not (leb token.expires_at before)) t.reset_tokens },
)

-- `delete_expired_tokens`
unfoldable pub delete_expired_tokens : ℕ → Exec AccountDb ℕ
unfolding password_reset_store_error delete_expired_rows sql
delete_expired_tokens before =
    let failure =
      password_reset_store_error "delete_expired_password_reset_tokens"
        "Failed to delete expired password-reset tokens." in
    sql failure failure (delete_expired_rows before)
