-- ===== src/Accounts/EmailTokens.antt =====
-- src/app/store/email_verifications.py: `SQLAlchemyEmailVerificationStore`, one action for each
-- method.
use kyrgstudio.Base.{
  ℕ, ◌+◌, String, Option, none, some, [], ◌∷◌, ◌++◌, Bool, true, false, ◌&&◌, not, str_eq, ◌==◌,
  if◌then◌else◌,
}
use kyrgstudio.Base.Json
use kyrgstudio.Base.Json.{field, end}
use kyrgstudio.Base.Lists.{length, find, any, select, update_where}
use kyrgstudio.Base.Text.{strip, lower, has_char}
use kyrgstudio.Errors.{ErrorClass, Error, new_error, foreign}
use kyrgstudio.Database.{
  Result, ok, err, lift, Exec, raise, pure, ◌>>=◌, Outcome, done, integrity, sql, sql_query,
}
use kyrgstudio.Accounts.{EmailVerificationToken, AccountTables, AccountDb, user_has_id, is_none}

-- The `StoreError` of a method, which does not name the exception behind it.
unfoldable pub email_token_error : String → String → Error
unfolding new_error
email_token_error operation message =
    new_error ErrorClass.store message none (field "operation" (Json.text operation) end)

abbrev pub email_token_has_hash : String → EmailVerificationToken → Bool
email_token_has_hash token_hash token = str_eq token.token_hash token_hash

-- The row of `EmailVerificationToken(…)` with the defaults of its columns.
abbrev pub email_token_row : ℕ → String → String → ℕ → ℕ → ℕ → EmailVerificationToken
email_token_row user_id email token_hash expires_at id now = record {
  id = id;
  user_id = user_id;
  token_hash = token_hash;
  email = email;
  expires_at = expires_at;
  used_at = none;
  created_at = now;
}

abbrev insert_email_token_if :
    Bool → EmailVerificationToken → AccountTables → Outcome EmailVerificationToken × AccountTables
insert_email_token_if false token t = (integrity "IntegrityError", t)
insert_email_token_if true token t = (
  done token,
  record t {
    email_tokens = t.email_tokens ++ token ∷ [];
    next_email_token = t.next_email_token + 1;
  },
)

-- `INSERT` of a token: the foreign key to `users` and the unique digest are checked.
unfoldable pub insert_email_token :
    (ℕ → ℕ → EmailVerificationToken)
    → ℕ
    → AccountTables
    → Outcome EmailVerificationToken × AccountTables
unfolding any
insert_email_token row now t =
    let token = row t.next_email_token now in
    insert_email_token_if
      (any (user_has_id token.user_id) t.users
        && not (any (email_token_has_hash token.token_hash) t.email_tokens))
      token t

-- `EmailVerificationToken.validate_email` of src/app/store/models.py, which the model's constructor
-- runs before the `try` statement.
unfoldable pub validate_email : String → Result String
unfolding has_char lower strip
validate_email value =
    if has_char 64 value then ok (lower (strip value)) else err (foreign "ValueError")

-- `create_token`
unfoldable pub create_token : ℕ → String → String → ℕ → Exec AccountDb EmailVerificationToken
unfolding email_token_error insert_email_token sql lower strip validate_email
create_token user_id email token_hash expires_at = do
  let failure = λ (name : String).
      email_token_error "create_email_verification_token" "Email verification token insert failed."
  address ← lift (validate_email (lower (strip email)))
  sql failure failure (insert_email_token (email_token_row user_id address token_hash expires_at))

-- `get_token_by_hash`
unfoldable pub get_token_by_hash : String → Exec AccountDb (Option EmailVerificationToken)
unfolding email_token_error find sql_query
get_token_by_hash token_hash =
    sql_query
      (λ name.
        email_token_error "get_email_verification_token_by_hash"
          "Email verification token lookup failed.")
      (λ t. find (email_token_has_hash token_hash) t.email_tokens)

-- The conditions of the update in `mark_token_used`.
abbrev pub unused_id : ℕ → EmailVerificationToken → Bool
unused_id token_id token = token.id == token_id && is_none token.used_at

abbrev pub set_used : ℕ → EmailVerificationToken → EmailVerificationToken
set_used at token = record token { used_at = some at }

abbrev used_copy : ℕ → Option EmailVerificationToken → Option EmailVerificationToken
used_copy at none = none
used_copy at (some token) = some (set_used at token)

-- `UPDATE email_verification_tokens SET used_at = now() WHERE … RETURNING *`
unfoldable pub mark_row :
    ℕ → ℕ → AccountTables → Outcome (Option EmailVerificationToken) × AccountTables
unfolding find update_where
mark_row token_id now t = (
  done (used_copy now (find (unused_id token_id) t.email_tokens)),
  record t { email_tokens = update_where (unused_id token_id) (set_used now) t.email_tokens },
)

abbrev marked : Option EmailVerificationToken → Exec AccountDb EmailVerificationToken
marked none = raise (
    email_token_error "mark_email_verification_token_used"
      "Email verification token was missing or already used.")
marked (some token) = pure token

-- `mark_token_used`
unfoldable pub mark_token_used : ℕ → Exec AccountDb EmailVerificationToken
unfolding email_token_error mark_row sql
mark_token_used token_id = do
  let failure = λ (name : String).
      email_token_error "mark_email_verification_token_used"
        "Email verification token update failed."
  token ← sql failure failure (mark_row token_id)
  marked token

-- The conditions of the update in `revoke_pending_tokens_for_user`.
abbrev pub email_pending_of : ℕ → EmailVerificationToken → Bool
email_pending_of user_id token = token.user_id == user_id && is_none token.used_at

-- `UPDATE email_verification_tokens SET used_at = now() WHERE user_id = … AND used_at IS NULL`
unfoldable pub revoke_pending_rows : ℕ → ℕ → AccountTables → Outcome ℕ × AccountTables
unfolding select update_where
revoke_pending_rows user_id now t = (
  done (length (select (email_pending_of user_id) t.email_tokens)),
  record t { email_tokens = update_where (email_pending_of user_id) (set_used now) t.email_tokens },
)

-- `revoke_pending_tokens_for_user`
unfoldable pub revoke_pending_tokens_for_user : ℕ → Exec AccountDb ℕ
unfolding email_token_error revoke_pending_rows sql
revoke_pending_tokens_for_user user_id =
    let failure = λ (name : String).
      email_token_error "revoke_pending_email_verification_tokens"
        "Email verification token bulk update failed." in
    sql failure failure (revoke_pending_rows user_id)
