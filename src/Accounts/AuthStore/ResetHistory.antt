-- ===== src/Accounts/AuthStore/ResetHistory.antt =====
-- The used tokens of a digest stay used along every history that creates no token with it.
use kyrgstudio.Base.{ℕ, String, ◌≢◌, none, some, List, [], ◌∷◌, arith}
use kyrgstudio.Base.Text.{strip}
use kyrgstudio.Database.{Exec}
use kyrgstudio.Database.Effects.{Effect, Effect-pure, Effect-check, Effect-transaction}
use kyrgstudio.Accounts.{AccountDb}
use kyrgstudio.Accounts.Checks.{
  Datetime, positive_identifier, required_sensitive_text, utc_datetime,
}
use kyrgstudio.Accounts.Records.{user_record}
use kyrgstudio.Accounts.Users.{NewUser}
use kyrgstudio.Accounts.AuthStore
use kyrgstudio.Accounts.AuthStore.{
  fmap, replace_reset_token, check_expiry, password_payload, rotate_found, rotate_for,
  reset_password,
}
use kyrgstudio.Accounts.AuthStore.Calls.{Call, perform}
use kyrgstudio.Accounts.AuthStore.Calls
use kyrgstudio.Accounts.AuthStore.Calls.{Event, call, weather, react, history}
use kyrgstudio.Accounts.AuthStore.ResetMoves.{
  Same, create_user-Same, create_session-Same, rotate_session-Same, revoke_session-Same,
  revoke_family-Same, revoke_user_sessions-Same, Same-refl, Same-bind, fmap-Same, committed,
  checked, update_password_hash-Same, mark_email_verified-Same, lookup-Same, rotate_found-Same,
  create_email_token-Same, mark_token_used-Same, revoke_email_tokens-Same,
}
use kyrgstudio.Accounts.AuthStore.ResetKeeps.{
  Closed, Keeping, Keeping-same, OtherToken, Keeping-refl, Keeping-bind, revoke_pending-Keeping,
  create_token-Keeping, delete_expired-Keeping, reset_password-Keeping,
}

replace-Keeping :
    (h : String) (i : ℕ) (hash : String) (expires requested : ℕ)
    → hash ≢ h
    → Effect (Keeping h) (replace_reset_token i hash expires requested)
unfolding replace_reset_token
replace-Keeping h i hash expires requested other =
    Keeping-bind h _ _ (revoke_pending-Keeping h i requested) λ n.
      Keeping-bind h _ _ (create_token-Keeping h i hash expires other)
        λ t. Effect-pure (Keeping h) (Keeping-refl h) _

same_call :
    {A : Type 0} (h : String) (m : Exec AccountDb A) (db : AccountDb)
    → Effect Same m
    → Keeping h db.tables (m db).1.tables
same_call h m db s = (Keeping-same h m s).holds db

create-Keeping :
    (h : String) (i : ℕ) (hash : String) (expires requested : Datetime)
    → strip hash ≢ h
    → Effect (Keeping h) (AuthStore.create_password_reset_token i hash expires requested)
unfolding AuthStore.create_password_reset_token required_sensitive_text
create-Keeping h i hash expires requested other =
    Effect-check (Keeping h) (Keeping-refl h) (positive_identifier i "user_id") _ λ id _.
      Effect-check (Keeping h) (Keeping-refl h) (required_sensitive_text hash "token_hash") _
        λ text eq.
          Effect-check (Keeping h) (Keeping-refl h)
            (check_expiry (utc_datetime expires) (utc_datetime requested)) _
            λ checked _. Effect-transaction (Keeping h) (Keeping-refl h) _ (
              replace-Keeping h id text (utc_datetime expires) (utc_datetime requested)
                (λ same. other (ground arith)))

create_user_with_session-Same :
    (payload : NewUser) (hash family : String) (expires : Datetime)
    → Effect Same (AuthStore.create_user_with_session payload hash family expires)
unfolding AuthStore.create_user_with_session
create_user_with_session-Same payload hash family expires = committed _ (
    Same-bind _ _ (create_user-Same payload)
      λ user. Same-bind _ _ (create_session-Same _) λ session. Effect-pure Same Same-refl _)

perform-Keeping :
    (h : String) (c : Call) (db : AccountDb)
    → OtherToken h c
    → Keeping h db.tables (perform c db).tables
unfolding perform AuthStore.create_email_verification_token
    AuthStore.mark_email_verification_token_used
    AuthStore.revoke_pending_email_verification_tokens_for_user AuthStore.reset_password_with_token
    AuthStore.delete_expired_password_reset_tokens AuthStore.create_password_user
    AuthStore.mark_user_email_verified AuthStore.create_session AuthStore.rotate_session
    AuthStore.rotate_session_by_token_hash AuthStore.revoke_session AuthStore.revoke_user_sessions
    AuthStore.revoke_session_family AuthStore.update_password_hash
perform-Keeping h (Calls.create_email_verification_token i email hash expires) db other =
    same_call h _ db (
      checked (positive_identifier i "user_id") _
        λ id. fmap-Same _ _ (create_email_token-Same id email hash (utc_datetime expires)))
perform-Keeping h (Calls.mark_email_verification_token_used i) db other =
    same_call h _ db
      (checked (positive_identifier i "token_id") _ λ id. fmap-Same _ _ (mark_token_used-Same id))
perform-Keeping h (Calls.revoke_pending_email_verification_tokens i) db other =
    same_call h _ db (checked (positive_identifier i "user_id") _ revoke_email_tokens-Same)
perform-Keeping h (Calls.create_password_reset_token i hash expires requested) db other =
    (create-Keeping h i hash expires requested other).holds db
perform-Keeping h (Calls.reset_password_with_token hash password at) db other =
    (Effect-check (Keeping h) (Keeping-refl h) (required_sensitive_text hash "token_hash") _
        λ text _.
          Effect-transaction (Keeping h) (Keeping-refl h) _
            (reset_password-Keeping h text password (utc_datetime at))).holds
      db
perform-Keeping h (Calls.delete_expired_password_reset_tokens before) db other =
    (Effect-transaction (Keeping h) (Keeping-refl h) _
        (delete_expired-Keeping h (utc_datetime before))).holds
      db
perform-Keeping h (Calls.create_password_user email password name) db other = same_call h _ db (
    committed _ (
      fmap-Same user_record _
        (create_user-Same (password_payload email password (some name) none))))
perform-Keeping h (Calls.mark_user_email_verified i) db other =
    same_call h _ db (
      checked (positive_identifier i "user_id") _ λ id. fmap-Same _ _ (mark_email_verified-Same id))
perform-Keeping h (Calls.create_user_with_session payload hash family expires) db other =
    same_call h _ db (create_user_with_session-Same payload hash family expires)
perform-Keeping h (Calls.create_session payload) db other =
    same_call h _ db (committed _ (fmap-Same _ _ (create_session-Same payload)))
perform-Keeping h (Calls.rotate_session i hash expires) db other =
    same_call h _ db (committed _ (fmap-Same _ _ (rotate_session-Same i hash expires)))
perform-Keeping h (Calls.rotate_session_by_token_hash hash replacement expires at) db other =
    same_call h _ db (
      committed _ (
        Same-bind _ _ (lookup-Same hash)
          λ found. rotate_found-Same found replacement expires (utc_datetime at)))
perform-Keeping h (Calls.revoke_session i) db other =
    same_call h _ db (committed _ (fmap-Same _ _ (revoke_session-Same i)))
perform-Keeping h (Calls.revoke_user_sessions i) db other =
    same_call h _ db (committed _ (revoke_user_sessions-Same i))
perform-Keeping h (Calls.revoke_session_family family) db other =
    same_call h _ db (committed _ (revoke_family-Same family))
perform-Keeping h (Calls.update_password_hash i password) db other =
    same_call h _ db (committed _ (fmap-Same _ _ (update_password_hash-Same i password)))

-- The calls of a history create no reset token with the digest.
abbrev pub OtherTokens : String → List Event → Type 0
OtherTokens h [] = Unit
OtherTokens h (call c ∷ es) = OtherToken h c × OtherTokens h es
OtherTokens h (weather now outages ∷ es) = OtherTokens h es

pub history-Closed :
    (h : String) (es : List Event) (db : AccountDb)
    → OtherTokens h es
    → Closed h db.tables.reset_tokens
    → Closed h (history es db).tables.reset_tokens
unfolding history react
history-Closed h [] db other k = k
history-Closed h (call c ∷ es) db (first, rest) k =
    history-Closed h es (perform c db) rest (perform-Keeping h c db first k)
history-Closed h (weather now outages ∷ es) db other k =
    history-Closed h es (record db { now = now; outages = outages }) other k
