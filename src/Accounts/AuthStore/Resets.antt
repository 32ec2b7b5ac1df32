-- ===== src/Accounts/AuthStore/Resets.antt =====
-- `reset_password_with_token`: what it does, as a whole or not at all.
use kyrgstudio.Base.{
  suc, subst, str_eq, Bool-cases, Option-cases, inl, inr, ==_iff, ==_refl, ℕ, String, ◌≡◌, refl,
  sym, ◌∙◌, some, List, [], ◌∷◌, Bool, false, arith, ◌&&◌,
}
use kyrgstudio.Base.Lists.{length, find, update_where, select, find-holds, find-update_where}
use kyrgstudio.Base.Text.{strip}
use kyrgstudio.Errors.{Error}
use kyrgstudio.Database.{Result, ok, err, sql, sql_query, statement, query, transaction}
use kyrgstudio.Database.Laws.{transaction-err, transaction-ok}
use kyrgstudio.Accounts.{
  User, AuthSession, PasswordResetToken, AccountTables, AccountDb, is_none, user_has_id,
}
use kyrgstudio.Accounts.Checks.{
  Datetime, utc_datetime, required_sensitive_text, required_value, required_positive_identifier,
}
use kyrgstudio.Accounts.Users
use kyrgstudio.Accounts.Sessions
use kyrgstudio.Accounts.Sessions.{owned_by, set_revoked, revoke_rows, revoke_matching_sessions}
use kyrgstudio.Accounts.ResetTokens
use kyrgstudio.Accounts.ResetTokens.{consumable, set_used}
use kyrgstudio.Accounts.Records.{AuthUserRecord, user_record}
use kyrgstudio.Accounts.AuthStore
use kyrgstudio.Accounts.AuthStore.{reset_password}

abbrev with_password : String → ℕ → User → User
with_password password_hash now user = record user {
  password_hash = some password_hash;
  updated_at = now;
}

abbrev is_live_of : ℕ → AuthSession → Bool
is_live_of user_id session = owned_by user_id session && is_none session.revoked_at

-- The tables behind a reset of the password of a user by a token.
abbrev pub password_reset : String → String → ℕ → ℕ → ℕ → AccountTables → AccountTables
password_reset token_hash password_hash user_id consumed_at now t = record t {
  users = update_where (user_has_id user_id) (with_password password_hash now) t.users;
  sessions = update_where (is_live_of user_id) (set_revoked now) t.sessions;
  reset_tokens =
      update_where (consumable token_hash consumed_at) (set_used consumed_at) t.reset_tokens;
}

-- What a reset did that returned.
pub record Reset (token_hash password_hash : String) (consumed_at now : ℕ)
    (before after : AccountTables) (u : AuthUserRecord) : Type 0 where
  pub token : PasswordResetToken
  pub user : User
  pub found : find (consumable token_hash consumed_at) before.reset_tokens ≡ some token
  pub owner : find (user_has_id token.user_id) before.users ≡ some user
  pub tables : after ≡ password_reset token_hash password_hash token.user_id consumed_at now before
  pub user_is : u ≡ user_record (with_password password_hash now user)

reset_password-Reset :
    (token_hash password : String) (at : ℕ) (db : AccountDb) (u : AuthUserRecord)
    → (reset_password token_hash password at db).0 ≡ ok u
    → Reset token_hash
        (strip password)
        at
        db.now
        db.tables
        (reset_password token_hash password at db).1.tables
        u
unfolding reset_password ResetTokens.consume_token ResetTokens.consume_row
    Users.update_password_hash Users.update_user Users.update_row Users.get_user
    Sessions.revoke_user_sessions revoke_matching_sessions revoke_rows sql_query sql statement
    required_value required_positive_identifier
reset_password-Reset token_hash password at db u h =
    elim (Option-cases (find (consumable token_hash at) db.tables.reset_tokens)) [
      | inl missing ↦ ground arith
      | inr (token, found) ↦
          elim (Option-cases (find (user_has_id token.user_id) db.tables.users)) [
            | inl unknown ↦ ground arith
            | inr (user, owner) ↦
                let named : user.id ≡ token.user_id =
                  (==_iff user.id token.user_id).0
                    (find-holds (user_has_id token.user_id) db.tables.users user owner) in
                let again : find (user_has_id token.user_id) (
                      update_where (user_has_id token.user_id)
                        (with_password (strip password) db.now) db.tables.users)
                    ≡ some (with_password (strip password) db.now user) =
                  find-update_where (user_has_id token.user_id) (user_has_id token.user_id)
                    (with_password (strip password) db.now) db.tables.users (λ x. refl)
                  ∙ rw owner (rw named (rw (==_refl token.user_id) refl)) in
                record {
                  token = token;
                  user = user;
                  found = found;
                  owner = owner;
                  tables = ground arith;
                  user_is = ground arith;
                }
          ]
    ]

revoked_all :
    (i now : ℕ) (a : List AuthSession)
    → length (select (is_live_of i) (update_where (is_live_of i) (set_revoked now) a)) ≡ 0
unfolding select update_where
revoked_all i now [] = refl
revoked_all i now (s ∷ a) = ground (arith, revoked_all i now a)

-- What the call did: all of it, or nothing.
abbrev pub AllOrNothing :
    String → String → ℕ → AccountDb → Result AuthUserRecord × AccountDb → Type 0
AllOrNothing token_hash password_hash consumed_at db (err e, after) = after.tables ≡ db.tables
AllOrNothing token_hash password_hash consumed_at db (ok u, after) =
    (d : Reset token_hash password_hash consumed_at db.now db.tables after.tables u) × (length
        (select (is_live_of d.token.user_id) after.tables.sessions)
      ≡ 0)

committed :
    (token_hash password : String) (at : ℕ) (db : AccountDb)
    → AllOrNothing token_hash
        (strip password)
        at
        db
        (transaction (reset_password token_hash password at) db)
committed token_hash password at db =
    whole (transaction (reset_password token_hash password at) db)
      (transaction-err (reset_password token_hash password at) db)
      λ u h.
        let (returned, kept) = transaction-ok (reset_password token_hash password at) db u h in
        subst (λ t. Reset token_hash (strip password) at db.now db.tables t u) (sym kept)
          (reset_password-Reset token_hash password at db u returned)
  where
    whole :
        (r : Result AuthUserRecord × AccountDb)
        → ((e : Error) → r.0 ≡ err e → r.1.tables ≡ db.tables)
        → ((u : AuthUserRecord)
            → r.0 ≡ ok u
            → Reset token_hash (strip password) at db.now db.tables r.1.tables u)
        → AllOrNothing token_hash (strip password) at db r
    whole (err e, after) fails works = fails e refl
    whole (ok u, after) fails works =
        let d = works u refl in
        (d, rw d.tables (revoked_all d.token.user_id db.now db.tables.sessions))

-- A reset of a password by a token, whatever the database does, either raises and changes no
-- table, or it found an unused token of the digest that expires after the given time, of a user in
-- the table, and returns this user with the new hash: the token is used, the user's row has the
-- new hash, and no session of the user is left that is not revoked; no other row is written.
pub reset-AllOrNothing :
    (token_hash password : String) (consumed_at : Datetime) (db : AccountDb)
    → AllOrNothing
        (strip token_hash)
        (strip password)
        (utc_datetime consumed_at)
        db
        (AuthStore.reset_password_with_token token_hash password consumed_at db)
unfolding AuthStore.reset_password_with_token required_sensitive_text
reset-AllOrNothing token_hash password consumed_at db =
    elim (Bool-cases (str_eq (strip token_hash) "")) [
      | inl blank ↦ rw blank refl
      | inr given ↦ rw given (committed (strip token_hash) password (utc_datetime consumed_at) db)
    ]

-- While the database answers, a reset with an unused token that expires after the given time, of a
-- user in the table with a positive id, and with a hash that is not blank, returns.
pub reset_works :
    (token_hash password : String) (consumed_at : Datetime) (db : AccountDb)
    (token : PasswordResetToken) (user : User) (n : ℕ)
    → db.outages ≡ []
    → str_eq (strip token_hash) "" ≡ false
    → str_eq (strip password) "" ≡ false
    → find (consumable (strip token_hash) (utc_datetime consumed_at)) db.tables.reset_tokens
      ≡ some token
    → token.user_id ≡ suc n
    → find (user_has_id (suc n)) db.tables.users ≡ some user
    → (u : AuthUserRecord) × ((AuthStore.reset_password_with_token token_hash password consumed_at
          db).0
        ≡ ok u)
unfolding AuthStore.reset_password_with_token required_sensitive_text reset_password
    ResetTokens.consume_token ResetTokens.consume_row Users.update_password_hash Users.update_user
    Users.update_row Users.get_user Sessions.revoke_user_sessions revoke_matching_sessions
    revoke_rows sql_query sql statement required_value required_positive_identifier transaction
    query
reset_works token_hash password consumed_at db token user n calm given strong found owned known = (
  user_record (with_password (strip password) db.now user),
  ground (
    arith,
    find-holds (user_has_id (suc n)) db.tables.users user known,
    find-update_where (user_has_id (suc n)) (user_has_id (suc n))
        (with_password (strip password) db.now) db.tables.users (λ x. refl),
  ),
)
