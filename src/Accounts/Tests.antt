-- ===== src/Accounts/Tests.antt =====
-- The theorems on the accounts at a table with one user, one session and one reset token.
use kyrgstudio.Base.{◌≡◌, ◌≢◌, refl, none, some, List, [], ◌∷◌, false, arith, str_eq}
use kyrgstudio.Base.Lists.{find, any, update_where, select}
use kyrgstudio.Base.Text.{strip}
use kyrgstudio.Database.{ok, sql, sql_query, savepoint, statement, query, commit, transaction}
use kyrgstudio.Accounts.{User, AuthSession, PasswordResetToken, AccountDb, user_has_id}
use kyrgstudio.Accounts.Checks.{
  aware, required_auth_session_text, required_auth_session_datetime, required_positive_identifier,
  required_sensitive_text, required_value, utc_datetime,
}
use kyrgstudio.Accounts.Users
use kyrgstudio.Accounts.Users.{user_row}
use kyrgstudio.Accounts.Sessions
use kyrgstudio.Accounts.Sessions.{session_row, has_token, replaced_by, set_revoked}
use kyrgstudio.Accounts.Sessions.Moves.{Move}
use kyrgstudio.Accounts.ResetTokens
use kyrgstudio.Accounts.ResetTokens.{reset_row, consumable}
use kyrgstudio.Accounts.Records.{AuthUserRecord, rotated, reused, user_record, auth_session_record}
use kyrgstudio.Accounts.AuthStore
use kyrgstudio.Accounts.AuthStore.{rotate_found, rotate_for, reset_password}
use kyrgstudio.Accounts.AuthStore.Calls
use kyrgstudio.Accounts.AuthStore.Calls.{Event, call, weather, react, history, perform}
use kyrgstudio.Accounts.AuthStore.Moves.{perform-Move}
use kyrgstudio.Accounts.AuthStore.Once.{rotate_once}
use kyrgstudio.Accounts.AuthStore.Families.{OneLive, history-OneLive}
use kyrgstudio.Accounts.AuthStore.Checked.{Checked}
use kyrgstudio.Accounts.AuthStore.Reuse.{Ended, replay_ends_family}
use kyrgstudio.Accounts.AuthStore.Resets.{AllOrNothing, reset-AllOrNothing, reset_works}
use kyrgstudio.Accounts.AuthStore.ResetOnce.{OneToken, reset_once}
use kyrgstudio.Accounts.AuthStore.Creation.{Replaces, create_reset-Replaces}

abbrev user : User
user = user_row "ana@example.com" "password" (some "hash") none (some "Ana") none none 1 10

abbrev session : AuthSession
session = session_row 1 "token" "family" 100 1 20

abbrev reset_token : PasswordResetToken
reset_token = reset_row 1 "reset" 90 1 30

abbrev accounts : AccountDb
accounts = record {
  tables = record {
    users = user ∷ [];
    sessions = session ∷ [];
    email_tokens = [];
    reset_tokens = reset_token ∷ [];
    next_user = 2;
    next_session = 2;
    next_email_token = 1;
    next_reset_token = 2;
  };
  now = 50;
  outages = [];
}

abbrev replacement : AuthSession
replacement = session_row 1 "next" "family" 200 2 50

abbrev old_session : AuthSession
old_session = replaced_by 2 50 session

rotation_returns :
    (AuthStore.rotate_session_by_token_hash "token" "next" (aware 200) (aware 50) accounts).0
    ≡ ok (
        rotated
          (user_record user)
          (auth_session_record old_session)
          (auth_session_record replacement))
unfolding AuthStore.rotate_session_by_token_hash rotate_found rotate_for
    Sessions.get_session_by_token_hash Sessions.rotate_session Sessions.rotate_block
    Sessions.get_session_for_update Sessions.insert_session Sessions.update_session
    Sessions.refresh_row Users.get_user sql sql_query savepoint statement query commit transaction
    find any update_where strip required_auth_session_text required_auth_session_datetime
    required_positive_identifier utc_datetime
rotation_returns = refl

abbrev later : List Event
later =
    weather 70 (some "OperationalError" ∷ [])
    ∷ call (Calls.revoke_user_sessions 1)
    ∷ weather 80 []
    ∷ []

rotate_once_example :
    (AuthStore.rotate_session_by_token_hash "token" "third" (aware 300) (aware 80) (
      history later
        (AuthStore.rotate_session_by_token_hash "token" "next"
          (aware 200)
          (aware 50)
          accounts).1)).0
    ≢ ok (
        rotated
          (user_record user)
          (auth_session_record old_session)
          (auth_session_record replacement))
rotate_once_example =
    rotate_once "token" "next" (aware 200) (aware 50) accounts (user_record user)
      (auth_session_record old_session) (auth_session_record replacement) rotation_returns later
      "third" (aware 300) (aware 80) (user_record user) (auth_session_record old_session)
      (auth_session_record replacement)

accounts-Checked : Checked (session ∷ [])
unfolding required_auth_session_text strip
accounts-Checked = (refl, tt)

token_found : find (has_token (strip "token")) (session ∷ []) ≡ some session
unfolding find strip
token_found = refl

calm_later :
    (history later
      (AuthStore.rotate_session_by_token_hash "token" "next"
        (aware 200)
        (aware 50)
        accounts).1).outages
    ≡ []
unfolding history react
calm_later = refl

abbrev after_rotation : AccountDb
after_rotation =
    (AuthStore.rotate_session_by_token_hash "token" "next" (aware 200) (aware 50) accounts).1

replay_ends_family_example :
    ((s : AuthSession) × ((AuthStore.rotate_session_by_token_hash "token" "third"
          (aware 300)
          (aware 80)
          (history later after_rotation)).0
        ≡ ok (reused (auth_session_record s))))
    × Ended "family"
        (history later after_rotation).tables.sessions
        (AuthStore.rotate_session_by_token_hash "token" "third"
          (aware 300)
          (aware 80)
          (history later after_rotation)).1.tables.sessions
replay_ends_family_example =
    replay_ends_family "token" "next" (aware 200) (aware 50) accounts (user_record user)
      (auth_session_record old_session) (auth_session_record replacement) session accounts-Checked
      token_found rotation_returns later "third" (aware 300) (aware 80) calm_later

accounts-OneLive : OneLive (session ∷ [])
unfolding select
accounts-OneLive f = ground arith

abbrev rotations : List Event
rotations =
    call (Calls.rotate_session_by_token_hash "token" "next" (aware 200) (aware 50))
    ∷ call (Calls.revoke_session_family "family")
    ∷ []

history-OneLive_example : OneLive (history rotations accounts).tables.sessions
history-OneLive_example = history-OneLive rotations accounts (tt, (tt, tt)) accounts-OneLive

perform-Move_example :
    Move none (session ∷ []) (perform (Calls.revoke_session 1) accounts).tables.sessions
perform-Move_example = perform-Move (Calls.revoke_session 1) accounts

reset-AllOrNothing_example :
    AllOrNothing
      (strip "reset")
      (strip "new hash")
      60
      accounts
      (AuthStore.reset_password_with_token "reset" "new hash" (aware 60) accounts)
unfolding utc_datetime
reset-AllOrNothing_example = reset-AllOrNothing "reset" "new hash" (aware 60) accounts

reset_found :
    find (consumable (strip "reset") (utc_datetime (aware 60))) (reset_token ∷ [])
    ≡ some reset_token
unfolding find strip utc_datetime
reset_found = refl

user_found : find (user_has_id 1) (user ∷ []) ≡ some user
unfolding find
user_found = refl

reset_given : str_eq (strip "reset") "" ≡ false
unfolding strip
reset_given = refl

hash_given : str_eq (strip "new hash") "" ≡ false
unfolding strip
hash_given = refl

reset_works_example :
    (u : AuthUserRecord) × ((AuthStore.reset_password_with_token "reset" "new hash"
        (aware 60)
        accounts).0
      ≡ ok u)
reset_works_example =
    reset_works "reset" "new hash" (aware 60) accounts reset_token user 0 refl reset_given
      hash_given reset_found refl user_found

one_token : OneToken (strip "reset") (reset_token ∷ [])
unfolding select strip
one_token = omega arith

reset_returns :
    (AuthStore.reset_password_with_token "reset" "new hash" (aware 60) accounts).0
    ≡ ok (user_record (record user { password_hash = some "new hash"; updated_at = 50 }))
unfolding AuthStore.reset_password_with_token reset_password ResetTokens.consume_token
    ResetTokens.consume_row Users.update_password_hash Users.update_user Users.update_row
    Users.get_user Sessions.revoke_user_sessions Sessions.revoke_matching_sessions
    Sessions.revoke_rows sql sql_query statement query commit transaction find select update_where
    strip required_sensitive_text required_value required_positive_identifier utc_datetime
reset_returns = refl

reset_once_example :
    (AuthStore.reset_password_with_token "reset" "third hash" (aware 70) (
      history later
        (AuthStore.reset_password_with_token "reset" "new hash" (aware 60) accounts).1)).0
    ≢ ok (user_record user)
reset_once_example =
    reset_once "reset" "new hash" (aware 60) accounts
      (user_record (record user { password_hash = some "new hash"; updated_at = 50 })) one_token
      reset_returns later (tt, tt) "third hash" (aware 70) (user_record user)

create_reset-Replaces_example :
    Replaces 1
      (strip "other")
      95
      accounts
      (AuthStore.create_password_reset_token 1 "other" (aware 95) (aware 40) accounts)
unfolding utc_datetime
create_reset-Replaces_example = create_reset-Replaces 1 "other" (aware 95) (aware 40) accounts
