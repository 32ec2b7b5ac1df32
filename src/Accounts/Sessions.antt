-- ===== src/Accounts/Sessions.antt =====
-- src/app/store/users.py: `SQLAlchemyAuthSessionStore`, one action for each method. A lock
-- (`with_for_update`) shows nothing of itself in a sequence of transactions.
pub mod Rotation
pub mod Moves
use kyrgstudio.Base.{
  ℕ, ◌+◌, String, Option, none, some, List, [], ◌∷◌, ◌++◌, Bool, true, false, ◌&&◌, ◌||◌, not,
  str_eq, ◌==◌, if◌then◌else◌,
}
use kyrgstudio.Base.Int.{pos}
use kyrgstudio.Base.Json
use kyrgstudio.Base.Json.{field, end}
use kyrgstudio.Base.Lists.{length, find, any, select, update_where}
use kyrgstudio.Errors.{Error}
use kyrgstudio.Database.{
  Result, ok, err, Exec, pure, raise, lift, ◌>>=◌, Outcome, done, integrity, failed, sql, sql_query,
  savepoint,
}
use kyrgstudio.Accounts.{AuthSession, AccountTables, AccountDb, user_has_id, is_none}
use kyrgstudio.Accounts.Checks.{
  Datetime, session_store_error, session_store_failure, required_positive_identifier,
  required_auth_session_text, required_auth_session_datetime,
}

abbrev pub session_has_id : ℕ → AuthSession → Bool
session_has_id session_id session = session.id == session_id

abbrev pub has_token : String → AuthSession → Bool
has_token token_hash session = str_eq session.token_hash token_hash

abbrev pub in_family : String → AuthSession → Bool
in_family family_id session = str_eq session.family_id family_id

abbrev pub owned_by : ℕ → AuthSession → Bool
owned_by user_id session = session.user_id == user_id

-- The row of `AuthSession(…)` with the defaults of its columns.
abbrev pub session_row : ℕ → String → String → ℕ → ℕ → ℕ → AuthSession
session_row user_id token_hash family_id expires_at id now = record {
  id = id;
  user_id = user_id;
  token_hash = token_hash;
  family_id = family_id;
  expires_at = expires_at;
  last_used_at = now;
  revoked_at = none;
  replaced_by_session_id = none;
  created_at = now;
}

abbrev insert_session_if : Bool → AuthSession → AccountTables → Outcome AuthSession × AccountTables
insert_session_if false session t = (integrity "IntegrityError", t)
insert_session_if true session t = (
  done session,
  record t { sessions = t.sessions ++ session ∷ []; next_session = t.next_session + 1 },
)

-- `INSERT` of a session: the foreign key to `users` and the unique digest are checked.
unfoldable pub insert_session :
    (ℕ → ℕ → AuthSession) → ℕ → AccountTables → Outcome AuthSession × AccountTables
unfolding any
insert_session row now t =
    let session = row t.next_session now in
    insert_session_if
      (any (user_has_id session.user_id) t.users
        && not (any (has_token session.token_hash) t.sessions))
      session t

abbrev owner_details : ℕ → Json.Fields
owner_details user_id = field "user_id" (Json.int (pos user_id)) end

-- The payload of `create_session`.
pub record NewSession : Type 0 where
  pub user_id : ℕ
  pub token_hash : String
  pub family_id : String
  pub expires_at : Datetime

-- `create_session`
unfoldable pub create_session : NewSession → Exec AccountDb AuthSession
unfolding required_positive_identifier required_auth_session_text required_auth_session_datetime
    session_store_failure insert_session savepoint sql
create_session payload = do
  user_id ← lift (required_positive_identifier payload.user_id "user_id" "create_auth_session")
  token_hash ←
      lift (required_auth_session_text payload.token_hash "token_hash" "create_auth_session" 128)
  family_id ←
      lift (required_auth_session_text payload.family_id "family_id" "create_auth_session" 36)
  expires_at ←
      lift (required_auth_session_datetime payload.expires_at "expires_at" "create_auth_session")
  savepoint (
      sql
        (session_store_failure "create_auth_session" "Auth session violates a database constraint."
          (owner_details user_id))
        (session_store_failure "create_auth_session" "Failed to create auth session."
          (owner_details user_id))
        (insert_session (session_row user_id token_hash family_id expires_at)))

abbrev session_details : ℕ → Json.Fields
session_details session_id = field "session_id" (Json.int (pos session_id)) end

-- `get_session`
unfoldable pub get_session : ℕ → Exec AccountDb (Option AuthSession)
unfolding required_positive_identifier session_store_failure find sql_query
get_session session_id = do
  id ← lift (required_positive_identifier session_id "session_id" "get_auth_session")
  sql_query
      (session_store_failure "get_auth_session" "Failed to get auth session." (session_details id))
      (λ t. find (session_has_id id) t.sessions)

-- `get_session_by_token_hash`; digests are unique, so the first row is the row
unfoldable pub get_session_by_token_hash : String → Exec AccountDb (Option AuthSession)
unfolding required_auth_session_text session_store_failure find sql_query
get_session_by_token_hash token_hash = do
  hash ←
      lift (required_auth_session_text token_hash "token_hash" "get_auth_session_by_token_hash" 128)
  sql_query
      (session_store_failure "get_auth_session_by_token_hash"
        "Failed to get auth session by token hash." end)
      (λ t. find (has_token hash) t.sessions)

abbrev pub or_error : {A : Type 0} → Option A → Error → Exec AccountDb A
or_error none e = raise e
or_error (some a) e = pure a

-- `_get_session_for_update`; its own statement fails into the clause of the caller
unfoldable pub get_session_for_update : (String → Error) → ℕ → Exec AccountDb AuthSession
unfolding session_store_error find sql_query
get_session_for_update on_failure session_id = do
  session ← sql_query on_failure (λ t. find (session_has_id session_id) t.sessions)
  or_error session (
      session_store_error "rotate_auth_session" "Auth session was not found."
        (session_details session_id))

abbrev found_or_gone : Option AuthSession → Outcome AuthSession
found_or_gone none = failed "InvalidRequestError"
found_or_gone (some session) = done session

-- `session.refresh(row)`, which fails on a row that is gone
unfoldable pub refresh_row : (String → Error) → ℕ → Exec AccountDb AuthSession
unfolding find sql
refresh_row on_failure session_id =
    sql on_failure on_failure
      (λ now t. (found_or_gone (find (session_has_id session_id) t.sessions), t))

-- The session may be rotated.
abbrev pub is_usable : AuthSession → Bool
is_usable session = is_none session.revoked_at && is_none session.replaced_by_session_id

abbrev pub id_of : Option AuthSession → Option ℕ
id_of none = none
id_of (some session) = some session.id

-- `UPDATE auth_sessions SET … WHERE … RETURNING id` at one id
unfoldable pub update_session :
    (AuthSession → Bool)
    → (ℕ → AuthSession → AuthSession)
    → ℕ
    → AccountTables
    → Outcome (Option ℕ) × AccountTables
unfolding find update_where
update_session matches values now t = (
  done (id_of (find matches t.sessions)),
  record t { sessions = update_where matches (values now) t.sessions },
)

-- The conditions of the update in `rotate_session`.
abbrev pub rotates : ℕ → AuthSession → Bool
rotates session_id session = session_has_id session_id session && is_usable session

-- The values of the update in `rotate_session`.
abbrev pub replaced_by : ℕ → ℕ → AuthSession → AuthSession
replaced_by replacement now session = record session {
  revoked_at = some now;
  last_used_at = now;
  replaced_by_session_id = some replacement;
}

abbrev still_usable : AuthSession → Error → Exec AccountDb Unit
still_usable session e = if is_usable session then pure tt else raise e

-- The block of `rotate_session` behind its checks: the replacement, and the rotated row as it is read
-- again.
unfoldable pub rotate_block : ℕ → String → ℕ → Exec AccountDb (AuthSession × AuthSession)
unfolding session_store_error session_store_failure get_session_for_update insert_session sql
    update_session refresh_row
rotate_block session_id token_hash expires_at = do
  let details = session_details session_id
  let conflict =
      session_store_failure "rotate_auth_session"
        "Replacement auth session violates a database constraint." details
  let failure = session_store_failure "rotate_auth_session" "Failed to rotate auth session." details
  current ← get_session_for_update failure session_id
  usable ← still_usable current (
      session_store_error "rotate_auth_session" "Auth session has already been rotated or revoked."
        details)
  replacement ←
      sql conflict failure
        (insert_session (session_row current.user_id token_hash current.family_id expires_at))
  updated ← sql conflict failure (update_session (rotates session_id) (replaced_by replacement.id))
  changed ←
      or_error updated
        (session_store_error "rotate_auth_session" "Auth session changed during rotation." details)
  rotated ← refresh_row failure session_id
  pure (replacement, rotated)

-- `rotate_session`; the row that it reads again is the caller's object for this id, if it has one
unfoldable pub rotate_session : ℕ → String → Datetime → Exec AccountDb (AuthSession × AuthSession)
unfolding required_positive_identifier required_auth_session_text required_auth_session_datetime
    rotate_block savepoint
rotate_session session_id token_hash expires_at = do
  id ← lift (required_positive_identifier session_id "session_id" "rotate_auth_session")
  hash ← lift (required_auth_session_text token_hash "token_hash" "rotate_auth_session" 128)
  expires ← lift (required_auth_session_datetime expires_at "expires_at" "rotate_auth_session")
  savepoint (rotate_block id hash expires)

abbrev pub set_revoked : ℕ → AuthSession → AuthSession
set_revoked now session = record session { revoked_at = some now }

abbrev id_or : Option ℕ → ℕ → ℕ
id_or none session_id = session_id
id_or (some id) session_id = id

-- `revoke_session`
unfoldable pub revoke_session : ℕ → Exec AccountDb AuthSession
unfolding required_positive_identifier session_store_error session_store_failure update_session sql
    get_session refresh_row
revoke_session session_id = do
  id ← lift (required_positive_identifier session_id "session_id" "revoke_auth_session")
  let failure =
      session_store_failure "revoke_auth_session" "Failed to revoke auth session."
        (session_details id)
  updated ←
      sql failure failure
        (update_session (λ s. session_has_id id s && is_none s.revoked_at) set_revoked)
  session ← get_session (id_or updated id)
  found ← or_error session (
      session_store_error "revoke_auth_session" "Auth session was not found for revocation."
        (session_details id))
  refresh_row failure found.id

-- `UPDATE auth_sessions SET revoked_at = now() WHERE … AND revoked_at IS NULL RETURNING id`
unfoldable pub revoke_rows : (AuthSession → Bool) → ℕ → AccountTables → Outcome ℕ × AccountTables
unfolding select update_where
revoke_rows matches now t = (
  done (length (select (λ s. matches s && is_none s.revoked_at) t.sessions)),
  record t {
    sessions = update_where (λ s. matches s && is_none s.revoked_at) (set_revoked now) t.sessions;
  },
)

-- `_revoke_matching_sessions`
unfoldable pub revoke_matching_sessions :
    String → (AuthSession → Bool) → Json.Fields → Exec AccountDb ℕ
unfolding session_store_failure revoke_rows sql
revoke_matching_sessions operation matches details =
    let failure = session_store_failure operation "Failed to revoke auth sessions." details in
    sql failure failure (revoke_rows matches)

-- `revoke_user_sessions`
unfoldable pub revoke_user_sessions : ℕ → Exec AccountDb ℕ
unfolding required_positive_identifier revoke_matching_sessions
revoke_user_sessions user_id = do
  id ← lift (required_positive_identifier user_id "user_id" "revoke_user_auth_sessions")
  revoke_matching_sessions "revoke_user_auth_sessions" (owned_by id) (owner_details id)

-- `revoke_family`
unfoldable pub revoke_family : String → Exec AccountDb ℕ
unfolding required_auth_session_text revoke_matching_sessions
revoke_family family_id = do
  family ← lift (required_auth_session_text family_id "family_id" "revoke_auth_session_family" 36)
  revoke_matching_sessions "revoke_auth_session_family" (in_family family) end
