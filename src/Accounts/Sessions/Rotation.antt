-- ===== src/Accounts/Sessions/Rotation.antt =====
-- What `rotate_session` does when it returns.
use kyrgstudio.Base.{
  subst, ℕ, String, ◌≡◌, sym, ◌∙◌, ap, Option, none, some, List, [], ◌∷◌, ◌++◌, true, false, arith,
  zero, suc, inl, inr,
}
use kyrgstudio.Base.Lists.{find, any, update_where, find-holds}
use kyrgstudio.Database.Effects.{Effect}
use kyrgstudio.Accounts.Sessions.Moves.{Moving, stays, replaces}
use kyrgstudio.Accounts.Checks.{
  Datetime, naive, aware, required_positive_identifier, required_auth_session_text,
  required_auth_session_datetime,
}
use kyrgstudio.Base.Text.{strip}
use kyrgstudio.Errors.{Error}
use kyrgstudio.Database.{Result-cases, ok, err, done, sql, sql_query, savepoint, statement}
use kyrgstudio.Accounts.{AuthSession, AccountTables, AccountDb, user_has_id}
use kyrgstudio.Accounts.Sessions.{
  session_has_id, has_token, session_row, insert_session, get_session_for_update, or_error,
  is_usable, update_session, rotates, replaced_by, refresh_row, rotate_block, rotate_session,
}

-- The table with the rotated row and its replacement.
abbrev pub swapped : ℕ → ℕ → AuthSession → List AuthSession → List AuthSession
swapped id now row sessions =
    update_where (rotates id) (replaced_by row.id now) (sessions ++ row ∷ [])

-- A rotation of the row of an id that returned.
pub record Rotated (id : ℕ) (token_hash : String) (expires_at : ℕ) (now : ℕ)
    (before : AccountTables) (pair : AuthSession × AuthSession) (after : AccountTables)
    : Type 0 where
  pub current : AuthSession
  pub found : find (session_has_id id) before.sessions ≡ some current
  pub usable : is_usable current ≡ true
  pub row :
      pair.0
      ≡ session_row current.user_id token_hash current.family_id expires_at before.next_session now
  pub known : any (user_has_id current.user_id) before.users ≡ true
  pub new : any (has_token token_hash) before.sessions ≡ false
  pub sessions : after.sessions ≡ swapped id now pair.0 before.sessions
  pub again : find (session_has_id id) after.sessions ≡ some pair.1
  pub users : after.users ≡ before.users

or_error-ok :
    {A : Type 0} (o : Option A) (e : Error) (db : AccountDb) (a : A)
    → (or_error o e db).0 ≡ ok a
    → (o ≡ some a) × ((or_error o e db).1 ≡ db)
or_error-ok none e db a h = ground arith
or_error-ok (some b) e db a h = ground arith

insert_session-done :
    (user_id : ℕ) (hash family : String) (expires_at now : ℕ) (t : AccountTables) (s : AuthSession)
    → (insert_session (session_row user_id hash family expires_at) now t).0 ≡ done s
    → (s ≡ session_row user_id hash family expires_at t.next_session now)
      × (any (user_has_id user_id) t.users ≡ true)
      × (any (has_token hash) t.sessions ≡ false)
      × ((insert_session (session_row user_id hash family expires_at) now t).1.sessions
          ≡ t.sessions ++ s ∷ [])
      × ((insert_session (session_row user_id hash family expires_at) now t).1.users ≡ t.users)
unfolding insert_session
insert_session-done user_id hash family expires_at now t s h = ground arith

pub rotate_block-ok :
    (id : ℕ) (hash : String) (expires_at : ℕ) (db : AccountDb) (pair : AuthSession × AuthSession)
    → (rotate_block id hash expires_at db).0 ≡ ok pair
    → Rotated id hash expires_at db.now db.tables pair (rotate_block id hash expires_at db).1.tables
unfolding rotate_block get_session_for_update insert_session update_session refresh_row sql
    sql_query statement find any
rotate_block-ok id hash expires_at db pair h = ground arith

-- The checks of `rotate_session` pass, and then its block runs.
pub rotate_session-ok :
    (i : ℕ) (token_hash : String) (expires : Datetime) (db : AccountDb)
    (pair : AuthSession × AuthSession)
    → (rotate_session i token_hash expires db).0 ≡ ok pair
    → (t : ℕ) × Rotated i
        (strip token_hash)
        t
        db.now
        db.tables
        pair
        (rotate_session i token_hash expires db).1.tables
unfolding rotate_session savepoint required_positive_identifier required_auth_session_text
    required_auth_session_datetime
rotate_session-ok zero token_hash expires db pair h = ground arith
rotate_session-ok (suc i) token_hash (naive t) db pair h = ground arith
rotate_session-ok (suc i) token_hash (aware t) db pair h =
    (t, ground (arith, rotate_block-ok (suc i) (strip token_hash) t db pair))

rotate_session-err :
    (i : ℕ) (token_hash : String) (expires : Datetime) (db : AccountDb) (e : Error)
    → (rotate_session i token_hash expires db).0 ≡ err e
    → (rotate_session i token_hash expires db).1.tables ≡ db.tables
unfolding rotate_session savepoint
rotate_session-err i token_hash expires db e h = ground arith

pub rotate_session-Moving :
    (family : Option String) (i : ℕ) (token_hash : String) (expires : Datetime)
    → Effect (Moving family) (rotate_session i token_hash expires)
rotate_session-Moving family i token_hash expires = record { holds = λ db. move db }
  where
    move :
        (db : AccountDb) → Moving family db.tables (rotate_session i token_hash expires db).1.tables
    move db = elim (Result-cases (rotate_session i token_hash expires db).0) [
      | inr (e, eq) ↦
          stays (
            ap (λ (t : AccountTables). t.sessions)
              (rotate_session-err i token_hash expires db e eq))
      | inl (pair, eq) ↦
          let (t, r) = rotate_session-ok i token_hash expires db pair eq in
          let same : r.current.id ≡ i =
            ground (arith, find-holds (session_has_id i) db.tables.sessions r.current, r.found) in
          replaces r.current pair.0 db.now
            (subst (λ k. find (session_has_id k) db.tables.sessions ≡ some r.current) (sym same)
              r.found)
            r.usable (ap (λ (s : AuthSession). s.family_id) r.row)
            (ap (λ (s : AuthSession). s.user_id) r.row) (ap is_usable r.row)
            (ap (λ (s : AuthSession). any (has_token s.token_hash) db.tables.sessions) r.row
              ∙ r.new)
            (subst
              (λ k.
                (rotate_session i token_hash expires db).1.tables.sessions
                ≡ swapped k db.now pair.0 db.tables.sessions)
              (sym same) r.sessions)
    ]
