-- ===== src/Accounts/AuthStore/Reuse.antt =====
-- A refresh token that is presented again after its rotation ends its family.
use kyrgstudio.Base.{
  ap, ℕ, String, ◌≡◌, ◌≢◌, refl, ◌∙◌, some, List, [], ◌∷◌, false, arith, str_eq_iff,
}
use kyrgstudio.Base.Lists.{find, select, update_where}
use kyrgstudio.Base.Text.{strip}
use kyrgstudio.Database.{Result, ok, sql, sql_query, statement, query, transaction}
use kyrgstudio.Accounts.{AuthSession, AccountTables, AccountDb}
use kyrgstudio.Accounts.Checks.{Datetime, utc_datetime}
use kyrgstudio.Accounts.Sessions
use kyrgstudio.Accounts.Sessions.{
  has_token, in_family, is_usable, set_revoked, revoke_rows, revoke_matching_sessions, rotates,
  replaced_by,
}
use kyrgstudio.Accounts.Sessions.Moves.{FamilyText}
use kyrgstudio.Accounts.Records.{
  AuthUserRecord, AuthSessionRecord, Rotation, rotated, reused, auth_session_record,
}
use kyrgstudio.Accounts.AuthStore
use kyrgstudio.Accounts.AuthStore.{rotate_found}
use kyrgstudio.Accounts.AuthStore.Calls.{Event, history}
use kyrgstudio.Accounts.AuthStore.Spent.{history-Spent}
use kyrgstudio.Accounts.AuthStore.Families.{live_in, live_count}
use kyrgstudio.Accounts.AuthStore.Refresh.{TokenText, rotate_session_by_token_hash-rotated}
use kyrgstudio.Accounts.AuthStore.Checked.{Checked, find-Checked, history-Checked, rotation-Checked}
use kyrgstudio.Accounts.AuthStore.Once.{Refreshed-Spent}

-- The table behind the presentation of a spent token.
abbrev pub family_ended : AuthSession → ℕ → AccountTables → AccountTables
family_ended s now t = record t {
  sessions = update_where (live_in s.family_id) (set_revoked now) t.sessions;
}

reuse-revokes :
    (h replacement : String) (expires checked : Datetime) (db : AccountDb) (s : AuthSession)
    → db.outages ≡ []
    → TokenText h
    → find (has_token (strip h)) db.tables.sessions ≡ some s
    → is_usable s ≡ false
    → FamilyText s.family_id
    → AuthStore.rotate_session_by_token_hash h replacement expires checked db ≡ (
      ok (reused (auth_session_record s)),
      record db { tables = family_ended s db.now db.tables },
    )
unfolding AuthStore.rotate_session_by_token_hash Sessions.get_session_by_token_hash rotate_found
    Sessions.revoke_family revoke_matching_sessions revoke_rows sql_query sql statement transaction
    query
reuse-revokes h replacement expires checked db s calm is_text found spent family = ground arith

live_count-ended :
    (f : String) (now : ℕ) (a : List AuthSession)
    → live_count f (update_where (live_in f) (set_revoked now) a) ≡ 0
unfolding update_where select
live_count-ended f now [] = refl
live_count-ended f now (s ∷ a) = ground (arith, live_count-ended f now a)

live_count-others :
    (f g : String) (now : ℕ) (a : List AuthSession)
    → g ≢ f
    → live_count g (update_where (live_in f) (set_revoked now) a) ≡ live_count g a
unfolding update_where select
live_count-others f g now [] other = refl
live_count-others f g now (s ∷ a) other =
    ground
      (arith, live_count-others f g now a other, str_eq_iff s.family_id f, str_eq_iff s.family_id g)

-- What the presentation of a spent token leaves of the sessions of the family `f` and of others.
pub record Ended (f : String) (before after : List AuthSession) : Type 0 where
  pub none_left : live_count f after ≡ 0
  pub others : (g : String) → g ≢ f → live_count g after ≡ live_count g before

-- At a table whose families are as the checks of the store leave them, after a rotation of a
-- refresh token by its digest has come back as rotated, and after whatever calls, the digest
-- presented again while the database answers comes back as reused; no session of the family that
-- the token had is left that is not revoked, and each other family has as many as before.
pub replay_ends_family :
    (h replacement : String) (expires checked : Datetime) (db : AccountDb) (u : AuthUserRecord)
    (c r : AuthSessionRecord) (first : AuthSession)
    → Checked db.tables.sessions
    → find (has_token (strip h)) db.tables.sessions ≡ some first
    → (AuthStore.rotate_session_by_token_hash h replacement expires checked db).0
      ≡ ok (rotated u c r)
    → (es : List Event) (replacement2 : String) (expires2 checked2 : Datetime)
    → (history es
        (AuthStore.rotate_session_by_token_hash h replacement expires checked db).1).outages
      ≡ []
    → ((s : AuthSession) × ((AuthStore.rotate_session_by_token_hash h replacement2 expires2 checked2
            (history es
              (AuthStore.rotate_session_by_token_hash h replacement expires checked db).1)).0
          ≡ ok (reused (auth_session_record s))))
      × Ended first.family_id
          (history es
            (AuthStore.rotate_session_by_token_hash h replacement expires checked
              db).1).tables.sessions
          (AuthStore.rotate_session_by_token_hash h replacement2 expires2 checked2 (
            history es
              (AuthStore.rotate_session_by_token_hash h replacement expires checked
                db).1)).1.tables.sessions
replay_ends_family h replacement expires checked db u c r first valid is_first e es replacement2
      expires2 checked2 calm =
    let after = (AuthStore.rotate_session_by_token_hash h replacement expires checked db).1 in
    let refreshed = rotate_session_by_token_hash-rotated h replacement expires checked db u c r e in
    let now = history es after in
    let same : refreshed.current ≡ first = ground (arith, refreshed.found) in
    let spent = history-Spent (strip h) refreshed.current.family_id es after (
      Refreshed-Spent h replacement (utc_datetime checked) db.now db.tables after.tables u c r
        refreshed) in
    let s = spent.session in
    let fam : s.family_id ≡ first.family_id =
      spent.family_is ∙ ap (λ (x : AuthSession). x.family_id) same in
    let text =
      find-Checked (has_token (strip h)) now.tables.sessions s
        (history-Checked es after (rotation-Checked h replacement expires checked db valid))
        spent.found in
    let run =
      reuse-revokes h replacement2 expires2 checked2 now s calm refreshed.is_text spent.found
        (ground (arith, spent.revoked)) text in
    let ended =
      ap (λ (x : Result Rotation × AccountDb). x.1.tables.sessions) run
      ∙ ap (λ f. update_where (live_in f) (set_revoked now.now) now.tables.sessions) fam in
    (
      (s, ap (λ (x : Result Rotation × AccountDb). x.0) run),
      record {
        none_left =
            ap (live_count first.family_id) ended
            ∙ live_count-ended first.family_id now.now now.tables.sessions;
        others = λ g other.
            ap (live_count g) ended
            ∙ live_count-others first.family_id g now.now now.tables.sessions other;
      },
    )
