-- ===== src/Accounts/AuthStore/Once.antt =====
-- A refresh token is rotated once.
use kyrgstudio.Base.{
  ap, ℕ, String, ◌≡◌, ◌≢◌, refl, ◌∙◌, List, [], ◌∷◌, ◌++◌, Bool, true, false, arith, ==_refl,
}
use kyrgstudio.Base.Lists.{find, find-update_where, updated_by, find-append}
use kyrgstudio.Base.Text.{strip}
use kyrgstudio.Database.{ok}
use kyrgstudio.Accounts.{AccountTables, AccountDb}
use kyrgstudio.Accounts.Checks.{Datetime, utc_datetime}
use kyrgstudio.Accounts.Sessions.{has_token, rotates, replaced_by}
use kyrgstudio.Accounts.Records.{AuthUserRecord, AuthSessionRecord, rotated}
use kyrgstudio.Accounts.AuthStore
use kyrgstudio.Accounts.AuthStore.Calls.{Event, history}
use kyrgstudio.Accounts.AuthStore.Spent.{Spent, history-Spent}
use kyrgstudio.Accounts.AuthStore.Refresh.{Refreshed, rotate_session_by_token_hash-rotated}

pub Refreshed-Spent :
    (h replacement : String) (checked now : ℕ) (before after : AccountTables) (u : AuthUserRecord)
    (c r : AuthSessionRecord)
    → (d : Refreshed h replacement checked now before after u c r)
    → Spent (strip h) d.current.family_id after.sessions
Refreshed-Spent h replacement checked now before after u c r d = record {
  session = updated_by (rotates d.current.id) (replaced_by d.pair.0.id now) d.current;
  found =
      ap (find (has_token (strip h))) d.turned.sessions
      ∙ find-update_where (has_token (strip h)) (rotates d.current.id) (replaced_by d.pair.0.id now)
          (before.sessions ++ d.pair.0 ∷ []) (λ s. ground arith)
      ∙ rw (find-append (has_token (strip h)) before.sessions (d.pair.0 ∷ [])) (rw d.found refl);
  family_is = ground arith;
  revoked = ground (arith, d.usable, ==_refl d.current.id);
}

Spent-Refreshed :
    (h g replacement : String) (checked now : ℕ) (before after : AccountTables) (u : AuthUserRecord)
    (c r : AuthSessionRecord)
    → Spent (strip h) g before.sessions
    → Refreshed h replacement checked now before after u c r
    → ◌≡◌ {A = Bool} true false
Spent-Refreshed h g replacement checked now before after u c r s d =
    ground (arith, s.found, s.revoked, d.found, d.usable)

-- After a rotation of a refresh token by its digest has come back as rotated, no rotation by this
-- digest comes back so, after whatever calls of AuthStore, failures of the database and passages
-- of time, so a stolen token and its owner's are not both exchanged.
pub rotate_once :
    (h replacement : String) (expires checked : Datetime) (db : AccountDb) (u : AuthUserRecord)
    (c r : AuthSessionRecord)
    → (AuthStore.rotate_session_by_token_hash h replacement expires checked db).0
      ≡ ok (rotated u c r)
    → (es : List Event) (replacement2 : String) (expires2 checked2 : Datetime) (u2 : AuthUserRecord)
      (c2 r2 : AuthSessionRecord)
    → (AuthStore.rotate_session_by_token_hash h replacement2 expires2 checked2
        (history es (AuthStore.rotate_session_by_token_hash h replacement expires checked db).1)).0
      ≢ ok (rotated u2 c2 r2)
rotate_once h replacement expires checked db u c r e es replacement2 expires2 checked2 u2 c2 r2 e2 =
    let after = (AuthStore.rotate_session_by_token_hash h replacement expires checked db).1 in
    let refreshed = rotate_session_by_token_hash-rotated h replacement expires checked db u c r e in
    let spent = history-Spent (strip h) refreshed.current.family_id es after (
      Refreshed-Spent h replacement (utc_datetime checked) db.now db.tables after.tables u c r
        refreshed) in
    let contradiction =
      Spent-Refreshed h refreshed.current.family_id replacement2 (utc_datetime checked2)
        (history es after).now (history es after).tables _ u2 c2 r2 spent
        (rotate_session_by_token_hash-rotated h replacement2 expires2 checked2 (history es after) u2
          c2 r2 e2) in
    ground (arith, contradiction)
