-- ===== src/Accounts/AuthStore/Spent.antt =====
-- Single use of a refresh token: once its session is revoked it stays so, and only a usable session is
-- rotated.
use kyrgstudio.Base.{
  str_eq, ap, subst, String, ◌≡◌, refl, sym, ◌∙◌, Option, some, List, [], ◌∷◌, ◌++◌, Bool, true,
  arith,
}
use kyrgstudio.Base.Lists.{find, update_where, find-update_where, updated_by, find-append}
use kyrgstudio.Accounts.{AuthSession, AccountDb, is_some}
use kyrgstudio.Accounts.Sessions.{has_token, rotates, replaced_by}
use kyrgstudio.Accounts.Sessions.Moves.{Move, stays, creates, retires, replaces, Retired}
use kyrgstudio.Accounts.AuthStore.Calls.{Event, call, weather, react, history, perform}
use kyrgstudio.Accounts.AuthStore.Moves.{perform-Move}

-- The session of a digest is there, in the family, and can no longer be used.
pub record Spent (token_hash family : String) (sessions : List AuthSession) : Type 0 where
  pub session : AuthSession
  pub found : find (has_token token_hash) sessions ≡ some session
  pub family_is : session.family_id ≡ family
  pub revoked : is_some session.revoked_at ≡ true

update-Spent :
    (h g : String) (p : AuthSession → Bool) (f : AuthSession → AuthSession)
    (sessions : List AuthSession)
    → ((s : AuthSession) → Retired s (f s))
    → Spent h g sessions
    → Spent h g (update_where p f sessions)
update-Spent h g p f sessions retired s = record {
  session = updated_by p f s.session;
  found =
      find-update_where (has_token h) p f sessions
        (λ x. ap (λ t. str_eq t h) (retired x).token_hash)
      ∙ rw s.found refl;
  family_is = ground (arith, s.family_is, (retired s.session).family_id);
  revoked = ground (arith, s.revoked, (retired s.session).revoked);
}

append-Spent :
    (h g : String) (row : AuthSession) (sessions : List AuthSession)
    → Spent h g sessions
    → Spent h g (sessions ++ row ∷ [])
append-Spent h g row sessions s = record {
  session = s.session;
  found = find-append (has_token h) sessions (row ∷ []) ∙ rw s.found refl;
  family_is = s.family_is;
  revoked = s.revoked;
}

-- No move makes a spent token usable again.
pub Move-Spent :
    (h g : String) (family : Option String) (a b : List AuthSession)
    → Move family a b
    → Spent h g a
    → Spent h g b
Move-Spent h g family a b (stays e) s = subst (Spent h g) (sym e) s
Move-Spent h g family a b (creates row opens valid usable new e) s =
    subst (Spent h g) (sym e) (append-Spent h g row a s)
Move-Spent h g family a b (retires p f retired e) s =
    subst (Spent h g) (sym e) (update-Spent h g p f a retired s)
Move-Spent h g family a b (replaces current row now found usable fam user fresh new e) s =
    subst (Spent h g) (sym e) (
      update-Spent h g (rotates current.id) (replaced_by row.id now) (a ++ row ∷ [])
        (λ x. ground arith) (append-Spent h g row a s))

pub history-Spent :
    (h g : String) (es : List Event) (db : AccountDb)
    → Spent h g db.tables.sessions
    → Spent h g (history es db).tables.sessions
unfolding history react
history-Spent h g [] db s = s
history-Spent h g (call c ∷ es) db s =
    history-Spent h g es (perform c db)
      (Move-Spent h g _ db.tables.sessions (perform c db).tables.sessions (perform-Move c db) s)
history-Spent h g (weather now outages ∷ es) db s =
    history-Spent h g es (record db { now = now; outages = outages }) s
