-- ===== src/Accounts/Sessions/Moves.antt =====
-- What the methods of the session store do to the rows of the sessions.
use kyrgstudio.Base.{
  ℕ, String, ◌≡◌, refl, sym, inl, inr, Option, none, some, List, [], ◌∷◌, ◌++◌, Bool, true, false,
  arith, Bool-cases,
}
use kyrgstudio.Base.Lists.{find, any, update_where}
use kyrgstudio.Base.Text.{strip}
use kyrgstudio.Base.Text.Strip.{strip-strip}
use kyrgstudio.Base.Json.{Fields, end}
use kyrgstudio.Errors.{Error}
use kyrgstudio.Database.{ok, Exec, ◌>>=◌}
use kyrgstudio.Database.Effects.{
  Effect, StatementEffect, Effect-bind, Effect-pure, Effect-raise, Effect-check, Effect-sql,
  Effect-sql_query, Effect-savepoint,
}
use kyrgstudio.Accounts.{AuthSession, AccountTables, AccountDb, is_some, user_has_id}
use kyrgstudio.Accounts.Checks.{
  required_positive_identifier, required_auth_session_text, required_auth_session_datetime,
}
use kyrgstudio.Accounts.Sessions.{
  has_token, session_has_id, in_family, owned_by, session_row, insert_session, NewSession,
  create_session, get_session, get_session_by_token_hash, or_error, refresh_row, is_usable,
  update_session, rotates, replaced_by, set_revoked, revoke_session, revoke_rows,
  revoke_matching_sessions, revoke_user_sessions, revoke_family, owner_details,
}

abbrev pub sessions_of : AccountTables → List AuthSession
sessions_of t = t.sessions

-- What an update that revokes keeps of a row.
pub record Retired (a b : AuthSession) : Type 0 where
  pub id : b.id ≡ a.id
  pub user_id : b.user_id ≡ a.user_id
  pub token_hash : b.token_hash ≡ a.token_hash
  pub family_id : b.family_id ≡ a.family_id
  pub revoked : is_some b.revoked_at ≡ true

-- A family as the checks leave it, which they pass again.
abbrev pub FamilyText : String → Type 0
FamilyText family =
    required_auth_session_text family "family_id" "revoke_auth_session_family" 36 ≡ ok family

-- What a call may do to the sessions, of which it may create one in the given family.
pub data Move (family : Option String) (a b : List AuthSession) : Type 0 where
  stays : b ≡ a → Move family a b
  creates :
      (row : AuthSession)
      → family ≡ some row.family_id
      → FamilyText row.family_id
      → is_usable row ≡ true
      → any (has_token row.token_hash) a ≡ false
      → b ≡ a ++ row ∷ []
      → Move family a b
  retires :
      (p : AuthSession → Bool) (f : AuthSession → AuthSession)
      → ((s : AuthSession) → Retired s (f s))
      → b ≡ update_where p f a
      → Move family a b
  replaces :
      (current row : AuthSession) (now : ℕ)
      → find (session_has_id current.id) a ≡ some current
      → is_usable current ≡ true
      → row.family_id ≡ current.family_id
      → row.user_id ≡ current.user_id
      → is_usable row ≡ true
      → any (has_token row.token_hash) a ≡ false
      → b ≡ update_where (rotates current.id) (replaced_by row.id now) (a ++ row ∷ [])
      → Move family a b

-- The relation of the tables.
abbrev pub Moving : Option String → AccountTables → AccountTables → Type 0
Moving family t u = Move family t.sessions u.sessions

-- The sessions stay.
abbrev pub Still : AccountTables → AccountTables → Type 0
Still t u = u.sessions ≡ t.sessions

pub Still-refl : (t : AccountTables) → Still t t
Still-refl t = refl

pub Moving-refl : (family : Option String) (t : AccountTables) → Moving family t t
Moving-refl family t = stays refl

-- A call that moves the sessions behind one that leaves them, and before one.
pub Moving-behind :
    {A B : Type 0} (family : Option String) (m : Exec AccountDb A) (f : A → Exec AccountDb B)
    → Effect Still m
    → ((a : A) → Effect (Moving family) (f a))
    → Effect (Moving family) (m >>= f)
Moving-behind family m f still moving =
    Effect-bind Still (Moving family) (Moving family) m f (λ a b h. stays h)
      (λ a b c h k. rw (sym h) k) still moving

pub Moving-before :
    {A B : Type 0} (family : Option String) (m : Exec AccountDb A) (f : A → Exec AccountDb B)
    → Effect (Moving family) m
    → ((a : A) → Effect Still (f a))
    → Effect (Moving family) (m >>= f)
Moving-before family m f moving still =
    Effect-bind (Moving family) Still (Moving family) m f (λ a b h. h) (λ a b c h k. rw k h) moving
      still

pub Still-bind :
    {A B : Type 0} (m : Exec AccountDb A) (f : A → Exec AccountDb B)
    → Effect Still m
    → ((a : A) → Effect Still (f a))
    → Effect Still (m >>= f)
Still-bind m f start go_on =
    Effect-bind Still Still Still m f (λ a b h. h) (λ a b c h k. rw k h) start go_on

or_error-Still : {A : Type 0} (o : Option A) (e : Error) → Effect Still (or_error o e)
or_error-Still none e = Effect-raise Still Still-refl e
or_error-Still (some a) e = Effect-pure Still Still-refl a

get_session-Still : (i : ℕ) → Effect Still (get_session i)
unfolding get_session
get_session-Still i =
    Effect-check Still Still-refl (required_positive_identifier i "session_id" "get_auth_session") _
      λ a eq. Effect-sql_query Still Still-refl _ _

pub get_session_by_token_hash-Still : (h : String) → Effect Still (get_session_by_token_hash h)
unfolding get_session_by_token_hash
get_session_by_token_hash-Still h =
    Effect-check Still Still-refl
      (required_auth_session_text h "token_hash" "get_auth_session_by_token_hash" 128) _
      λ a eq. Effect-sql_query Still Still-refl _ _

refresh_row-Still : (on_failure : String → Error) (i : ℕ) → Effect Still (refresh_row on_failure i)
unfolding refresh_row
refresh_row-Still on_failure i = Effect-sql Still Still-refl on_failure on_failure _ (λ now t. refl)

set_revoked-Retired : (now : ℕ) (s : AuthSession) → Retired s (set_revoked now s)
set_revoked-Retired now s = ground arith

replaced_by-Retired : (i now : ℕ) (s : AuthSession) → Retired s (replaced_by i now s)
replaced_by-Retired i now s = ground arith

revoke_rows-Moving :
    (family : Option String) (p : AuthSession → Bool)
    → StatementEffect (Moving family) (revoke_rows p)
unfolding revoke_rows
revoke_rows-Moving family p now t = retires _ (set_revoked now) (set_revoked-Retired now) refl

revoke_matching_sessions-Moving :
    (family : Option String) (operation : String) (p : AuthSession → Bool) (details : Fields)
    → Effect (Moving family) (revoke_matching_sessions operation p details)
unfolding revoke_matching_sessions
revoke_matching_sessions-Moving family operation p details =
    Effect-sql (Moving family) (Moving-refl family) _ _ (revoke_rows p)
      (revoke_rows-Moving family p)

pub revoke_user_sessions-Moving :
    (family : Option String) (i : ℕ) → Effect (Moving family) (revoke_user_sessions i)
unfolding revoke_user_sessions
revoke_user_sessions-Moving family i =
    Effect-check (Moving family) (Moving-refl family)
      (required_positive_identifier i "user_id" "revoke_user_auth_sessions") _
      λ id eq.
        revoke_matching_sessions-Moving family "revoke_user_auth_sessions" (owned_by id)
          (owner_details id)

pub revoke_family-Moving :
    (family : Option String) (name : String) → Effect (Moving family) (revoke_family name)
unfolding revoke_family
revoke_family-Moving family name =
    Effect-check (Moving family) (Moving-refl family)
      (required_auth_session_text name "family_id" "revoke_auth_session_family" 36) _
      λ f eq. revoke_matching_sessions-Moving family "revoke_auth_session_family" (in_family f) end

pub revoke_session-Moving :
    (family : Option String) (i : ℕ) → Effect (Moving family) (revoke_session i)
unfolding revoke_session update_session
revoke_session-Moving family i =
    Effect-check (Moving family) (Moving-refl family)
      (required_positive_identifier i "session_id" "revoke_auth_session") _
      λ id eq.
        Moving-before family _ _
          (Effect-sql (Moving family) (Moving-refl family) _ _ _
            λ now t. retires _ (set_revoked now) (set_revoked-Retired now) refl)
          λ updated.
            Still-bind _ _ (get_session-Still _)
              λ session. Still-bind _ _ (or_error-Still session _) λ found. refresh_row-Still _ _

-- An insert behind a test that the digest is new.
insert_session-Moving :
    (user_id : ℕ) (token_hash family_id : String) (expires_at : ℕ)
    → FamilyText family_id
    → StatementEffect
        (Moving (some family_id))
        (insert_session (session_row user_id token_hash family_id expires_at))
unfolding insert_session
insert_session-Moving user_id token_hash family_id expires_at valid now t =
    elim (Bool-cases (any (user_has_id user_id) t.users)) [
      | inl known ↦ elim (Bool-cases (any (has_token token_hash) t.sessions)) [
        | inl taken ↦ rw (known, taken) (stays refl)
        | inr new ↦
            rw (known, new)
              (creates (session_row user_id token_hash family_id expires_at t.next_session now) refl
                valid refl new refl)
      ]
      | inr unknown ↦ rw unknown (stays refl)
    ]

text_check :
    (value name operation text : String) (n : ℕ)
    → required_auth_session_text value name operation n ≡ ok text
    → text ≡ strip value
unfolding required_auth_session_text
text_check value name operation text n h = ground arith

text_again :
    (value operation text : String)
    → required_auth_session_text value "family_id" operation 36 ≡ ok text
    → FamilyText text
unfolding required_auth_session_text
text_again value operation text h = ground (arith, strip-strip value)

-- `create_session` creates in the family that its check leaves.
pub create_session-Moving :
    (payload : NewSession)
    → Effect (Moving (some (strip payload.family_id))) (create_session payload)
unfolding create_session
create_session-Moving payload =
    let family = some (strip payload.family_id) in
    Effect-check (Moving family) (Moving-refl family)
      (required_positive_identifier payload.user_id "user_id" "create_auth_session") _
      λ user_id _.
        Effect-check (Moving family) (Moving-refl family)
          (required_auth_session_text payload.token_hash "token_hash" "create_auth_session" 128) _
          λ hash _.
            Effect-check (Moving family) (Moving-refl family)
              (required_auth_session_text payload.family_id "family_id" "create_auth_session" 36) _
              λ name eq.
                Effect-check (Moving family) (Moving-refl family)
                  (required_auth_session_datetime payload.expires_at "expires_at"
                    "create_auth_session")
                  _
                  λ expires_at _.
                    rw
                      (sym
                        (text_check payload.family_id "family_id" "create_auth_session" name 36 eq))
                      (Effect-savepoint (Moving (some name)) (Moving-refl (some name)) _ (
                        Effect-sql (Moving (some name)) (Moving-refl (some name)) _ _ _ (
                          insert_session-Moving user_id hash name expires_at
                            (text_again payload.family_id "create_auth_session" name eq))))
