-- ===== src/Accounts/AuthStore/Checked.antt =====
-- The families of the sessions stay as the checks of the store leave them.
use kyrgstudio.Base.{
  subst, String, ◌≡◌, sym, Option, none, some, List, [], ◌∷◌, ◌++◌, Bool, arith, Bool-cases, inl,
  inr,
}
use kyrgstudio.Base.Lists.{All, find, update_where}
use kyrgstudio.Accounts.{AuthSession, AccountDb}
use kyrgstudio.Accounts.Checks.{Datetime}
use kyrgstudio.Accounts.Sessions.{rotates, replaced_by}
use kyrgstudio.Accounts.Sessions.Moves.{
  Move, stays, creates, retires, replaces, Retired, FamilyText,
}
use kyrgstudio.Accounts.AuthStore
use kyrgstudio.Accounts.AuthStore.{rotate_found}
use kyrgstudio.Accounts.AuthStore.Calls.{
  Event, call, weather, react, history, perform, rotate_session_by_token_hash,
}
use kyrgstudio.Accounts.AuthStore.Moves.{perform-Move}

-- The families of the table are as the checks leave them.
abbrev pub Checked : List AuthSession → Type 0
Checked sessions = All (λ s. FamilyText s.family_id) sessions

append-Checked :
    (a : List AuthSession) (row : AuthSession)
    → FamilyText row.family_id
    → Checked a
    → Checked (a ++ row ∷ [])
append-Checked [] row valid h = (valid, tt)
append-Checked (s ∷ a) row valid (first, rest) = (first, append-Checked a row valid rest)

update-Checked :
    (p : AuthSession → Bool) (f : AuthSession → AuthSession) (a : List AuthSession)
    → ((s : AuthSession) → Retired s (f s))
    → Checked a
    → Checked (update_where p f a)
unfolding update_where
update-Checked p f [] retired h = tt
update-Checked p f (s ∷ a) retired (first, rest) = (
  elim (Bool-cases (p s)) [
    | inl meets ↦ rw meets (subst FamilyText (sym (retired s).family_id) first)
    | inr other ↦ rw other first
  ],
  update-Checked p f a retired rest,
)

pub find-Checked :
    (p : AuthSession → Bool) (a : List AuthSession) (s : AuthSession)
    → Checked a
    → find p a ≡ some s
    → FamilyText s.family_id
unfolding find
find-Checked p [] s h found = ground arith
find-Checked p (x ∷ a) s (first, rest) found = elim (Bool-cases (p x)) [
  | inl here ↦
      let same : x ≡ s = ground arith in
      subst (λ (y : AuthSession). FamilyText y.family_id) same first
  | inr other ↦ find-Checked p a s rest (ground arith)
]

Move-Checked :
    (family : Option String) (a b : List AuthSession) → Move family a b → Checked a → Checked b
Move-Checked family a b (stays e) h = subst Checked (sym e) h
Move-Checked family a b (creates row opens valid usable fresh e) h =
    subst Checked (sym e) (append-Checked a row valid h)
Move-Checked family a b (retires p f retired e) h =
    subst Checked (sym e) (update-Checked p f a retired h)
Move-Checked family a b (replaces current row now found usable fam user opens fresh e) h =
    subst Checked (sym e) (
      update-Checked (rotates current.id) (replaced_by row.id now) (a ++ row ∷ [])
        (λ s. ground arith)
        (append-Checked a row (subst FamilyText (sym fam) (find-Checked _ a current h found)) h))

pub history-Checked :
    (es : List Event) (db : AccountDb)
    → Checked db.tables.sessions
    → Checked (history es db).tables.sessions
unfolding history react
history-Checked [] db h = h
history-Checked (call c ∷ es) db h =
    history-Checked es (perform c db)
      (Move-Checked _ db.tables.sessions (perform c db).tables.sessions (perform-Move c db) h)
history-Checked (weather now outages ∷ es) db h =
    history-Checked es (record db { now = now; outages = outages }) h

-- A rotation is a history of one call.
pub rotation-Checked :
    (h replacement : String) (expires checked : Datetime) (db : AccountDb)
    → Checked db.tables.sessions
    → Checked
        (AuthStore.rotate_session_by_token_hash h replacement expires checked db).1.tables.sessions
unfolding perform
rotation-Checked h replacement expires checked db valid =
    Move-Checked none db.tables.sessions _
      (perform-Move (rotate_session_by_token_hash h replacement expires checked) db) valid
