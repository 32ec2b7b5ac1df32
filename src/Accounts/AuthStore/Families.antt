-- ===== src/Accounts/AuthStore/Families.antt =====
-- The families of refresh sessions: at most one session of a family can be used, and none after a
-- spent token has been presented.
use kyrgstudio.Base.{
  subst, ℕ, ◌+◌, ◌≤◌, String, ◌≡◌, refl, ◌∙◌, Option, none, some, List, [], ◌∷◌, ◌++◌, Bool, true,
  false, ◌&&◌, arith, inl, inr, Bool-cases, str_eq_iff, ==_refl,
}
use kyrgstudio.Base.Lists.{length, select, find, any, update_where, find-append}
use kyrgstudio.Accounts.{AuthSession, AccountDb, is_none}
use kyrgstudio.Accounts.Sessions.{in_family, is_usable, rotates, replaced_by, session_has_id}
use kyrgstudio.Accounts.Sessions.Moves.{Move, stays, creates, retires, replaces, Retired}
use kyrgstudio.Accounts.AuthStore.Calls.{
  Event, call, weather, react, history, perform, opened_family,
}
use kyrgstudio.Accounts.AuthStore.Moves.{perform-Move}

-- A session of the family that is not revoked.
abbrev pub live_in : String → AuthSession → Bool
live_in family session = in_family family session && is_none session.revoked_at

abbrev pub live_count : String → List AuthSession → ℕ
live_count family sessions = length (select (live_in family) sessions)

live_count-append :
    (f : String) (a : List AuthSession) (row : AuthSession)
    → live_count f (a ++ row ∷ []) ≤ live_count f a + 1
unfolding select
live_count-append f [] row = ground arith
live_count-append f (s ∷ a) row = ground (arith, live_count-append f a row)

live_count-other :
    (f : String) (a : List AuthSession) (row : AuthSession)
    → live_in f row ≡ false
    → live_count f (a ++ row ∷ []) ≡ live_count f a
unfolding select
live_count-other f [] row h = ground arith
live_count-other f (s ∷ a) row h = ground (arith, live_count-other f a row h)

live_count-update :
    (f : String) (p : AuthSession → Bool) (g : AuthSession → AuthSession) (a : List AuthSession)
    → ((s : AuthSession) → Retired s (g s))
    → live_count f (update_where p g a) ≤ live_count f a
unfolding select update_where
live_count-update f p g [] retired = ground arith
live_count-update f p g (s ∷ a) retired =
    ground (arith, live_count-update f p g a retired, (retired s).revoked)

-- An update that meets a live session of the family lowers the count.
live_count-meets :
    (f : String) (p : AuthSession → Bool) (g : AuthSession → AuthSession) (i : ℕ)
    (a : List AuthSession) (current : AuthSession)
    → ((s : AuthSession) → Retired s (g s))
    → find (session_has_id i) a ≡ some current
    → p current ≡ true
    → live_in f current ≡ true
    → live_count f (update_where p g a) + 1 ≤ live_count f a
unfolding select update_where find
live_count-meets f p g i [] current retired h meets lives = ground arith
live_count-meets f p g i (s ∷ a) current retired h meets lives =
    elim (Bool-cases (session_has_id i s)) [
      | inl here ↦ ground (arith, live_count-update f p g a retired, (retired s).revoked)
      | inr other ↦ ground (arith, live_count-meets f p g i a current retired, (retired s).revoked)
    ]

-- Each family has at most one session that can be used.
abbrev pub OneLive : List AuthSession → Type 0
OneLive sessions = (f : String) → live_count f sessions ≤ 1

-- The family is new to the table.
abbrev pub NewFamily : Option String → List AuthSession → Type 0
NewFamily none sessions = Unit
NewFamily (some family) sessions = any (in_family family) sessions ≡ false

live_count-new :
    (f : String) (a : List AuthSession) → any (in_family f) a ≡ false → live_count f a ≡ 0
unfolding select any
live_count-new f [] h = refl
live_count-new f (s ∷ a) h = ground (arith, live_count-new f a)

live_count-replace :
    (f : String) (current row : AuthSession) (now : ℕ) (a : List AuthSession)
    → find (session_has_id current.id) a ≡ some current
    → is_usable current ≡ true
    → row.family_id ≡ current.family_id
    → live_count f (update_where (rotates current.id) (replaced_by row.id now) (a ++ row ∷ []))
      ≤ live_count f a
live_count-replace f current row now a found usable fam = elim (Bool-cases (live_in f current)) [
  | inl lives ↦ ground (
    arith,
    live_count-meets f (rotates current.id) (replaced_by row.id now) current.id (a ++ row ∷ [])
        current (λ s. ground arith)
        (find-append (session_has_id current.id) a (row ∷ []) ∙ rw found refl)
        (ground (arith, ==_refl current.id)) lives,
    live_count-append f a row,
  )
  | inr other ↦ ground (
    arith,
    live_count-update f (rotates current.id) (replaced_by row.id now) (a ++ row ∷ [])
        (λ s. ground arith),
    live_count-other f a row (ground arith),
  )
]

Move-OneLive :
    (family : Option String) (a b : List AuthSession)
    → Move family a b
    → NewFamily family a
    → OneLive a
    → OneLive b
Move-OneLive family a b (stays e) new one f = rw e (one f)
Move-OneLive family a b (creates row opens valid usable fresh e) new one f =
    elim (Bool-cases (live_in f row)) [
      | inl lives ↦
          let same : row.family_id ≡ f = ground (arith, str_eq_iff row.family_id f) in
          let empty : any (in_family f) a ≡ false =
            subst (λ g. any (in_family g) a ≡ false) same (subst (λ o. NewFamily o a) opens new) in
          rw e (ground (arith, live_count-append f a row, live_count-new f a empty))
      | inr other ↦ rw e (ground (arith, live_count-other f a row other, one f))
    ]
Move-OneLive family a b (retires p g retired e) new one f =
    rw e (ground (arith, live_count-update f p g a retired, one f))
Move-OneLive family a b (replaces current row now found usable fam user opens fresh e) new one f =
    rw e (ground (arith, live_count-replace f current row now a found usable fam, one f))

-- The calls of a history open sessions in families that are new at the time, as random ones are.
abbrev pub OpensNew : List Event → AccountDb → Type 0
OpensNew [] db = Unit
OpensNew (call c ∷ es) db =
    NewFamily (opened_family c) db.tables.sessions × OpensNew es (perform c db)
OpensNew (weather now outages ∷ es) db = OpensNew es (record db { now = now; outages = outages })

-- In a table where each family has at most one session that is not revoked, each family still has
-- at most one after every history of calls that open sessions in new families only, with whatever
-- rotations, revocations, failures of the database and passages of time.
pub history-OneLive :
    (es : List Event) (db : AccountDb)
    → OpensNew es db
    → OneLive db.tables.sessions
    → OneLive (history es db).tables.sessions
unfolding history react
history-OneLive [] db new one = one
history-OneLive (call c ∷ es) db new one = history-OneLive es (perform c db) new.1 (
    Move-OneLive (opened_family c) db.tables.sessions (perform c db).tables.sessions
      (perform-Move c db) new.0 one)
history-OneLive (weather now outages ∷ es) db new one =
    history-OneLive es (record db { now = now; outages = outages }) new one
