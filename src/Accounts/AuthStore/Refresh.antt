-- ===== src/Accounts/AuthStore/Refresh.antt =====
-- What `rotate_session_by_token_hash` has done when it comes back as `rotated`.
use kyrgstudio.Base.{
  leb, ap, subst, ℕ, String, ◌≡◌, ◌≢◌, refl, sym, ◌∙◌, Option, none, some, true, false, arith, inl,
  inr, Bool-cases,
}
use kyrgstudio.Base.Lists.{find}
use kyrgstudio.Base.Text.{strip}
use kyrgstudio.Database.{Result, ok, Exec, ◌>>=◌, pure, sql, sql_query, statement}
use kyrgstudio.Database.Laws.{bind-ok, transaction-ok}
use kyrgstudio.Accounts.{User, AuthSession, AccountTables, AccountDb, user_has_id}
use kyrgstudio.Accounts.Checks.{Datetime, required_auth_session_text, utc_datetime}
use kyrgstudio.Accounts.Users
use kyrgstudio.Accounts.Sessions
use kyrgstudio.Accounts.Sessions.Rotation.{Rotated, rotate_session-ok}
use kyrgstudio.Accounts.Sessions.{has_token, is_usable, rotates, replaced_by}
use kyrgstudio.Accounts.Records.{
  AuthUserRecord, AuthSessionRecord, Rotation, rotated, reused, expired, user_record,
  auth_session_record,
}
use kyrgstudio.Accounts.AuthStore.{fmap, rotate_usable, rotate_for, rotate_found}
use kyrgstudio.Accounts.AuthStore

lookup-ok :
    (h : String) (db : AccountDb) (o : Option AuthSession)
    → (Sessions.get_session_by_token_hash h db).0 ≡ ok o
    → (required_auth_session_text h "token_hash" "get_auth_session_by_token_hash" 128
        ≡ ok (strip h))
      × (o ≡ find (has_token (strip h)) db.tables.sessions)
      × ((Sessions.get_session_by_token_hash h db).1.tables ≡ db.tables)
      × ((Sessions.get_session_by_token_hash h db).1.now ≡ db.now)
unfolding Sessions.get_session_by_token_hash sql_query sql statement required_auth_session_text
lookup-ok h db o e = ground arith

get_user-ok :
    (i : ℕ) (db : AccountDb) (o : Option User)
    → (Users.get_user i db).0 ≡ ok o
    → (o ≡ find (user_has_id i) db.tables.users)
      × ((Users.get_user i db).1.tables ≡ db.tables)
      × ((Users.get_user i db).1.now ≡ db.now)
unfolding Users.get_user sql_query sql statement
get_user-ok i db o e = ground arith

-- A digest that passes the check of the lookup.
abbrev pub TokenText : String → Type 0
TokenText h =
    required_auth_session_text h "token_hash" "get_auth_session_by_token_hash" 128 ≡ ok (strip h)

-- A refresh that came back with the status `rotated`.
pub record Refreshed (h replacement : String) (checked now : ℕ) (before after : AccountTables)
    (u : AuthUserRecord) (c r : AuthSessionRecord) : Type 0 where
  pub current : AuthSession
  pub user : User
  pub pair : AuthSession × AuthSession
  pub found : find (has_token (strip h)) before.sessions ≡ some current
  pub usable : is_usable current ≡ true
  pub early : leb current.expires_at checked ≡ false
  pub owner : find (user_has_id current.user_id) before.users ≡ some user
  pub expires : ℕ
  pub turned : Rotated current.id (strip replacement) expires now before pair after
  pub user_is : u ≡ user_record user
  pub current_is : c ≡ auth_session_record pair.1
  pub replacement_is : r ≡ auth_session_record pair.0
  pub is_text : TokenText h

rotate_for-rotated :
    (current : AuthSession) (o : Option User) (replacement : String) (expires : Datetime)
    (db : AccountDb) (u : AuthUserRecord) (c r : AuthSessionRecord)
    → (rotate_for current o replacement expires db).0 ≡ ok (rotated u c r)
    → (user : User) × (pair : AuthSession × AuthSession) × (t : ℕ) × (o ≡ some user)
      × Rotated current.id
          (strip replacement)
          t
          db.now
          db.tables
          pair
          (rotate_for current o replacement expires db).1.tables
      × (u ≡ user_record user)
      × (c ≡ auth_session_record pair.1)
      × (r ≡ auth_session_record pair.0)
unfolding rotate_for
rotate_for-rotated current none replacement expires db u c r h =
    let (s, eq, e) = bind-ok (Sessions.revoke_session current.id) _ db _ h in
    ground (arith, ap (λ (x : Result Rotation × AccountDb). x.0) e)
rotate_for-rotated current (some user) replacement expires db u c r h =
    let (pair, eq, e) = bind-ok (Sessions.rotate_session current.id replacement expires) _ db _ h in
    let (t, turned) = rotate_session-ok current.id replacement expires db pair eq in
    let result : rotated (user_record user) (auth_session_record pair.1)
          (auth_session_record pair.0)
        ≡ rotated u c r =
      ground (arith, ap (λ (x : Result Rotation × AccountDb). x.0) e) in
    (
      user,
      pair,
      t,
      refl,
      subst
          (λ (d : AccountDb).
            Rotated current.id (strip replacement) t db.now db.tables pair d.tables)
          (sym (ap (λ (x : Result Rotation × AccountDb). x.1) e)) turned,
      ground (arith),
      ground (arith),
      ground (arith),
    )

fmap-other :
    {A : Type 0} (f : A → Rotation) (m : Exec AccountDb A) (db : AccountDb) (u : AuthUserRecord)
    (c r : AuthSessionRecord)
    → ((a : A) → f a ≢ rotated u c r)
    → (fmap f m db).0 ≢ ok (rotated u c r)
fmap-other f m db u c r other e =
    let (a, eq, same) = bind-ok m (λ a. pure (f a)) db (rotated u c r) e in
    other a (ground (arith, ap (λ (x : Result Rotation × AccountDb). x.0) same))

rotate_usable-rotated :
    (h : String) (current : AuthSession) (replacement : String) (expires : Datetime) (checked : ℕ)
    (db : AccountDb) (u : AuthUserRecord) (c r : AuthSessionRecord)
    → find (has_token (strip h)) db.tables.sessions ≡ some current
    → TokenText h
    → is_usable current ≡ true
    → leb current.expires_at checked ≡ false
    → (rotate_usable current replacement expires db).0 ≡ ok (rotated u c r)
    → Refreshed h replacement checked db.now db.tables
        (rotate_usable current replacement expires db).1.tables
        u
        c
        r
rotate_usable-rotated h current replacement expires checked db u c r found is_text usable early e =
    let (o, eq, same) = bind-ok (Users.get_user current.user_id) _ db (rotated u c r) e in
    let mid = (Users.get_user current.user_id db).1 in
    let (is_o, tables, now) = get_user-ok current.user_id db o eq in
    let (user, pair, t, owner, turned, user_is, current_is, replacement_is) =
      rotate_for-rotated current o replacement expires mid u c r
        (ap (λ (x : Result Rotation × AccountDb). x.0) (sym same) ∙ e) in
    record {
      current = current;
      user = user;
      pair = pair;
      found = found;
      usable = usable;
      early = early;
      owner = sym is_o ∙ owner;
      expires = t;
      turned =
          subst
            (λ (d : AccountTables).
              Rotated current.id (strip replacement) t db.now db.tables pair d)
            (ap (λ (x : Result Rotation × AccountDb). x.1.tables) (sym same))
            (subst
              (λ n.
                Rotated current.id (strip replacement) t n db.tables pair
                  (rotate_for current o replacement expires mid).1.tables)
              now
              (subst
                (λ ts.
                  Rotated current.id (strip replacement) t mid.now ts pair
                    (rotate_for current o replacement expires mid).1.tables)
                tables turned));
      user_is = user_is;
      current_is = current_is;
      replacement_is = replacement_is;
      is_text = is_text;
    }

rotate_found-rotated :
    (h : String) (o : Option AuthSession) (replacement : String) (expires : Datetime) (checked : ℕ)
    (db : AccountDb) (u : AuthUserRecord) (c r : AuthSessionRecord)
    → o ≡ find (has_token (strip h)) db.tables.sessions
    → TokenText h
    → (rotate_found o replacement expires checked db).0 ≡ ok (rotated u c r)
    → Refreshed h replacement checked db.now db.tables
        (rotate_found o replacement expires checked db).1.tables
        u
        c
        r
unfolding rotate_found
rotate_found-rotated h none replacement expires checked db u c r found is_text e = ground arith
rotate_found-rotated h (some current) replacement expires checked db u c r found is_text e =
    elim (Bool-cases (is_usable current)) [
      | inr spent ↦ ground (
        arith,
        fmap-other (λ n. reused (auth_session_record current))
            (Sessions.revoke_family current.family_id) db u c r (λ n. ground arith),
      )
      | inl usable ↦ elim (Bool-cases (leb current.expires_at checked)) [
        | inl late ↦ ground (
          arith,
          fmap-other (λ s. expired (auth_session_record s)) (Sessions.revoke_session current.id) db
              u c r (λ n. ground arith),
        )
        | inr early ↦
            rw (usable, early)
              (rotate_usable-rotated h current replacement expires checked db u c r (sym found)
                is_text usable early (ground arith))
      ]
    ]

-- A rotation by digest that returned `rotated` was one of a usable session of the digest.
pub rotate_session_by_token_hash-rotated :
    (h replacement : String) (expires checked : Datetime) (db : AccountDb) (u : AuthUserRecord)
    (c r : AuthSessionRecord)
    → (AuthStore.rotate_session_by_token_hash h replacement expires checked db).0
      ≡ ok (rotated u c r)
    → Refreshed h replacement
        (utc_datetime checked)
        db.now
        db.tables
        (AuthStore.rotate_session_by_token_hash h replacement expires checked db).1.tables
        u
        c
        r
unfolding AuthStore.rotate_session_by_token_hash
rotate_session_by_token_hash-rotated h replacement expires checked db u c r e =
    let block : Exec AccountDb Rotation = Sessions.get_session_by_token_hash h >>= λ current.
    rotate_found current replacement expires (utc_datetime checked) in
    let (returned, kept) = transaction-ok block db (rotated u c r) e in
    let (o, eq, same) =
      bind-ok (Sessions.get_session_by_token_hash h) _ db (rotated u c r) returned in
    let (is_text, is_o, tables, now) = lookup-ok h db o eq in
    let mid = (Sessions.get_session_by_token_hash h db).1 in
    let refreshed =
      rotate_found-rotated h o replacement expires (utc_datetime checked) mid u c r
        (is_o ∙ ap (λ (t : AccountTables). find (has_token (strip h)) t.sessions) (sym tables))
        is_text (ap (λ (x : Result Rotation × AccountDb). x.0) (sym same) ∙ returned) in
    subst (λ t. Refreshed h replacement (utc_datetime checked) db.now db.tables t u c r)
      (ap (λ (x : Result Rotation × AccountDb). x.1.tables) (sym same) ∙ sym kept)
      (subst
        (λ n.
          Refreshed h replacement (utc_datetime checked) n db.tables
            (rotate_found o replacement expires (utc_datetime checked) mid).1.tables u c r)
        now
        (subst
          (λ t.
            Refreshed h replacement (utc_datetime checked) mid.now t
              (rotate_found o replacement expires (utc_datetime checked) mid).1.tables u c r)
          tables refreshed))
