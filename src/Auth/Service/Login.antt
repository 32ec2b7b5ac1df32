-- ===== src/Auth/Service/Login.antt =====
-- `AuthService.login_with_password` returns only for a password that was verified.
use kyrgstudio.Base.{
  ap, String, ◌≡◌, ◌≢◌, refl, sym, ◌∙◌, arith, Bool, true, false, Bool-cases, inl, inr, Option,
  none, some, ◌&&◌,
}
use kyrgstudio.Base.Lists.{find}
use kyrgstudio.Errors.{foreign, app}
use kyrgstudio.Database.{
  Result-cases, Result, ok, err, lift, ◌>>=◌, read_scope, sql_query, sql, statement,
}
use kyrgstudio.Database.Laws.{bind-ok}
use kyrgstudio.Accounts.{User, AccountDb}
use kyrgstudio.Accounts.Checks
use kyrgstudio.Accounts.Users
use kyrgstudio.Accounts.Users.{has_email}
use kyrgstudio.Accounts.Records.{
  AuthUserRecord, user_record, optional_user_record, disabled, email_verified,
}
use kyrgstudio.Accounts.AuthStore
use kyrgstudio.Auth.{AuthWorld, Outside, AuthConfig, in_accounts, in_outside}
use kyrgstudio.Auth.Passwords.{
  verify_and_update, checked, refused, may_verify, is_encoded_hash_candidate,
}
use kyrgstudio.Auth.Service.{
  AuthenticationResult, login_email, require_active_user, stored_hash, matched, require_verified,
  rehashed, create_session_and_result, login_with_password,
}

module _ {X : Type 0} (out : Outside X) (config : AuthConfig) where
  refused_not : (x : X) (updated : Option String) → (refused out config x).0 ≢ ok (true, updated)
  refused_not x updated e =
      let outcome : Result (Bool × Option String) = ok (false, none) in
      let (d, eq, same) = bind-ok out.dummy_verification (λ d. lift outcome) x (true, updated) e in
      ground (arith, ap (λ (r : Result (Bool × Option String) × X). r.0) same)

  checked-true :
      (r : Result (Bool × Option String) × X) (updated : Option String)
      → (checked out config r).0 ≡ ok (true, updated)
      → r.0 ≡ ok (true, updated)
  checked-true (ok (true, u), x) updated e = e
  checked-true (ok (false, u), x) updated e = ground arith
  checked-true (err (foreign name), x) updated e = ground (arith, refused_not x updated)
  checked-true (err (app c m s d), x) updated e = ground arith

  -- A password that was found to match was verified against the stored hash.
  verify_and_update-true :
      (password : String) (stored : Option String) (x : X) (updated : Option String)
      → (verify_and_update out config password stored x).0 ≡ ok (true, updated)
      → (hash : String) × (stored ≡ some hash)
        × ((out.argon2_verify password hash x).0 ≡ ok (true, updated))
  unfolding verify_and_update
  verify_and_update-true password none x updated e = absurd (refused_not x updated e)
  verify_and_update-true password (some hash) x updated e = (
    hash,
    refl,
    elim (Bool-cases
        (may_verify out config password && is_encoded_hash_candidate out config hash)) [
          | inl may ↦ checked-true (out.argon2_verify password hash x) updated (ground arith)
          | inr not_may ↦ ground (arith, refused_not x updated)
        ],
  )

  lookup-ok :
      (email : String) (db : AccountDb) (o : Option AuthUserRecord)
      → (AuthStore.get_user_by_email email db).0 ≡ ok o
      → (t : String) × (Checks.normalize_email (some email) "email" "get_user_by_email" ≡ ok t)
        × (o ≡ optional_user_record (find (has_email t) db.tables.users))
        × ((AuthStore.get_user_by_email email db).1.tables ≡ db.tables)
  unfolding AuthStore.get_user_by_email read_scope Users.get_user_by_email sql_query sql statement
  lookup-ok email db o e =
      elim (Result-cases (Checks.normalize_email (some email) "email" "get_user_by_email")) [
        | inl (t, eq) ↦ (t, eq, ground (arith, eq), ground (arith, eq))
        | inr (z, eq) ↦ ground (arith, eq)
      ]

  matched-ok :
      (o : Option AuthUserRecord) (b : Bool) (u : AuthUserRecord)
      → matched out config o b ≡ ok u
      → (o ≡ some u) × (b ≡ true)
  matched-ok none true u e = ground arith
  matched-ok none false u e = ground arith
  matched-ok (some v) true u e = ground arith
  matched-ok (some v) false u e = ground arith

  -- The checks behind the verification of the password.
  admitted-ok :
      (found : Option AuthUserRecord) (matches : Bool) (updated : Option String) (w : AuthWorld X)
      (res : AuthenticationResult)
      → ((do
        user ← lift (matched out config found matches)
        active ← lift (require_active_user user)
        verified ← lift (require_verified out config user)
        current ← rehashed out config user updated
        create_session_and_result out config current)
          w).0
        ≡ ok res
      → (user : AuthUserRecord) × (found ≡ some user)
        × (matches ≡ true)
        × (disabled user ≡ false)
        × (email_verified user ≡ true)
  unfolding require_active_user
  admitted-ok none true updated w res e = ground arith
  admitted-ok none false updated w res e = ground arith
  admitted-ok (some user) false updated w res e = ground arith
  admitted-ok (some user) true updated w res e = elim (Bool-cases (disabled user)) [
    | inl off ↦ ground arith
    | inr on ↦ elim (Bool-cases (email_verified user)) [
      | inl yes_verified ↦ (user, refl, refl, on, yes_verified)
      | inr not_verified ↦ ground arith
    ]
  ]

  -- Who a login let in.
  pub record Admitted (email password : String) (w : AuthWorld X) : Type 0 where
    pub address : String
    pub row : User
    pub hash : String
    pub updated : Option String
    pub is_address :
        (t : String) × (login_email email ≡ ok t)
        × (Checks.normalize_email (some t) "email" "get_user_by_email" ≡ ok address)
    pub found : find (has_email address) w.db.tables.users ≡ some row
    pub hash_is : row.password_hash ≡ some hash
    pub verified : (out.argon2_verify password hash w.outside).0 ≡ ok (true, updated)
    pub active : row.disabled_at ≡ none
    pub confirmed : row.email_verified_at ≢ none

  -- A login with a password that returned found, for the address given, a user whose stored hash
  -- the password was verified against, who is not disabled and whose email is verified.
  pub login-Admitted :
      (email password : String) (w : AuthWorld X) (res : AuthenticationResult)
      → (login_with_password out config email password w).0 ≡ ok res
      → Admitted email password w
  unfolding login_with_password
  login-Admitted email password w res e =
      let (t, is_t, e1) = bind-ok (lift (login_email email)) _ w res e in
      let k1 = first (sym e1) ∙ e in
      let (found, is_found, e2) =
        bind-ok (in_accounts (AuthStore.get_user_by_email t)) _ w res k1 in
      let w2 = (in_accounts (AuthStore.get_user_by_email t) w).1 in
      let k2 = first (sym e2) ∙ k1 in
      let verify = verify_and_update out config password (stored_hash out config found) in
      let (outcome, is_outcome, e3) = bind-ok (in_outside verify) _ w2 res k2 in
      let w3 = (in_outside verify w2).1 in
      let k3 = first (sym e3) ∙ k2 in
      let (user, is_user, matches, active, confirmed) =
        admitted-ok found outcome.0 outcome.1 w3 res k3 in
      let (address, is_address, is_record, tables) = lookup-ok t w.db found is_found in
      let (row, is_row, user_is) =
        row_of (find (has_email address) w.db.tables.users) user (sym is_record ∙ is_user) in
      let (hash, hash_is, verified) =
        verify_and_update-true password (stored_hash out config found) w.outside outcome.1
          (is_outcome ∙ pairs outcome matches) in
      record {
        address = address;
        row = row;
        hash = hash;
        updated = outcome.1;
        is_address = (t, is_t, is_address);
        found = is_row;
        hash_is =
            ap (λ (u : AuthUserRecord). u.password_hash) (sym user_is)
            ∙ sym (ap (stored_hash out config) is_user)
            ∙ hash_is;
        verified = verified;
        active = ground arith;
        confirmed = ground arith;
      }
    where
      first : {x y : Result AuthenticationResult × AuthWorld X} → x ≡ y → x.0 ≡ y.0
      first p = ap (λ (x : Result AuthenticationResult × AuthWorld X). x.0) p

      pairs :
          (o : Bool × Option String)
          → o.0 ≡ true
          → ◌≡◌ {A = Result (Bool × Option String)} (ok o) (ok (true, o.1))
      pairs o h = ap (λ (b : Bool). ok (b, o.1)) h

      row_of :
          (o : Option User) (user : AuthUserRecord)
          → optional_user_record o ≡ some user
          → (row : User) × (o ≡ some row) × (user ≡ user_record row)
      row_of none user h = ground arith
      row_of (some row) user h = (row, refl, ground arith)
