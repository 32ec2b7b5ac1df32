-- ===== src/Accounts/AuthStore/ResetOnce.antt =====
-- A password-reset token is used once.
use kyrgstudio.Base.{
  ap, ℕ, ◌≤◌, String, ◌≡◌, ◌≢◌, refl, sym, some, List, [], ◌∷◌, false, arith, subst, inl, inr,
  Bool-cases,
}
use kyrgstudio.Base.Lists.{length, find, select, update_where}
use kyrgstudio.Base.Text.{strip}
use kyrgstudio.Database.{Result, ok, err}
use kyrgstudio.Accounts.{PasswordResetToken, AccountTables, AccountDb}
use kyrgstudio.Accounts.Checks.{Datetime, utc_datetime}
use kyrgstudio.Accounts.Records.{AuthUserRecord}
use kyrgstudio.Accounts.AuthStore.Resets.{Reset, AllOrNothing, reset-AllOrNothing}
use kyrgstudio.Accounts.ResetTokens.{reset_has_hash, set_used, consumable}
use kyrgstudio.Accounts.AuthStore
use kyrgstudio.Accounts.AuthStore.{
  fmap, replace_reset_token, check_expiry, password_payload, rotate_found, rotate_for,
  reset_password,
}
use kyrgstudio.Accounts.AuthStore.Calls.{Event, history}
use kyrgstudio.Accounts.AuthStore.ResetKeeps.{Closed, update-Closed}
use kyrgstudio.Accounts.AuthStore.ResetHistory.{OtherTokens, history-Closed}

-- A digest that is unique among the tokens of a table.
abbrev pub OneToken : String → List PasswordResetToken → Type 0
OneToken h tokens = length (select (reset_has_hash h) tokens) ≤ 1

absent-Closed :
    (h : String) (a : List PasswordResetToken)
    → length (select (reset_has_hash h) a) ≡ 0
    → Closed h a
unfolding select
absent-Closed h [] e = tt
absent-Closed h (t ∷ a) e = elim (Bool-cases (reset_has_hash h t)) [
  | inl here ↦ ground arith
  | inr other ↦ (rw other refl, absent-Closed h a (ground arith))
]

found-counted :
    (h : String) (at : ℕ) (a : List PasswordResetToken) (token : PasswordResetToken)
    → find (consumable h at) a ≡ some token
    → 1 ≤ length (select (reset_has_hash h) a)
unfolding select find
found-counted h at [] token found = ground arith
found-counted h at (t ∷ a) token found = elim (Bool-cases (consumable h at t)) [
  | inl here ↦ ground arith
  | inr other ↦ ground (arith, found-counted h at a token)
]

-- The one token that was found is used behind the update.
consumed-Closed :
    (h : String) (at : ℕ) (a : List PasswordResetToken) (token : PasswordResetToken)
    → OneToken h a
    → find (consumable h at) a ≡ some token
    → Closed h (update_where (consumable h at) (set_used at) a)
unfolding select find update_where
consumed-Closed h at [] token one found = tt
consumed-Closed h at (t ∷ a) token one found = elim (Bool-cases (consumable h at t)) [
  | inl here ↦ (
    rw here (ground arith),
    update-Closed h (consumable h at) at a (absent-Closed h a (ground arith)),
  )
  | inr other ↦
      let later : find (consumable h at) a ≡ some token = ground arith in
      let free : reset_has_hash h t ≡ false = ground (arith, found-counted h at a token later) in
      (rw other (rw free refl), consumed-Closed h at a token (ground arith) later)
]

Closed-find :
    (h : String) (at : ℕ) (a : List PasswordResetToken) (token : PasswordResetToken)
    → Closed h a
    → find (consumable h at) a ≢ some token
unfolding find
Closed-find h at [] token k found = ground arith
Closed-find h at (t ∷ a) token (first, rest) found = ground (arith, Closed-find h at a token rest)

returned-Reset :
    (h password : String) (at : Datetime) (db : AccountDb) (u : AuthUserRecord)
    → (AuthStore.reset_password_with_token h password at db).0 ≡ ok u
    → Reset
        (strip h)
        (strip password)
        (utc_datetime at)
        db.now
        db.tables
        (AuthStore.reset_password_with_token h password at db).1.tables
        u
returned-Reset h password at db u e =
    read (AuthStore.reset_password_with_token h password at db)
      (reset-AllOrNothing h password at db) e
  where
    read :
        (r : Result AuthUserRecord × AccountDb)
        → AllOrNothing (strip h) (strip password) (utc_datetime at) db r
        → r.0 ≡ ok u
        → Reset (strip h) (strip password) (utc_datetime at) db.now db.tables r.1.tables u
    read (err x, after) d same = ground arith
    read (ok v, after) d same =
        let equal : v ≡ u = ground arith in
        subst
          (λ w. Reset (strip h) (strip password) (utc_datetime at) db.now db.tables after.tables w)
          equal d.0

-- After a reset of a password by a token has returned, in a table that has the digest at most
-- once, no reset by this digest returns, after whatever calls of AuthStore that create no reset
-- token with the same digest, failures of the database and passages of time.
pub reset_once :
    (h password : String) (at : Datetime) (db : AccountDb) (u : AuthUserRecord)
    → OneToken (strip h) db.tables.reset_tokens
    → (AuthStore.reset_password_with_token h password at db).0 ≡ ok u
    → (es : List Event) → OtherTokens (strip h) es
    → (password2 : String) (at2 : Datetime) (u2 : AuthUserRecord)
    → (AuthStore.reset_password_with_token h password2 at2
        (history es (AuthStore.reset_password_with_token h password at db).1)).0
      ≢ ok u2
reset_once h password at db u one e es other password2 at2 u2 e2 =
    let after = (AuthStore.reset_password_with_token h password at db).1 in
    let d = returned-Reset h password at db u e in
    let closed =
      subst (Closed (strip h)) (ap (λ (t : AccountTables). t.reset_tokens) (sym d.tables))
        (consumed-Closed (strip h) (utc_datetime at) db.tables.reset_tokens d.token one d.found) in
    let d2 = returned-Reset h password2 at2 (history es after) u2 e2 in
    Closed-find (strip h) (utc_datetime at2) (history es after).tables.reset_tokens d2.token
      (history-Closed (strip h) es after other closed) d2.found
