-- ===== src/Auth/Sessions/Once.antt =====
-- A refresh token is accepted once by `AuthService.refresh`.
use kyrgstudio.Base.{
  ap, subst, ℕ, String, ◌≡◌, ◌≢◌, refl, sym, ◌∙◌, arith, Bool-cases, inl, inr, List,
}
use kyrgstudio.Database.{Result, ok, lift}
use kyrgstudio.Database.Laws.{bind-ok}
use kyrgstudio.Accounts.{AccountDb}
use kyrgstudio.Accounts.Checks.{aware}
use kyrgstudio.Accounts.Records.{
  AuthUserRecord, AuthSessionRecord, Rotation, rotated, not_found, expired, reused, user_not_found,
  disabled,
}
use kyrgstudio.Accounts.AuthStore
use kyrgstudio.Accounts.AuthStore.Calls.{Event, history}
use kyrgstudio.Accounts.AuthStore.Once.{rotate_once}
use kyrgstudio.Auth.{AuthWorld, Outside, AuthConfig, in_accounts, in_outside}
use kyrgstudio.Auth.Service.{
  AuthenticationResult, RefreshTokenMaterial, refresh_token_digest, new_refresh_token,
}
use kyrgstudio.Auth.Sessions.{finish_refresh, refresh}

-- A rotation of the digest in the table, and the table behind it.
pub record Rotates (h : String) (before after : AccountDb) : Type 0 where
  pub replacement : String
  pub expires : ℕ
  pub checked : ℕ
  pub user : AuthUserRecord
  pub current : AuthSessionRecord
  pub row : AuthSessionRecord
  pub returned :
      (AuthStore.rotate_session_by_token_hash h replacement
        (aware expires)
        (aware checked)
        before).0
      ≡ ok (rotated user current row)
  pub db :
      after
      ≡ (AuthStore.rotate_session_by_token_hash h replacement
          (aware expires)
          (aware checked)
          before).1

module _ {X : Type 0} (out : Outside X) (config : AuthConfig) where
  finish_refresh-ok :
      (r : Rotation) (material : RefreshTokenMaterial) (w : AuthWorld X)
      (res : AuthenticationResult)
      → (finish_refresh out config r material w).0 ≡ ok res
      → (user : AuthUserRecord) × (current : AuthSessionRecord) × (row : AuthSessionRecord) × (r
          ≡ rotated user current row)
        × ((finish_refresh out config r material w).1.db ≡ w.db)
  unfolding finish_refresh
  finish_refresh-ok (rotated user current row) material w res e =
      elim (Bool-cases (disabled user)) [
        | inl off ↦ (user, current, row, refl, ground arith)
        | inr on ↦ (user, current, row, refl, ground arith)
      ]
  finish_refresh-ok not_found material w res e = ground arith
  finish_refresh-ok (expired s) material w res e = ground arith
  finish_refresh-ok (reused s) material w res e = ground arith
  finish_refresh-ok (user_not_found s) material w res e = ground arith

  -- A refresh that returned has rotated the digest of its token.
  refresh-Rotates :
      (token : String) (w : AuthWorld X) (res : AuthenticationResult)
      → (refresh out config token w).0 ≡ ok res
      → (h : String) × (refresh_token_digest out config token ≡ ok h)
        × Rotates h w.db (refresh out config token w).1.db
  unfolding refresh
  refresh-Rotates token w res e =
      let (h, is_h, e1) = bind-ok (lift (refresh_token_digest out config token)) _ w res e in
      let k1 = first (sym e1) ∙ e in
      let (checked, is_checked, e2) = bind-ok (in_outside out.clock) _ w res k1 in
      let w2 = (in_outside out.clock w).1 in
      let k2 = first (sym e2) ∙ k1 in
      let (material, is_material, e3) =
        bind-ok (in_outside (new_refresh_token out config checked)) _ w2 res k2 in
      let w3 = (in_outside (new_refresh_token out config checked) w2).1 in
      let k3 = first (sym e3) ∙ k2 in
      let rotate =
        AuthStore.rotate_session_by_token_hash h material.token_hash (aware material.expires_at)
          (aware checked) in
      let (rotation, is_rotation, e4) = bind-ok (in_accounts rotate) _ w3 res k3 in
      let w4 = (in_accounts rotate w3).1 in
      let k4 = first (sym e4) ∙ k3 in
      let (user, current, row, is_rotated, same) = finish_refresh-ok rotation material w4 res k4 in
      (
        h,
        is_h,
        record {
          replacement = material.token_hash;
          expires = material.expires_at;
          checked = checked;
          user = user;
          current = current;
          row = row;
          returned = is_rotation ∙ ap (λ (r : Rotation). ok r) is_rotated;
          db =
              ap (λ (x : Result AuthenticationResult × AuthWorld X). x.1.db) (e1 ∙ e2 ∙ e3 ∙ e4)
              ∙ same;
        },
      )
    where
      first : {x y : Result AuthenticationResult × AuthWorld X} → x ≡ y → x.0 ≡ y.0
      first p = ap (λ (x : Result AuthenticationResult × AuthWorld X). x.0) p

  -- After a refresh with a token has returned, no refresh with the same token returns, whatever
  -- calls of AuthStore other processes have made on the database in between and whatever state the
  -- outside is in.
  pub refresh_once :
      (token : String) (w : AuthWorld X) (res : AuthenticationResult)
      → (refresh out config token w).0 ≡ ok res
      → (es : List Event) (outside : X) (res2 : AuthenticationResult)
      → (refresh out config token
          (record { db = history es (refresh out config token w).1.db; outside = outside })).0
        ≢ ok res2
  refresh_once token w res e es outside res2 e2 =
      let (h, is_h, d) = refresh-Rotates token w res e in
      let w2 : AuthWorld X = record {
        db = history es (refresh out config token w).1.db;
        outside = outside;
      } in
      let (h2, is_h2, d2) = refresh-Rotates token w2 res2 e2 in
      let same : h2 ≡ h = ground (arith, is_h, is_h2) in
      let again = subst (λ g. Rotates g w2.db (refresh out config token w2).1.db) same d2 in
      rotate_once h d.replacement (aware d.expires) (aware d.checked) w.db d.user d.current d.row
        d.returned es again.replacement (aware again.expires) (aware again.checked) again.user
        again.current again.row
        (ap
            (λ (db : AccountDb).
              (AuthStore.rotate_session_by_token_hash h again.replacement (aware again.expires)
                (aware again.checked) (history es db)).0)
            (sym d.db)
          ∙ again.returned)
