-- ===== src/Accounts/AuthStore/Creation.antt =====
-- What `create_password_reset_token` and `_create_user_with_session` leave.
use kyrgstudio.Base.{
  zero, suc, Bool-cases, ap, subst, ℕ, String, ◌≡◌, refl, sym, ◌∙◌, List, [], ◌∷◌, ◌++◌, Bool, true,
  false, arith, str_eq, leb, inl, inr, ◌==◌, ==_refl, if◌then◌else◌,
}
use kyrgstudio.Base.Lists.{any, select, update_where}
use kyrgstudio.Base.Text.{strip}
use kyrgstudio.Errors.{Error}
use kyrgstudio.Database.{Result, ok, err, sql, statement, transaction, savepoint}
use kyrgstudio.Database.Laws.{transaction-err, transaction-ok}
use kyrgstudio.Accounts.{PasswordResetToken, AccountTables, AccountDb, user_has_id}
use kyrgstudio.Accounts.Checks.{
  Datetime, utc_datetime, required_sensitive_text, positive_identifier,
}
use kyrgstudio.Accounts.ResetTokens
use kyrgstudio.Accounts.ResetTokens.{
  pending_of, set_used, reset_row, revoke_pending_rows, insert_reset,
}
use kyrgstudio.Accounts.Records.{PasswordResetTokenRecord, password_reset_token_record}
use kyrgstudio.Accounts.AuthStore
use kyrgstudio.Accounts.AuthStore.{replace_reset_token}

none_pending :
    (i at : ℕ) (a : List PasswordResetToken)
    → select (pending_of i) (update_where (pending_of i) (set_used at) a) ≡ []
unfolding select update_where
none_pending i at [] = refl
none_pending i at (t ∷ a) = ground (arith, none_pending i at a)

others_stay :
    (i k at : ℕ) (a : List PasswordResetToken)
    → (k == i) ≡ false
    → select (pending_of k) (update_where (pending_of i) (set_used at) a) ≡ select (pending_of k) a
unfolding select update_where
others_stay i k at [] other = refl
others_stay i k at (t ∷ a) other = ground (arith, others_stay i k at a other)

select-append :
    (p : PasswordResetToken → Bool) (a : List PasswordResetToken) (t : PasswordResetToken)
    → select p (a ++ t ∷ []) ≡ select p a ++ (if p t then t ∷ [] else [])
unfolding select
select-append p [] t = ground arith
select-append p (x ∷ a) t = ground (arith, select-append p a t)

select-append_other :
    (p : PasswordResetToken → Bool) (a : List PasswordResetToken) (t : PasswordResetToken)
    → p t ≡ false
    → select p (a ++ t ∷ []) ≡ select p a
unfolding select
select-append_other p [] t other = ground arith
select-append_other p (x ∷ a) t other = ground (arith, select-append_other p a t other)

-- What the creation of a reset token leaves of the pending tokens.
pub record Replaced (i : ℕ) (hash : String) (expires now : ℕ) (before after : AccountTables)
    (r : PasswordResetTokenRecord) : Type 0 where
  pub record_is :
      r ≡ password_reset_token_record (reset_row i hash expires before.next_reset_token now)
  pub only :
      select (pending_of i) after.reset_tokens
      ≡ reset_row i hash expires before.next_reset_token now ∷ []
  pub others :
      (k : ℕ)
      → (k == i) ≡ false
      → select (pending_of k) after.reset_tokens ≡ select (pending_of k) before.reset_tokens
  pub known : any (user_has_id i) before.users ≡ true
  pub sessions : after.sessions ≡ before.sessions
  pub users : after.users ≡ before.users

replaced_tables :
    (i : ℕ) (hash : String) (expires requested : ℕ) (db : AccountDb) (r : PasswordResetTokenRecord)
    → (replace_reset_token i hash expires requested db).0 ≡ ok r
    → (r ≡ password_reset_token_record (reset_row i hash expires db.tables.next_reset_token db.now))
      × ((replace_reset_token i hash expires requested db).1.tables.reset_tokens
          ≡ update_where (pending_of i) (set_used requested) db.tables.reset_tokens
            ++ reset_row i hash expires db.tables.next_reset_token db.now ∷ [])
      × (any (user_has_id i) db.tables.users ≡ true)
      × ((replace_reset_token i hash expires requested db).1.tables.sessions ≡ db.tables.sessions)
      × ((replace_reset_token i hash expires requested db).1.tables.users ≡ db.tables.users)
unfolding replace_reset_token ResetTokens.revoke_pending_tokens_for_user revoke_pending_rows
    ResetTokens.create_token insert_reset savepoint sql statement
replaced_tables i hash expires requested db r h = ground arith

replace-Replaced :
    (i : ℕ) (hash : String) (expires requested now : ℕ) (before after : AccountTables)
    (r : PasswordResetTokenRecord)
    → (r ≡ password_reset_token_record (reset_row i hash expires before.next_reset_token now))
      × (after.reset_tokens
          ≡ update_where (pending_of i) (set_used requested) before.reset_tokens
            ++ reset_row i hash expires before.next_reset_token now ∷ [])
      × (any (user_has_id i) before.users ≡ true)
      × (after.sessions ≡ before.sessions)
      × (after.users ≡ before.users)
    → Replaced i hash expires now before after r
replace-Replaced i hash expires requested now before after r
      (is_r, tokens, known, sessions, users) =
    let row = reset_row i hash expires before.next_reset_token now in
    let old = update_where (pending_of i) (set_used requested) before.reset_tokens in
    record {
      record_is = is_r;
      only =
          ap (select (pending_of i)) tokens
          ∙ select-append (pending_of i) old row
          ∙ rw (none_pending i requested before.reset_tokens) (rw (==_refl i) refl);
      others = λ k other.
          ap (select (pending_of k)) tokens
          ∙ select-append_other (pending_of k) old row (ground arith)
          ∙ others_stay i k requested before.reset_tokens other;
      known = known;
      sessions = sessions;
      users = users;
    }

-- What the call did: all of it, or nothing.
abbrev pub Replaces :
    ℕ → String → ℕ → AccountDb → Result PasswordResetTokenRecord × AccountDb → Type 0
Replaces i hash expires db (err e, after) = after.tables ≡ db.tables
Replaces i hash expires db (ok r, after) = Replaced i hash expires db.now db.tables after.tables r

committed :
    (i : ℕ) (hash : String) (expires requested : ℕ) (db : AccountDb)
    → Replaces i hash expires db (transaction (replace_reset_token i hash expires requested) db)
committed i hash expires requested db =
    whole (transaction (replace_reset_token i hash expires requested) db)
      (transaction-err (replace_reset_token i hash expires requested) db)
      λ r h.
        let (returned, kept) =
          transaction-ok (replace_reset_token i hash expires requested) db r h in
        subst (λ t. Replaced i hash expires db.now db.tables t r) (sym kept)
          (replace-Replaced i hash expires requested db.now db.tables _ r
            (replaced_tables i hash expires requested db r returned))
  where
    whole :
        (x : Result PasswordResetTokenRecord × AccountDb)
        → ((e : Error) → x.0 ≡ err e → x.1.tables ≡ db.tables)
        → ((r : PasswordResetTokenRecord)
            → x.0 ≡ ok r
            → Replaced i hash expires db.now db.tables x.1.tables r)
        → Replaces i hash expires db x
    whole (err e, after) fails works = fails e refl
    whole (ok r, after) fails works = works r refl

-- The creation of a password-reset token, whatever the database does, either raises and changes no
-- table, or leaves the new token, with the digest and the expiry of the request, as the only
-- unused one of the user, who is in the table; the unused tokens of other users, the users and the
-- sessions are as before.
pub create_reset-Replaces :
    (i : ℕ) (hash : String) (expires requested : Datetime) (db : AccountDb)
    → Replaces i
        (strip hash)
        (utc_datetime expires)
        db
        (AuthStore.create_password_reset_token i hash expires requested db)
unfolding AuthStore.create_password_reset_token positive_identifier required_sensitive_text
create_reset-Replaces zero hash expires requested db = refl
create_reset-Replaces (suc i) hash expires requested db =
    elim (Bool-cases (str_eq (strip hash) "")) [
      | inl blank ↦ rw blank refl
      | inr given ↦ elim (Bool-cases (leb (utc_datetime expires) (utc_datetime requested))) [
        | inl late ↦ rw (given, late) refl
        | inr early ↦
            rw (given, early)
              (committed (suc i) (strip hash) (utc_datetime expires) (utc_datetime requested) db)
      ]
    ]
