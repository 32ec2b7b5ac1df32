-- ===== src/Accounts/AuthStore/ResetKeeps.antt =====
-- The calls of `AuthStore` leave the used tokens of a digest used.
use kyrgstudio.Base.{
  ℕ, String, ◌≡◌, ◌≢◌, refl, sym, Option, none, some, List, [], ◌∷◌, ◌++◌, Bool, false, ◌&&◌, arith,
  subst, inl, inr, Bool-cases, str_eq_iff,
}
use kyrgstudio.Base.Lists.{All, select, update_where}
use kyrgstudio.Base.Text.{strip}
use kyrgstudio.Database.{Exec, ◌>>=◌}
use kyrgstudio.Database.Effects.{
  Effect, StatementEffect, Effect-bind, Effect-pure, Effect-raise, Effect-sql, Effect-savepoint,
}
use kyrgstudio.Accounts.{PasswordResetToken, AccountTables, AccountDb, is_none}
use kyrgstudio.Accounts.ResetTokens
use kyrgstudio.Accounts.ResetTokens.{reset_has_hash, reset_row, set_used}
use kyrgstudio.Accounts.AuthStore.{reset_password}
use kyrgstudio.Accounts.AuthStore.Calls.{Call, perform}
use kyrgstudio.Accounts.AuthStore.Calls
use kyrgstudio.Accounts.AuthStore.Calls.{Event, call, weather, react, history}
use kyrgstudio.Accounts.AuthStore.ResetMoves.{
  Same, revoke_user_sessions-Same, update_password_hash-Same,
}

-- The tokens of the digest are used, if there are any.
abbrev pub Closed : String → List PasswordResetToken → Type 0
Closed h tokens = All (λ t. (reset_has_hash h t && is_none t.used_at) ≡ false) tokens

abbrev pub Keeping : String → AccountTables → AccountTables → Type 0
Keeping h t u = Closed h t.reset_tokens → Closed h u.reset_tokens

pub Keeping-same :
    {A : Type 0} (h : String) (m : Exec AccountDb A) → Effect Same m → Effect (Keeping h) m
Keeping-same h m same = record { holds = λ db k. subst (Closed h) (sym (same.holds db)) k }

-- The call creates no reset token with the digest.
abbrev pub OtherToken : String → Call → Type 0
OtherToken h (Calls.create_password_reset_token i hash expires requested) = strip hash ≢ h
OtherToken h _ = Unit

pub update-Closed :
    (h : String) (p : PasswordResetToken → Bool) (at : ℕ) (a : List PasswordResetToken)
    → Closed h a
    → Closed h (update_where p (set_used at) a)
unfolding update_where
update-Closed h p at [] k = tt
update-Closed h p at (t ∷ a) (first, rest) = (ground arith, update-Closed h p at a rest)

select-Closed :
    (h : String) (p : PasswordResetToken → Bool) (a : List PasswordResetToken)
    → Closed h a
    → Closed h (select p a)
unfolding select
select-Closed h p [] k = tt
select-Closed h p (t ∷ a) (first, rest) = elim (Bool-cases (p t)) [
  | inl stays ↦ rw stays (first, select-Closed h p a rest)
  | inr goes ↦ rw goes (select-Closed h p a rest)
]

append-Closed :
    (h : String) (a : List PasswordResetToken) (t : PasswordResetToken)
    → reset_has_hash h t ≡ false
    → Closed h a
    → Closed h (a ++ t ∷ [])
append-Closed h [] t other k = (rw other refl, tt)
append-Closed h (x ∷ a) t other (first, rest) = (first, append-Closed h a t other rest)

module _ (h : String) where
  pub Keeping-refl : (t : AccountTables) → Keeping h t t
  Keeping-refl t k = k

  pub Keeping-bind :
      {A B : Type 0} (m : Exec AccountDb A) (f : A → Exec AccountDb B)
      → Effect (Keeping h) m
      → ((a : A) → Effect (Keeping h) (f a))
      → Effect (Keeping h) (m >>= f)
  Keeping-bind m f start go_on =
      Effect-bind (Keeping h) (Keeping h) (Keeping h) m f (λ a b k. k) (λ a b c k l x. l (k x))
        start go_on

  pub revoke_pending-Keeping :
      (i at : ℕ) → Effect (Keeping h) (ResetTokens.revoke_pending_tokens_for_user i at)
  unfolding ResetTokens.revoke_pending_tokens_for_user ResetTokens.revoke_pending_rows
  revoke_pending-Keeping i at =
      Effect-sql (Keeping h) Keeping-refl _ _ _ (λ now t. update-Closed h _ at t.reset_tokens)

  pub consume_token-Keeping :
      (hash : String) (at : ℕ) → Effect (Keeping h) (ResetTokens.consume_token hash at)
  unfolding ResetTokens.consume_token ResetTokens.consume_row
  consume_token-Keeping hash at =
      Keeping-bind _ _
        (Effect-sql (Keeping h) Keeping-refl _ _ _ (λ now t. update-Closed h _ at t.reset_tokens))
        λ o. consumed-Keeping o
    where
      consumed-Keeping :
          (o : Option PasswordResetToken) → Effect (Keeping h) (ResetTokens.consumed o)
      consumed-Keeping none = Effect-raise (Keeping h) Keeping-refl _
      consumed-Keeping (some t) = Effect-pure (Keeping h) Keeping-refl t

  pub insert-Keeping :
      (i : ℕ) (hash : String) (expires : ℕ)
      → hash ≢ h
      → StatementEffect (Keeping h) (ResetTokens.insert_reset (reset_row i hash expires))
  unfolding ResetTokens.insert_reset
  insert-Keeping i hash expires other now t k = ground (
    arith,
    k,
    append-Closed h t.reset_tokens (reset_row i hash expires t.next_reset_token now),
    str_eq_iff hash h,
  )

  pub create_token-Keeping :
      (i : ℕ) (hash : String) (expires : ℕ)
      → hash ≢ h
      → Effect (Keeping h) (ResetTokens.create_token i hash expires)
  unfolding ResetTokens.create_token
  create_token-Keeping i hash expires other =
      Effect-savepoint (Keeping h) Keeping-refl _
        (Effect-sql (Keeping h) Keeping-refl _ _ _ (insert-Keeping i hash expires other))

  pub delete_expired-Keeping :
      (before : ℕ) → Effect (Keeping h) (ResetTokens.delete_expired_tokens before)
  unfolding ResetTokens.delete_expired_tokens ResetTokens.delete_expired_rows
  delete_expired-Keeping before =
      Effect-sql (Keeping h) Keeping-refl _ _ _ (λ now t. select-Closed h _ t.reset_tokens)

  pub reset_password-Keeping :
      (hash password : String) (at : ℕ) → Effect (Keeping h) (reset_password hash password at)
  unfolding reset_password
  reset_password-Keeping hash password at =
      Keeping-bind _ _ (consume_token-Keeping hash at) λ token.
        Keeping-bind _ _ (Keeping-same h _ (update_password_hash-Same token.user_id password))
          λ user.
            Keeping-bind _ _ (Keeping-same h _ (revoke_user_sessions-Same token.user_id))
              λ n. Effect-pure (Keeping h) Keeping-refl _
