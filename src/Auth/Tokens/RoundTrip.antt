-- ===== src/Auth/Tokens/RoundTrip.antt =====
-- An access token that was issued is decoded to the identity that it was issued for.
use Prim.Native.String.{[], ◌∷◌}
use kyrgstudio.Base.{
  ap, ℕ, zero, suc, ◌+◌, ◌/◌, ◌%◌, ◌<◌, String, ◌≡◌, refl, some, true, false, inl, inr, arith,
  str_eq, str_eq_refl, ltb, Bool-cases,
}
use kyrgstudio.Base.Decimal.{decimal, decimal_from, digit, all_digits}
use kyrgstudio.Base.Decimal.Laws.{code-digit, parse_int-decimal}
use kyrgstudio.Base.Int.{pos}
use kyrgstudio.Base.Json
use kyrgstudio.Base.Json.{Json, text, int, field, end, get}
use kyrgstudio.Base.Text.{strip}
use kyrgstudio.Database.{ok}
use kyrgstudio.Auth.{Outside, AuthConfig, AccessPayload, seconds}
use kyrgstudio.Auth.Principal.{Principal, Claims, claims, positive_user_id, required_text}
use kyrgstudio.Auth.Tokens.{
  is_positive_decimal, subject_user_id, claim_text, numeric_date, access_token_claims, payload,
  issue, decode, encoded_access_token,
}

positive-decimal_from :
    (fuel n : ℕ) (rest : String)
    → n < fuel
    → 0 < n
    → all_digits rest ≡ true
    → is_positive_decimal (decimal_from fuel n rest) ≡ true
unfolding decimal_from is_positive_decimal all_digits
positive-decimal_from zero n rest h positive digits = absurd (omega (arith, h))
positive-decimal_from (suc fuel) n rest h positive digits = elim (Bool-cases (ltb n 10)) [
  | inl small ↦ ground (arith, code-digit n)
  | inr large ↦ rw large (
      positive-decimal_from fuel (n / 10) (digit (n % 10) ∷ rest) (ground arith) (ground arith)
        (ground (arith, code-digit (n % 10))))
]

-- The id of a user is read back from the subject that it is written to.
subject-decimal : (n : ℕ) → subject_user_id (some (text (decimal (suc n)))) ≡ ok (suc n)
unfolding subject_user_id decimal
subject-decimal n =
    rw (positive-decimal_from (suc n + 1) (suc n) [] (omega arith) (omega arith) refl)
      (rw (parse_int-decimal (suc n)) refl)

-- The fields of the payload as JWT carries them: dates in whole seconds.
abbrev pub signed_fields : AccessPayload → Json.Fields
signed_fields p = field "sub" (text p.sub) (
    field "iss" (text p.iss) (
      field "aud" (text p.aud) (
        field "iat" (int (pos (p.iat / 1000000))) (
          field "nbf" (int (pos (p.nbf / 1000000))) (
            field "exp" (int (pos (p.exp / 1000000)))
              (field "jti" (text p.jti) (field "type" (text p.token_type) end)))))))

module _ {X : Type 0} (out : Outside X) (config : AuthConfig) where
  -- The claims of a token for the user.
  abbrev pub claims_of : Principal → ℕ → String → Claims
  claims_of who issued jti = record {
    user_id = who.user_id;
    token_id = jti;
    issued_at = seconds (issued / 1000000);
    not_before = seconds (issued / 1000000);
    expires_at = seconds ((issued + seconds config.access_ttl_seconds) / 1000000);
  }

  claims_read :
      (who : Principal) (n m issued : ℕ) (jti : String)
      → who.user_id ≡ suc n
      → config.access_ttl_seconds ≡ suc m
      → strip jti ≡ jti
      → str_eq jti "" ≡ false
      → access_token_claims out config (signed_fields (payload out config who issued jti))
        ≡ ok (claims_of who issued jti)
  unfolding access_token_claims payload get claim_text numeric_date claims positive_user_id
      required_text
  claims_read who n m issued jti id ttl trimmed given = ground (
    arith,
    subject-decimal n,
    ap (λ (k : ℕ). subject_user_id (some (text (decimal k)))) id,
    str_eq_refl jti,
  )

  -- A token issued for a principal with a positive id, whose text passes the checks of tokens and
  -- whose identifier is trimmed text, is decoded to claims of this user, with this identifier and
  -- the dates of the issue in whole seconds; the JWT library gives the token for the payload, and
  -- at the configured audience and issuer gives the payload for the token, as it does while it is
  -- valid.
  pub issue-decode :
      (who : Principal) (n m issued : ℕ) (jti token : String) (x x1 x2 x3 y z : X)
      → who.user_id ≡ suc n
      → config.access_ttl_seconds ≡ suc m
      → strip jti ≡ jti
      → str_eq jti "" ≡ false
      → encoded_access_token token ≡ ok token
      → out.clock x ≡ (ok issued, x1)
      → out.uuid_hex x1 ≡ (ok jti, x2)
      → out.jwt_encode (payload out config who issued jti) x2 ≡ (ok token, x3)
      → out.jwt_decode token config.audience config.issuer config.clock_skew_seconds y
        ≡ (ok (signed_fields (payload out config who issued jti)), z)
      → (issue out config who x ≡ (ok token, x3))
        × (decode out config token y ≡ (ok (claims_of who issued jti), z))
  unfolding issue decode
  issue-decode who n m issued jti token x x1 x2 x3 y z id ttl trimmed given well clock uuid encodes
        decodes =
      (
        rw (clock, uuid, encodes) refl,
        rw (well, decodes, claims_read who n m issued jti id ttl trimmed given) refl,
      )
