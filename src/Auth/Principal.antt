-- ===== src/Auth/Principal.antt =====
-- src/app/auth/principal.py: the contracts, by the checks of `__post_init__`. A `TypeError` or a
-- `ValueError` is an exception that is none of the application's.
use Prim.Native.String.{[], ◌∷◌}
use Prim.Native.Char.{code}
use kyrgstudio.Base.{
  ℕ, zero, suc, String, Option, none, some, Bool, false, ◌&&◌, ◌||◌, not, str_eq, leb, ltb, ◌==◌,
  if◌then◌else◌,
}
use kyrgstudio.Base.Text.{strip, lower, has_char, or_none, is_space, before_char}
use kyrgstudio.Errors.{Error, foreign}
use kyrgstudio.Database.{Result, ok, err, bind_result}

abbrev pub value_error : Error
value_error = foreign "ValueError"

-- `AuthenticatedPrincipal`
pub record Principal : Type 0 where
  pub user_id : ℕ
  pub email : String
  pub name : Option String
  pub auth_provider : String
  pub email_verified : Bool

-- `AccessTokenClaims`
pub record Claims : Type 0 where
  pub user_id : ℕ
  pub token_id : String
  pub issued_at : ℕ
  pub not_before : ℕ
  pub expires_at : ℕ

-- `IssuedAuthTokens`
pub record IssuedTokens : Type 0 where
  pub access_token : String
  pub refresh_token : String
  pub access_token_expires_at : ℕ
  pub refresh_token_expires_at : ℕ

-- `_positive_user_id` of an `int` that is not negative
unfoldable pub positive_user_id : ℕ → Result ℕ
positive_user_id zero = err value_error
positive_user_id (suc n) = ok (suc n)

-- `_required_text` of a string
unfoldable pub required_text : String → Result String
required_text value =
    let normalized = strip value in if str_eq normalized "" then err value_error else ok normalized

-- `_optional_text` of a string or `None`
unfoldable pub optional_text : Option String → Option String
optional_text none = none
optional_text (some value) = or_none (strip value)

unfoldable pub has_space : String → Bool
unfolding is_space
has_space [] = false
has_space (c ∷ s) = is_space (code c) || has_space s

-- `s.partition(c)[2]` for a separator of one character
unfoldable pub after_char : ℕ → String → String
after_char n [] = []
after_char n (c ∷ s) = if code c == n then s else after_char n s

-- The tests of an address: one `@`, text on both sides of it, and no white space. With one `@`, a
-- partition from the right is one from the left.
unfoldable pub is_address : String → Bool
unfolding has_char before_char after_char has_space
is_address email =
    has_char 64 email
    && not (str_eq (before_char 64 email) "")
    && not (str_eq (after_char 64 email) "")
    && not (has_char 64 (after_char 64 email))
    && not (has_space email)

abbrev address : String → Result String
address email = if is_address email then ok email else err value_error

-- `_normalized_email`
unfoldable pub normalized_email : String → Result String
unfolding required_text lower is_address
normalized_email value = bind_result (required_text value) λ text. address (lower text)

-- `AuthenticatedPrincipal(…)`
unfoldable pub principal : ℕ → String → Option String → String → Bool → Result Principal
unfolding positive_user_id normalized_email optional_text required_text lower
principal user_id email name auth_provider email_verified =
    bind_result (positive_user_id user_id) λ id. bind_result (normalized_email email) λ address.
      bind_result (required_text auth_provider) λ provider. ok (record {
        user_id = id;
        email = address;
        name = optional_text name;
        auth_provider = lower provider;
        email_verified = email_verified;
      })

-- `AccessTokenClaims(…)` at dates with a time zone
unfoldable pub claims : ℕ → String → ℕ → ℕ → ℕ → Result Claims
unfolding positive_user_id required_text
claims user_id token_id issued_at not_before expires_at =
    bind_result (positive_user_id user_id) λ id. bind_result (required_text token_id) λ token.
      if leb expires_at issued_at || ltb expires_at not_before
      then err value_error
      else ok (record {
        user_id = id;
        token_id = token;
        issued_at = issued_at;
        not_before = not_before;
        expires_at = expires_at;
      })

-- `IssuedAuthTokens(…)` at dates with a time zone
unfoldable pub issued_tokens : String → String → ℕ → ℕ → Result IssuedTokens
unfolding required_text
issued_tokens access_token refresh_token access_expires refresh_expires =
    bind_result (required_text access_token) λ access.
      bind_result (required_text refresh_token) λ refresh.
        if leb refresh_expires access_expires
        then err value_error
        else ok (record {
          access_token = access;
          refresh_token = refresh;
          access_token_expires_at = access_expires;
          refresh_token_expires_at = refresh_expires;
        })
