-- ===== src/Auth/Tokens.antt =====
-- src/app/auth/tokens.py: access tokens over the JWT library, and refresh tokens.
pub mod RoundTrip
use Prim.Native.String.{count, [], ◌∷◌}
use Prim.Native.Char.{code}
use kyrgstudio.Base.{
  ℕ, ◌+◌, String, Option, none, some, Bool, true, false, ◌&&◌, ◌||◌, not, str_eq, leb, ltb, ◌==◌,
  if◌then◌else◌,
}
use kyrgstudio.Base.Int.{ℤ, pos, negsuc}
use kyrgstudio.Base.Json
use kyrgstudio.Base.Json.{Json, get, text, int, float, object, array, null}
use kyrgstudio.Base.Text.{strip, parse_int}
use kyrgstudio.Errors.{ErrorClass, Error, foreign, new_error}
use kyrgstudio.Database.{Result, ok, err, bind_result, Exec, pure, raise, lift, ◌>>=◌, catch}
use kyrgstudio.Base.Decimal.{decimal, all_digits}
use kyrgstudio.Auth.{Outside, AuthConfig, AccessPayload, seconds}
use kyrgstudio.Auth.Principal.{Principal, Claims, claims, value_error}

abbrev pub invalid_token : String → Error
invalid_token message = new_error ErrorClass.invalid_token message none Json.end

-- `ACCESS_TOKEN_TYPE`
abbrev pub access_token_type : String
access_token_type = "access"

-- `_POSITIVE_DECIMAL_PATTERN.fullmatch`
unfoldable pub is_positive_decimal : String → Bool
unfolding all_digits
is_positive_decimal [] = false
is_positive_decimal (c ∷ s) = leb 49 (code c) && leb (code c) 57 && all_digits s

abbrev natural : Option ℤ → Result ℕ
natural (some (pos n)) = ok n
natural _ = err value_error

-- `_subject_user_id`
unfoldable pub subject_user_id : Option Json → Result ℕ
unfolding is_positive_decimal parse_int
subject_user_id (some (text s)) =
    if is_positive_decimal s then natural (parse_int s) else err value_error
subject_user_id _ = err value_error

-- `_claim_text`
unfoldable pub claim_text : Option Json → Result String
unfolding strip
claim_text (some (text s)) =
    if not (str_eq (strip s) "") && str_eq (strip s) s then ok s else err value_error
claim_text _ = err value_error

-- `_encoded_access_token` of a string
unfoldable pub encoded_access_token : String → Result String
unfolding new_error
encoded_access_token value =
    if not (str_eq value "") && str_eq value (strip value) && leb (count value) 16384
    then ok value
    else err (invalid_token "Access token has an invalid format.")

-- `_refresh_token` of a string
unfoldable pub refresh_token : String → Result String
refresh_token value =
    if not (str_eq value "") && str_eq value (strip value) && leb (count value) 1024
    then ok value
    else err value_error

module _ {X : Type 0} (out : Outside X) (config : AuthConfig) where
  -- `_numeric_date`; a date past the year 9999, for which `datetime.fromtimestamp` raises, is taken
  -- as it is
  unfoldable pub numeric_date : Option Json → Result ℕ
  numeric_date (some (int (pos n))) = ok (seconds n)
  numeric_date (some (int (negsuc n))) = out.other_date (int (negsuc n))
  numeric_date (some (float bits)) = out.other_date (float bits)
  numeric_date _ = err value_error

  abbrev is_access : Option Json → Bool
  is_access (some (text s)) = str_eq s access_token_type
  is_access _ = false

  abbrev read_claims : Json.Fields → Result Claims
  read_claims fields = bind_result (subject_user_id (get "sub" fields)) λ user_id.
      bind_result (claim_text (get "jti" fields)) λ token_id.
        bind_result (numeric_date (get "iat" fields)) λ issued_at.
          bind_result (numeric_date (get "nbf" fields)) λ not_before.
            bind_result (numeric_date (get "exp" fields))
              λ expires_at. claims user_id token_id issued_at not_before expires_at

  -- `_access_token_claims`
  unfoldable pub access_token_claims : Json.Fields → Result Claims
  unfolding get subject_user_id claim_text numeric_date claims
  access_token_claims fields =
      if is_access (get "type" fields) then read_claims fields else err value_error

  -- The payload of a principal's token.
  unfoldable pub payload : Principal → ℕ → String → AccessPayload
  unfolding decimal
  payload principal issued_at jti = record {
    sub = decimal principal.user_id;
    iss = config.issuer;
    aud = config.audience;
    iat = issued_at;
    nbf = issued_at;
    exp = issued_at + seconds config.access_ttl_seconds;
    jti = jti;
    token_type = access_token_type;
  }

  abbrev issue_failed : Error → Error
  issue_failed (foreign name) =
      if out.is_jwt_error name
      then new_error ErrorClass.auth_configuration "Failed to issue an access token." none Json.end
      else foreign name
  issue_failed e = e

  -- `AccessTokenService.issue`
  unfoldable pub issue : Principal → Exec X String
  unfolding payload new_error
  issue principal = do
    issued_at ← out.clock
    jti ← out.uuid_hex
    catch (out.jwt_encode (payload principal issued_at jti)) λ e. raise (issue_failed e)

  abbrev decode_failed : Error → Error
  decode_failed (foreign name) =
      if out.is_jwt_error name
        || str_eq name "TypeError"
        || str_eq name "ValueError"
        || str_eq name "OverflowError"
      then invalid_token "Access token validation failed."
      else foreign name
  decode_failed e = e

  -- `AccessTokenService.decode`
  unfoldable pub decode : String → Exec X Claims
  unfolding encoded_access_token access_token_claims new_error
  decode token = do
    encoded ← lift (encoded_access_token token)
    catch
        (do
          fields ← out.jwt_decode encoded config.audience config.issuer config.clock_skew_seconds
          lift (access_token_claims fields))
        λ e. raise (decode_failed e)

  -- `RefreshTokenGenerator.digest`
  unfoldable pub digest : String → Result String
  unfolding refresh_token
  digest token = bind_result (refresh_token token) λ normalized. ok (out.sha256 normalized)
