-- ===== src/Auth/Tests.antt =====
-- The theorems on the services of src/app/auth with an outside that keeps the last payload it signed.
use kyrgstudio.Base.{String, ◌≡◌, ◌≢◌, refl, none, some, List, [], ◌∷◌, true, false, str_eq}
use kyrgstudio.Base.Decimal.{decimal}
use kyrgstudio.Base.Json
use kyrgstudio.Base.Json.{Json, end}
use kyrgstudio.Base.Text.{strip}
use kyrgstudio.Database.{ok, err}
use kyrgstudio.Auth.{AuthWorld, Outside, AuthConfig}
use kyrgstudio.Auth.Principal.{Principal, value_error}
use kyrgstudio.Auth.Tokens.{issue, decode, encoded_access_token, payload}
use kyrgstudio.Base.Decimal.{decimal_from, digit, all_digits}
use kyrgstudio.Base.Json.{get}
use kyrgstudio.Base.Lists.{find, any, update_where}
use kyrgstudio.Base.Text.{lower, has_char, before_char, is_space, parse_int, parse_digits}
use kyrgstudio.Database.{
  sql, sql_query, savepoint, statement, query, commit, transaction, read_scope,
}
use kyrgstudio.Accounts.{User, AuthSession}
use kyrgstudio.Accounts.Checks.{
  required_auth_session_text, required_auth_session_datetime, required_positive_identifier,
  utc_datetime, required_value,
}
use kyrgstudio.Accounts.Checks
use kyrgstudio.Accounts.Users
use kyrgstudio.Accounts.Users.{user_row}
use kyrgstudio.Accounts.Sessions
use kyrgstudio.Accounts.Sessions.{session_row}
use kyrgstudio.Accounts.AuthStore
use kyrgstudio.Accounts.AuthStore.{rotate_found, rotate_for}
use kyrgstudio.Accounts.AuthStore.Calls
use kyrgstudio.Accounts.AuthStore.Calls.{Event, call, weather, history}
use kyrgstudio.Auth.Principal.{
  principal, positive_user_id, normalized_email, required_text, optional_text, is_address,
  has_space, after_char, issued_tokens, claims,
}
use kyrgstudio.Auth.Passwords.{verify_and_update, is_encoded_hash_candidate}
use kyrgstudio.Auth.Service
use kyrgstudio.Auth.Service.{
  AuthenticationResult, refresh_token_digest, new_refresh_token, authentication_result,
  principal_from_user, login_email, login_with_password, create_session_and_result,
  require_active_user,
}
use kyrgstudio.Auth.Service.Login.{Admitted, login-Admitted}
use kyrgstudio.Auth.Sessions.{finish_refresh, refresh}
use kyrgstudio.Auth.Sessions.Once.{refresh_once}
use kyrgstudio.Auth.Tokens
use kyrgstudio.Auth.Tokens.{
  digest as token_digest, access_token_claims, subject_user_id, is_positive_decimal, claim_text,
  numeric_date,
}
use kyrgstudio.Auth.Tokens.RoundTrip.{signed_fields, claims_of, issue-decode}

abbrev outside : Outside Json.Fields
outside = record {
  clock = λ x. (ok 50000000, x);
  random_token = λ x. (ok "random", x);
  new_uuid = λ x. (ok "family", x);
  uuid_hex = λ x. (ok "abc", x);
  sha256 = λ s. s;
  argon2_hash = λ s x. (ok s, x);
  argon2_verify = λ s h x. (ok (str_eq s h, none), x);
  dummy_verification = λ x. (ok tt, x);
  is_pwdlib_error = λ s. false;
  is_jwt_error = λ s. false;
  jwt_encode = λ p x. (ok "signed", signed_fields p);
  jwt_decode = λ t a i n x. (ok x, x);
  other_date = λ j. err value_error;
  urlencode_token = λ s. s;
  google = none;
  send = λ m x. (ok tt, x);
}

abbrev config : AuthConfig
config = record {
  min_password_length = 8;
  max_password_length = 128;
  issuer = "kyrg";
  audience = "web";
  clock_skew_seconds = 30;
  access_ttl_seconds = 900;
  refresh_ttl_seconds = 86400;
  reset_ttl_seconds = 1800;
  verification_ttl_seconds = 86400;
  public_web_url = "https://example.com";
}

abbrev ana : Principal
ana = record {
  user_id = 1;
  email = "ana@example.com";
  name = none;
  auth_provider = "password";
  email_verified = true;
}

abbrev issued : Json.Fields
issued = signed_fields (payload outside config ana 50000000 "abc")

signed_ok : encoded_access_token "signed" ≡ ok "signed"
unfolding encoded_access_token strip
signed_ok = refl

abc_trimmed : ◌≡◌ {A = String} (strip "abc") "abc"
unfolding strip
abc_trimmed = refl

issue-decode_example :
    (issue outside config ana end ≡ (ok "signed", issued))
    × (decode outside config "signed" issued
        ≡ (ok (claims_of outside config ana 50000000 "abc"), issued))
issue-decode_example =
    issue-decode outside config ana 0 899 50000000 "abc" "signed" end end end issued issued issued
      refl refl abc_trimmed refl signed_ok refl refl refl refl

abbrev user : User
user = user_row "ana@example.com" "password" (some "secret123") none none none (some 20) 1 10

abbrev session : AuthSession
session = session_row 1 "old" "family" 90000000 1 20

abbrev world : AuthWorld Json.Fields
world = record {
  db = record {
    tables = record {
      users = user ∷ [];
      sessions = session ∷ [];
      email_tokens = [];
      reset_tokens = [];
      next_user = 2;
      next_session = 2;
      next_email_token = 1;
      next_reset_token = 1;
    };
    now = 50000000;
    outages = [];
  };
  outside = end;
}

abbrev entered : AuthenticationResult
entered = record {
  principal = ana;
  tokens = record {
    access_token = "signed";
    refresh_token = "random";
    access_token_expires_at = 950000000;
    refresh_token_expires_at = 86450000000;
  };
}

refresh_returns : (refresh outside config "old" world).0 ≡ ok entered
unfolding refresh finish_refresh refresh_token_digest new_refresh_token authentication_result
    principal_from_user principal positive_user_id normalized_email required_text optional_text
    is_address has_space issued_tokens claims token_digest Tokens.refresh_token issue decode payload
    encoded_access_token access_token_claims subject_user_id is_positive_decimal all_digits
    claim_text numeric_date get parse_int parse_digits decimal decimal_from digit has_char
    before_char after_char is_space lower AuthStore.rotate_session_by_token_hash rotate_found
    rotate_for Sessions.get_session_by_token_hash Sessions.rotate_session Sessions.rotate_block
    Sessions.get_session_for_update Sessions.insert_session Sessions.update_session
    Sessions.refresh_row Users.get_user sql sql_query savepoint statement query commit transaction
    find any update_where strip required_auth_session_text required_auth_session_datetime
    required_positive_identifier utc_datetime
refresh_returns = refl

abbrev meanwhile : List Event
meanwhile = weather 60000000 [] ∷ call (Calls.revoke_user_sessions 1) ∷ []

refresh_once_example :
    (refresh outside config "old" (record {
      db = history meanwhile (refresh outside config "old" world).1.db;
      outside = end;
    })).0
    ≢ ok entered
refresh_once_example =
    refresh_once outside config "old" world entered refresh_returns meanwhile end entered

login_returns :
    (login_with_password outside config " Ana@example.com" "secret123" world).0 ≡ ok entered
unfolding login_with_password login_email Service.normalized_email AuthStore.get_user_by_email
    Users.get_user_by_email Checks.normalize_email required_value read_scope verify_and_update
    is_encoded_hash_candidate require_active_user create_session_and_result AuthStore.create_session
    Sessions.create_session new_refresh_token authentication_result principal_from_user principal
    positive_user_id normalized_email required_text optional_text is_address has_space issued_tokens
    claims token_digest Tokens.refresh_token issue decode payload encoded_access_token
    access_token_claims subject_user_id is_positive_decimal all_digits claim_text numeric_date get
    parse_int parse_digits decimal decimal_from digit has_char before_char after_char is_space lower
    Sessions.insert_session sql sql_query savepoint statement query commit transaction find any
    strip required_auth_session_text required_auth_session_datetime required_positive_identifier
    utc_datetime
login_returns = refl

login-Admitted_example : Admitted outside config " Ana@example.com" "secret123" world
login-Admitted_example =
    login-Admitted outside config " Ana@example.com" "secret123" world entered login_returns
