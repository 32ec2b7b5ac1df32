-- ===== src/Auth.antt =====
-- src/app/auth over the authentication store: the state, and what the services call outside the
-- program.
pub mod Principal
pub mod Passwords
pub mod Tokens
pub mod EmailVerification
pub mod PasswordReset
pub mod Service
pub mod Sessions
mod Tests
use Prim.Native.String.{◌++◌}
use kyrgstudio.Base.{ℕ, ◌*◌, String, Option, Bool}
use kyrgstudio.Base.Json.{Json, Fields}
use kyrgstudio.Database.{Exec, Result}
use kyrgstudio.Accounts.{AccountDb}

-- The database of the accounts, and the state of what is outside.
pub record AuthWorld (X : Type 0) : Type 0 where
  pub db : AccountDb
  pub outside : X

module _ {X A : Type 0} where
  abbrev pub in_accounts : Exec AccountDb A → Exec (AuthWorld X) A
  in_accounts m w = let (r, db) = m w.db in (r, record w { db = db })

  abbrev pub in_outside : Exec X A → Exec (AuthWorld X) A
  in_outside m w = let (r, x) = m w.outside in (r, record w { outside = x })

-- A mail by the template that it is made of: the address, and the link that the template shows.
pub data Mail : Type 0 where
  verification_mail : String → String → Mail
  reset_mail : String → String → ℕ → Mail

-- The payload of an access token, with instants for the dates.
pub record AccessPayload : Type 0 where
  pub sub : String
  pub iss : String
  pub aud : String
  pub iat : ℕ
  pub nbf : ℕ
  pub exp : ℕ
  pub jti : String
  pub token_type : String

-- The identity that a Google token shows: `GoogleIdentity`, as its checks leave it.
pub record GoogleIdentity : Type 0 where
  pub subject : String
  pub email : String
  pub email_verified : Bool
  pub name : Option String
  pub avatar_url : Option String

-- The calls of libraries and outside services, on a state of their own.
pub record Outside (X : Type 0) : Type 0 where
  -- `datetime.now(timezone.utc)`, in microseconds
  pub clock : Exec X ℕ
  -- `secrets.token_urlsafe`
  pub random_token : Exec X String
  -- `str(uuid4())` and `uuid4().hex`
  pub new_uuid : Exec X String
  pub uuid_hex : Exec X String
  -- `hashlib.sha256(text.encode("utf-8")).hexdigest()`
  pub sha256 : String → String
  -- `PasswordHash.hash` and `PasswordHash.verify_and_update` of pwdlib
  pub argon2_hash : String → Exec X String
  pub argon2_verify : String → String → Exec X (Bool × Option String)
  -- the verification of the dummy hash
  pub dummy_verification : Exec X Unit
  -- the names of the exceptions of pwdlib, and of those of PyJWT
  pub is_pwdlib_error : String → Bool
  pub is_jwt_error : String → Bool
  -- `jwt.encode`, and `jwt.decode` of a token at an audience, an issuer and a leeway
  pub jwt_encode : AccessPayload → Exec X String
  pub jwt_decode : String → String → String → ℕ → Exec X Fields
  -- `datetime.fromtimestamp` of a float or a negative number
  pub other_date : Json → Result ℕ
  -- `urlencode({"token": …})`
  pub urlencode_token : String → String
  -- the verifier of Google tokens, if one is configured
  pub google : Option (String → Exec X GoogleIdentity)
  -- `EmailSender.send_template_html`
  pub send : Mail → Exec X Unit

-- The settings of the services.
pub record AuthConfig : Type 0 where
  pub min_password_length : ℕ
  pub max_password_length : ℕ
  pub issuer : String
  pub audience : String
  pub clock_skew_seconds : ℕ
  pub access_ttl_seconds : ℕ
  pub refresh_ttl_seconds : ℕ
  pub reset_ttl_seconds : ℕ
  pub verification_ttl_seconds : ℕ
  pub public_web_url : String

-- `timedelta(seconds=…)`
abbrev pub seconds : ℕ → ℕ
seconds n = n * 1000000
