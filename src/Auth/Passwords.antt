-- ===== src/Auth/Passwords.antt =====
-- src/app/auth/passwords.py: `Argon2PasswordHasher` over the hashing library.
use Prim.Native.String.{count}
use kyrgstudio.Base.{
  String, Option, none, some, Bool, true, false, ◌&&◌, ◌||◌, not, str_eq, leb, ltb, if◌then◌else◌,
}
use kyrgstudio.Base.Text.{strip}
use kyrgstudio.Errors.{Error, foreign}
use kyrgstudio.Database.{Result, ok, err, Exec, pure, lift, ◌>>=◌}
use kyrgstudio.Auth.{Outside, AuthConfig}
use kyrgstudio.Auth.Principal.{value_error}

module _ {X : Type 0} (out : Outside X) (config : AuthConfig) where
  -- `_password_for_hashing` of a string
  unfoldable pub password_for_hashing : String → Result String
  password_for_hashing password =
      if ltb (count password) config.min_password_length
        || ltb config.max_password_length (count password)
      then err value_error
      else ok password

  -- `hash`
  unfoldable pub hash : String → Exec X String
  unfolding password_for_hashing
  hash password = do validated ← lift (password_for_hashing password); out.argon2_hash validated

  -- `_is_encoded_hash_candidate`
  unfoldable pub is_encoded_hash_candidate : String → Bool
  is_encoded_hash_candidate value =
      str_eq value (strip value) && ltb 0 (count value) && leb (count value) 512

  -- `_password_for_verification` of a string accepts it.
  abbrev pub may_verify : String → Bool
  may_verify password = not (str_eq password "") && leb (count password) config.max_password_length

  -- The dummy verification in place of one, for an error of the library too.
  abbrev pub refused : Exec X (Bool × Option String)
  refused = out.dummy_verification >>= λ done. pure (false, none)

  abbrev is_library_error : String → Bool
  is_library_error name =
      out.is_pwdlib_error name || str_eq name "TypeError" || str_eq name "ValueError"

  abbrev pub checked : Result (Bool × Option String) × X → Result (Bool × Option String) × X
  checked (ok (true, updated), x) = (ok (true, updated), x)
  checked (ok (false, updated), x) = (ok (false, none), x)
  checked (err (foreign name), x) =
      if is_library_error name then refused x else (err (foreign name), x)
  checked (err (Error.app c message step details), x) = (err (Error.app c message step details), x)

  -- `verify_and_update`
  unfoldable pub verify_and_update : String → Option String → Exec X (Bool × Option String)
  unfolding is_encoded_hash_candidate
  verify_and_update password none x = refused x
  verify_and_update password (some stored) x =
      if may_verify password && is_encoded_hash_candidate stored
      then checked (out.argon2_verify password stored x)
      else refused x
