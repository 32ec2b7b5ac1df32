-- ===== src/Accounts/Checks.antt =====
-- The checks of the arguments at the end of src/app/store/users.py and of
-- src/app/auth/transactional_store.py.
use Prim.Native.String.{◌++◌, count}
use kyrgstudio.Base.{ℕ, suc, zero, String, Option, none, some, str_eq, leb, if◌then◌else◌}
use kyrgstudio.Base.Int.{pos}
use kyrgstudio.Base.Json
use kyrgstudio.Base.Json.{field, end, merge}
use kyrgstudio.Base.Text.{strip, lower, has_char, or_none}
use kyrgstudio.Errors.{ErrorClass, Error, new_error}
use kyrgstudio.Database.{Result, ok, err, bind_result}

-- A `datetime`: one that is naive, by the instant that it names in UTC, or one with a time zone.
pub data Datetime : Type 0 where
  naive : ℕ → Datetime
  aware : ℕ → Datetime

abbrev operation_details : String → Json.Fields → Json.Fields
operation_details operation details = merge (field "operation" (Json.text operation) end) details

abbrev with_error_type : Json.Fields → String → Json.Fields
with_error_type details name = merge details (field "error_type" (Json.text name) end)

-- `_user_store_error` with the exception that it reports
unfoldable pub user_store_error : String → String → Json.Fields → String → Error
unfolding merge new_error
user_store_error operation message details name =
    new_error ErrorClass.user_store message none
      (with_error_type (operation_details operation details) name)

-- `_auth_session_store_error` of a failed check
unfoldable pub session_store_error : String → String → Json.Fields → Error
unfolding merge new_error
session_store_error operation message details =
    new_error ErrorClass.store message none (operation_details operation details)

-- `_auth_session_store_error` with the exception that it reports
unfoldable pub session_store_failure : String → String → Json.Fields → String → Error
unfolding merge new_error
session_store_failure operation message details name =
    new_error ErrorClass.store message none
      (with_error_type (operation_details operation details) name)

abbrev pub user_field_error : String → String → String → Error
user_field_error message name operation =
    new_error ErrorClass.user_store message none
      (field "operation" (Json.text operation) (field "field" (Json.text name) end))

-- `_required_value` of a string or `None`
unfoldable pub required_value : Option String → String → String → Result String
required_value none name operation =
    err (user_field_error ("Required user field is missing: " ++ name) name operation)
required_value (some value) name operation =
    let stripped = strip value in
    if str_eq stripped ""
    then err (user_field_error ("Required user field is empty: " ++ name) name operation)
    else ok stripped

abbrev with_at_sign : String → String → String → Result String
with_at_sign email name operation =
    if has_char 64 email
    then ok email
    else err (user_field_error "Invalid email address." name operation)

-- `_normalize_email`, and `_required_email` of a payload's value
unfoldable pub normalize_email : Option String → String → String → Result String
unfolding required_value
normalize_email value name operation =
    bind_result (required_value value name operation)
      λ text. with_at_sign (lower text) name operation

-- `_optional_str`
unfoldable pub optional_str : Option String → Option String
optional_str none = none
optional_str (some value) = or_none (strip value)

abbrev session_field_error : String → String → String → Error
session_field_error operation name problem =
    session_store_error operation (name ++ problem) (field "field" (Json.text name) end)

-- `_required_positive_identifier` of an `int` that is not negative; one that is fails as 0 does
unfoldable pub required_positive_identifier : ℕ → String → String → Result ℕ
unfolding session_store_error
required_positive_identifier zero name operation =
    err (session_field_error operation name " must be a positive integer.")
required_positive_identifier (suc n) name operation = ok (suc n)

abbrev too_long : String → String → ℕ → Error
too_long operation name maximum =
    session_store_error operation (name ++ " exceeds its maximum length.")
      (field "field" (Json.text name) (field "maximum" (Json.int (pos maximum)) end))

-- `_required_auth_session_text` of a string
unfoldable pub required_auth_session_text : String → String → String → ℕ → Result String
unfolding session_store_error
required_auth_session_text value name operation max_length =
    let normalized = strip value in
    if str_eq normalized ""
    then err (session_field_error operation name " must not be blank.")
    else if leb (count normalized) max_length
    then ok normalized
    else err (too_long operation name max_length)

-- `_required_auth_session_datetime` of a `datetime`
unfoldable pub required_auth_session_datetime : Datetime → String → String → Result ℕ
unfolding session_store_error
required_auth_session_datetime (aware t) name operation = ok t
required_auth_session_datetime (naive t) name operation =
    err (session_field_error operation name " must include timezone information.")

abbrev auth_field_error : String → String → Error
auth_field_error name problem =
    new_error ErrorClass.user_store (name ++ problem) none (field "field" (Json.text name) end)

-- `_positive_identifier` of an `int` that is not negative
unfoldable pub positive_identifier : ℕ → String → Result ℕ
unfolding new_error
positive_identifier zero name = err (auth_field_error name " must be a positive integer.")
positive_identifier (suc n) name = ok (suc n)

-- `_utc_datetime` of a `datetime`
unfoldable pub utc_datetime : Datetime → ℕ
utc_datetime (naive t) = t
utc_datetime (aware t) = t

-- `_required_sensitive_text` of a string
unfoldable pub required_sensitive_text : String → String → Result String
unfolding new_error
required_sensitive_text value name =
    let stripped = strip value in
    if str_eq stripped ""
    then err (auth_field_error name " must be a non-empty string.")
    else ok stripped
