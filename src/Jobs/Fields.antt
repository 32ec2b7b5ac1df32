-- ===== src/Jobs/Fields.antt =====
-- The field checks at the end of src/app/store/jobs.py.
use Prim.Native.String.{◌++◌}
use kyrgstudio.Base.{ℕ, suc, min, String, Option, none, some, List, Bool, str_eq, if◌then◌else◌}
use kyrgstudio.Base.Int.{ℤ, pos}
use kyrgstudio.Base.Json
use kyrgstudio.Base.Json.{Json, null, object, array, field, end, merge, texts}
use kyrgstudio.Base.Text.{strip, lower, is_one_of, or_none, parse_int}
use kyrgstudio.Errors.{ErrorClass, Error, new_error}
use kyrgstudio.Database.{Result, ok, err}

-- A value that a caller of the store may pass for a number: its callers pass an `int`, and the
-- checks also meet `None`, a Boolean, a text, or an object that is none of these and no float.
pub data Scalar : Type 0 where
  absent : Scalar
  bool : Bool → Scalar
  int : ℤ → Scalar
  text : String → Scalar
  other : Json → Scalar

abbrev pub job_store_error : String → Json.Fields → Error
job_store_error message details = new_error ErrorClass.job_store message none details

-- `_job_store_error` with the exception that it reports
unfoldable pub store_failure : String → String → Json.Fields → String → Error
store_failure operation message details error_type = job_store_error message (
    merge (field "operation" (Json.text operation) end)
      (merge details (field "error_type" (Json.text error_type) end)))

abbrev missing_field : String → String → Error
missing_field name operation =
    job_store_error ("Required job field is missing: " ++ name)
      (field "operation" (Json.text operation) (field "field" (Json.text name) end))

-- `_required_str` of a field that holds a string or nothing
unfoldable pub required_str : Option String → String → String → Result String
required_str none name operation = err (missing_field name operation)
required_str (some value) name operation =
    let stripped = strip value in
    if str_eq stripped "" then err (missing_field name operation) else ok stripped

abbrev not_an_object : String → String → Error
not_an_object name operation =
    job_store_error ("Required job field must be an object: " ++ name)
      (field "operation" (Json.text operation) (field "field" (Json.text name) end))

-- `_required_mapping`
unfoldable pub required_mapping : Json → String → String → Result Json.Fields
required_mapping (object fields) name operation = ok fields
required_mapping _ name operation = err (not_an_object name operation)

-- `_optional_str` of a string or `None`
unfoldable pub optional_str : Option String → Option String
optional_str none = none
optional_str (some value) = or_none (strip value)

-- `_optional_mapping`
unfoldable pub optional_mapping : Option Json → Option Json.Fields
optional_mapping (some (object fields)) = some fields
optional_mapping _ = none

-- `_normalize_step`
unfoldable pub normalize_step : String → String → String
normalize_step step fallback =
    let normalized = strip step in if str_eq normalized "" then fallback else normalized

-- The value as it stands in the details of an error.
abbrev scalar_json : Scalar → Json
scalar_json absent = null
scalar_json (bool b) = Json.bool b
scalar_json (int z) = Json.int z
scalar_json (text s) = Json.text s
scalar_json (other v) = v

abbrev not_an_integer : String → String → Scalar → Error
not_an_integer name operation value =
    job_store_error ("Required job field must be an integer: " ++ name) (
      field "operation" (Json.text operation)
        (field "field" (Json.text name) (field "value" (scalar_json value) end)))

abbrev or_raise : {A : Type 0} → Option A → Error → Result A
or_raise none e = err e
or_raise (some a) e = ok a

-- `_required_int`
unfoldable pub required_int : Scalar → String → String → Result ℤ
required_int (int z) name operation = ok z
required_int (text s) name operation =
    or_raise (parse_int s) (not_an_integer name operation (text s))
required_int value name operation = err (not_an_integer name operation value)

-- `max_page_limit` is `MAX_PAGE_LIMIT`.
abbrev pub max_page_limit : ℕ
max_page_limit = 100

abbrev pub default_page_limit : ℕ
default_page_limit = 20

abbrev limit_error : String → Scalar → Error
limit_error operation value =
    job_store_error "Job list limit must be greater than zero."
      (field "operation" (Json.text operation) (field "limit" (scalar_json value) end))

-- `_normalize_limit`
unfoldable pub normalize_limit : Scalar → String → Result ℕ
normalize_limit (int (pos (suc n))) operation = ok (min (suc n) max_page_limit)
normalize_limit value operation = err (limit_error operation value)

abbrev offset_error : String → Scalar → Error
offset_error operation value =
    job_store_error "Job list offset must be greater than or equal to zero."
      (field "operation" (Json.text operation) (field "offset" (scalar_json value) end))

-- `_normalize_offset`
unfoldable pub normalize_offset : Scalar → String → Result ℕ
normalize_offset (int (pos n)) operation = ok n
normalize_offset value operation = err (offset_error operation value)

abbrev positive_error : String → String → Scalar → Error
positive_error name operation value =
    job_store_error ("Job list " ++ name ++ " must be a positive integer.") (
      field "operation" (Json.text operation)
        (field "field" (Json.text name) (field "value" (scalar_json value) end)))

-- `_normalize_positive_integer`
unfoldable pub normalize_positive_integer : Scalar → String → String → Result ℕ
normalize_positive_integer (int (pos (suc n))) name operation = ok (suc n)
normalize_positive_integer value name operation = err (positive_error name operation value)

abbrev ok_some : {A : Type 0} → Result A → Result (Option A)
ok_some (ok a) = ok (some a)
ok_some (err e) = err e

-- `_normalize_optional_positive_integer`
unfoldable pub normalize_optional_positive_integer : Scalar → String → String → Result (Option ℕ)
unfolding normalize_positive_integer
normalize_optional_positive_integer absent name operation = ok none
normalize_optional_positive_integer value name operation =
    ok_some (normalize_positive_integer value name operation)

abbrev choice_error : String → String → List String → String → Error
choice_error value name allowed operation =
    job_store_error ("Unsupported job list " ++ name ++ " filter.") (
      field "operation" (Json.text operation) (
        field "field" (Json.text name)
          (field "value" (Json.text value) (field "allowed_values" (array (texts allowed)) end))))

-- `_normalize_optional_choice`
unfoldable pub normalize_optional_choice :
    Option String → String → List String → String → Result (Option String)
normalize_optional_choice none name allowed operation = ok none
normalize_optional_choice (some value) name allowed operation =
    let normalized = lower (strip value) in
    if is_one_of normalized allowed
    then ok (some normalized)
    else err (choice_error value name allowed operation)
