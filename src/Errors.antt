-- ===== src/Errors.antt =====
-- src/app/errors.py: the classes of the application's errors, and the error payload.
use kyrgstudio.Base.{
  String, ℕ, zero, suc, Option, none, some, Bool, false, ◌||◌, str_eq, if◌then◌else◌,
}
use kyrgstudio.Base.Json.{Json, text, object, Fields, field, end, text_or_null, get}

-- One constructor for each class below `AppError`.
pub data ErrorClass : Type 0 where
  app_error invalid_input authentication_required invalid_credentials invalid_token : ErrorClass
  refresh_token_invalid account_disabled email_verification_required csrf_validation : ErrorClass
  account_link_required auth_configuration file_not_found unsupported_media_type : ErrorClass
  media_too_long upload_too_large media_processing provider_config transcription : ErrorClass
  llm_execution structured_output pipeline_execution workflow_result storage store : ErrorClass
  job_store idempotency_conflict job_not_found job_result_not_ready user_store : ErrorClass
  billing_store export timeout_app : ErrorClass

-- The class attribute `code`.
unfoldable pub code : ErrorClass → String
code app_error = "app_error"
code invalid_input = "invalid_input"
code authentication_required = "authentication_required"
code invalid_credentials = "invalid_credentials"
code invalid_token = "invalid_token"
code refresh_token_invalid = "refresh_token_invalid"
code account_disabled = "account_disabled"
code email_verification_required = "email_verification_required"
code csrf_validation = "csrf_validation_failed"
code account_link_required = "account_link_required"
code auth_configuration = "auth_configuration_error"
code file_not_found = "file_not_found"
code unsupported_media_type = "unsupported_media_type"
code media_too_long = "media_too_long"
code upload_too_large = "upload_too_large"
code media_processing = "media_processing_failed"
code provider_config = "provider_config_error"
code transcription = "transcription_failed"
code llm_execution = "llm_execution_failed"
code structured_output = "structured_output_failed"
code pipeline_execution = "pipeline_execution_failed"
code workflow_result = "workflow_result_error"
code storage = "storage_error"
code store = "store_error"
code job_store = "job_store_error"
code idempotency_conflict = "idempotency_conflict"
code job_not_found = "job_not_found"
code job_result_not_ready = "job_result_not_ready"
code user_store = "user_store_error"
code billing_store = "billing_store_error"
code export = "export_error"
code timeout_app = "timeout"

-- The class attribute `default_step`.
unfoldable pub default_step : ErrorClass → Option String
default_step app_error = none
default_step invalid_input = some "validating_input"
default_step authentication_required = some "authenticating_request"
default_step invalid_credentials = some "authenticating_user"
default_step invalid_token = some "validating_access_token"
default_step refresh_token_invalid = some "validating_refresh_token"
default_step account_disabled = some "authorizing_user"
default_step email_verification_required = some "authorizing_user"
default_step csrf_validation = some "validating_csrf"
default_step account_link_required = some "linking_account"
default_step auth_configuration = some "configuring_auth"
default_step file_not_found = some "validating_input"
default_step unsupported_media_type = some "validating_input"
default_step media_too_long = some "validating_input"
default_step upload_too_large = some "validating_upload"
default_step media_processing = some "processing_media"
default_step provider_config = some "configuring_providers"
default_step transcription = some "transcribing"
default_step llm_execution = some "calling_llm"
default_step structured_output = some "parsing_llm_output"
default_step pipeline_execution = some "running_pipeline"
default_step workflow_result = some "validating_workflow_result"
default_step storage = some "storage"
default_step store = some "store"
default_step job_store = some "job_store"
default_step idempotency_conflict = some "validating_idempotency"
default_step job_not_found = some "loading_job"
default_step job_result_not_ready = some "loading_job_result"
default_step user_store = some "user_store"
default_step billing_store = some "billing_store"
default_step export = some "exporting"
default_step timeout_app = some "timeout"

-- The base class that the class statement names.
unfoldable pub base_class : ErrorClass → Option ErrorClass
base_class app_error = none
base_class job_store = some store
base_class idempotency_conflict = some job_store
base_class user_store = some store
base_class billing_store = some store
base_class _ = some app_error

-- An exception: an `AppError`, or any other by the name of its class.
pub data Error : Type 0 where
  app : ErrorClass → String → Option String → Fields → Error
  foreign : String → Error

-- `step or self.default_step`
abbrev step_or_default : Option String → ErrorClass → Option String
step_or_default (some s) c = if str_eq s "" then default_step c else some s
step_or_default none c = default_step c

-- `AppError(technical_message=…, step=…, details=…)`, of one class.
unfoldable pub new_error : ErrorClass → String → Option String → Fields → Error
new_error c message step details = app c message (step_or_default step c) details

-- `AppError.to_dict`
unfoldable pub to_dict : ErrorClass → Option String → Fields → Fields
unfolding code
to_dict c step details =
    field "code" (text (code c))
      (field "step" (text_or_null step) (field "details" (object details) end))

-- `details.get(key)` of an exception that has details.
unfoldable pub detail : String → Error → Option Json
detail key (app c message step details) = get key details
detail key (foreign name) = none

-- `issubclass(c, b)`, up to as many steps as there are: the hierarchy is three classes deep.
abbrev climb : ℕ → ErrorClass → Option ErrorClass → Bool
climb n b none = false
climb zero b (some c) = str_eq (code c) (code b)
climb (suc n) b (some c) = str_eq (code c) (code b) || climb n b (base_class c)

-- `isinstance(error, b)` for a class `b` of errors.py
unfoldable pub is_instance : ErrorClass → Error → Bool
unfolding base_class code
is_instance b (app c message step details) = climb 4 b (some c)
is_instance b (foreign name) = false
