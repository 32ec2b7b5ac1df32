-- ===== src/Pipeline/Payloads.antt =====
-- src/app/pipeline/jobs.py and src/app/pipeline/files.py: the payloads of the job store.
use kyrgstudio.Base.{suc, String, Option, none, some}
use kyrgstudio.Base.Int.{ℤ, pos}
use kyrgstudio.Base.Json
use kyrgstudio.Base.Json.{Json, object, array, field, end, texts, text_or_null, put}
use kyrgstudio.Errors.{ErrorClass, Error, app, foreign, new_error, to_dict}
use kyrgstudio.Database.{Result, ok, err, Exec, lift, ◌>>=◌}
use kyrgstudio.Jobs.{Job}
use kyrgstudio.Jobs.Fields
use kyrgstudio.Jobs.Store.{JobDb, JobPayload}
use kyrgstudio.Jobs.Marks.{FileReference}
use kyrgstudio.Jobs.Adapters
use kyrgstudio.Pipeline.Input.{PipelineInput, Adaptation, get_pipeline_type}

-- `StoredFile`, which a `PipelineInputFile` wraps
pub record StoredFile : Type 0 where
  pub key : String
  pub uri : String
  pub backend : String

-- `PipelineInputFile.to_job_payload`
unfoldable pub build_uploaded_job_payload : StoredFile → FileReference
build_uploaded_job_payload file = record {
  storage_backend = some file.backend;
  input_file_key = some file.key;
  input_file_uri = some file.uri;
}

abbrev execution_error : String → Error
execution_error name =
    new_error ErrorClass.pipeline_execution "Pipeline execution failed." none
      (field "error_type" (Json.text name) end)

abbrev error_fields : Error → Json.Fields
error_fields (app c message step details) = to_dict c step details
error_fields (foreign name) = end

-- `build_failed_job_payload` of an exception
unfoldable pub build_failed_job_payload : Error → Json.Fields
unfolding new_error to_dict
build_failed_job_payload (app c message step details) = to_dict c step details
build_failed_job_payload (foreign name) = error_fields (execution_error name)

abbrev int_or_null : Option ℤ → Json
int_or_null none = Json.null
int_or_null (some z) = Json.int z

abbrev own_fields : PipelineInput → Option Adaptation → Json.Fields
own_fields input none = field "need_correction" (Json.bool input.need_correction) end
own_fields input (some a) = field "user_profile" a.user_profile (
    field "need_correction" (Json.bool input.need_correction)
      (field "adaptation_model" (Json.text a.adaptation_model) end))

-- `build_input_json`: the fields in the order of the schema
unfoldable pub build_input_json : PipelineInput → Json.Fields
build_input_json input = field "source_type" (Json.text input.source_type) (
    field "run_id" (text_or_null input.run_id) (
      field "language" (text_or_null input.language) (
        field "transcriber_provider" (Json.text input.transcriber_provider) (
          field "transcriber_model" (Json.text input.transcriber_model) (
            field "llm_provider" (Json.text input.llm_provider) (
              field "analysis_model" (Json.text input.analysis_model) (
                field "max_duration_seconds" (int_or_null input.max_duration_seconds) (
                  field "output_formats" (array (texts input.output_formats))
                    (own_fields input input.adaptation)))))))))

-- `_invalid_user_id`
abbrev invalid_user_id : ℤ → String → Error
invalid_user_id user_id pipeline_type =
    new_error ErrorClass.invalid_input "user_id must be a positive integer." none (
      field "field" (Json.text "user_id")
        (field "value" (Json.int user_id) (field "pipeline_type" (Json.text pipeline_type) end)))

-- `_normalize_user_id` of an `int`
unfoldable pub normalize_user_id : ℤ → String → Result ℤ
normalize_user_id (pos (suc n)) pipeline_type = ok (pos (suc n))
normalize_user_id user_id pipeline_type = err (invalid_user_id user_id pipeline_type)

abbrev pub payload_of : PipelineInput → Json.Fields → ℤ → JobPayload
payload_of input input_json user_id = record {
  user_id = Fields.int user_id;
  pipeline_type = some (get_pipeline_type input);
  run_id = input.run_id;
  input_json = object input_json;
}

abbrev pub with_metadata : Option Json.Fields → Json.Fields → Json.Fields
with_metadata none input_json = input_json
with_metadata (some metadata) input_json = put "_direct_upload" (object metadata) input_json

-- `create_pipeline_job`, with `build_create_job_payload`
unfoldable pub create_pipeline_job : ℤ → PipelineInput → Option Json.Fields → Exec JobDb Job
unfolding normalize_user_id build_input_json get_pipeline_type put
create_pipeline_job user_id input metadata = do
  owner ← lift (normalize_user_id user_id (get_pipeline_type input))
  Adapters.create_job (payload_of input (with_metadata metadata (build_input_json input)) owner)
