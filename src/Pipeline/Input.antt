-- ===== src/Pipeline/Input.antt =====
-- src/app/schemas/pipeline.py and src/app/pipeline/input.py: the pipeline input and its
-- normalization.
pub mod Laws
use Prim.Native.String.{◌++◌}
use kyrgstudio.Base.{
  ℕ, zero, suc, String, Option, none, some, List, [], ◌∷◌, Bool, true, false, not, ◌||◌, str_eq,
  if◌then◌else◌,
}
use mathlib.Core.List
use kyrgstudio.Base.Int.{ℤ, pos, negsuc}
use kyrgstudio.Base.Json
use kyrgstudio.Base.Json.{Json, object, array, field, end, texts, text_or_null, null}
use kyrgstudio.Base.Text.{strip, lower, is_one_of, or_none}
use kyrgstudio.Errors.{ErrorClass, Error, new_error}
use kyrgstudio.Database.{Result, ok, err, bind_result}

-- The fields that only a `CopyAdaptationPipelineInput` has; the profile stands as its JSON.
pub record Adaptation : Type 0 where
  pub user_profile : Json
  pub adaptation_model : String

-- A `CopyAnalysisPipelineInput`, or with an adaptation a `CopyAdaptationPipelineInput`.
pub record PipelineInput : Type 0 where
  pub source_type : String
  pub run_id : Option String
  pub language : Option String
  pub transcriber_provider : String
  pub transcriber_model : String
  pub llm_provider : String
  pub analysis_model : String
  pub max_duration_seconds : Option ℤ
  pub output_formats : List String
  pub need_correction : Bool
  pub adaptation : Option Adaptation

abbrev pub type_of : Option Adaptation → String
type_of none = "copy_analysis"
type_of (some a) = "copy_adaptation"

-- `get_pipeline_type`; the schemas have no third class
unfoldable pub get_pipeline_type : PipelineInput → String
get_pipeline_type input = type_of input.adaptation

abbrev invalid_input : String → Json.Fields → Error
invalid_input message details = new_error ErrorClass.invalid_input message none details

abbrev type_field : String → Json.Fields → Json.Fields
type_field pipeline_type rest = field "pipeline_type" (Json.text pipeline_type) rest

abbrev required_error : String → String → Json.Fields → Error
required_error name pipeline_type rest =
    invalid_input (name ++ " is required.")
      (field "field" (Json.text name) (type_field pipeline_type rest))

-- `_required_text`
unfoldable pub required_text : String → String → String → Result String
required_text value name pipeline_type =
    let normalized = strip value in
    if str_eq normalized "" then err (required_error name pipeline_type end) else ok normalized

-- `_optional_text`
unfoldable pub optional_text : Option String → Option String
optional_text none = none
optional_text (some value) = or_none (strip value)

abbrev unsupported : String → String → String → String → List String → Error
unsupported message name value pipeline_type supported = invalid_input (message ++ value) (
    field "field" (Json.text name) (
      field "value" (Json.text value)
        (type_field pipeline_type (field "supported_values" (array (texts supported)) end))))

abbrev pub source_types : List String
source_types = "video" ∷ "audio" ∷ []

-- `_normalize_source_type`
unfoldable pub normalize_source_type : String → String → Result String
normalize_source_type value pipeline_type =
    let normalized = lower (strip value) in
    if is_one_of normalized source_types
    then ok normalized
    else err
        (unsupported "Unsupported source_type: " "source_type" value pipeline_type source_types)

-- `_normalize_choice`
unfoldable pub normalize_choice : String → String → List String → String → Result String
normalize_choice value name supported pipeline_type =
    let normalized = lower (strip value) in
    if str_eq normalized ""
    then err
        (required_error name pipeline_type (field "supported_values" (array (texts supported)) end))
    else if is_one_of normalized supported
    then ok normalized
    else err (unsupported ("Unsupported " ++ name ++ ": ") name value pipeline_type supported)

abbrev duration_error : ℤ → String → Error
duration_error value pipeline_type = invalid_input "max_duration_seconds must be positive." (
    field "field" (Json.text "max_duration_seconds")
      (field "value" (Json.int value) (type_field pipeline_type end)))

-- `_normalize_max_duration`
unfoldable pub normalize_max_duration : Option ℤ → String → Result (Option ℤ)
normalize_max_duration none pipeline_type = ok none
normalize_max_duration (some (pos (suc n))) pipeline_type = ok (some (pos (suc n)))
normalize_max_duration (some value) pipeline_type = err (duration_error value pipeline_type)

abbrev pub supported_output_formats : List String
supported_output_formats = "json" ∷ "md" ∷ "txt" ∷ []

abbrev pub default_output_formats : List String
default_output_formats = "json" ∷ []

-- `OUTPUT_FORMAT_ALIASES.get(value, value)`
unfoldable pub unalias : String → String
unalias value =
    if str_eq value "markdown" then "md" else if str_eq value "text" then "txt" else value

abbrev pub or_default : List String → List String
or_default [] = default_output_formats
or_default (f ∷ fs) = f ∷ fs

abbrev format_error : String → String → Error
format_error value pipeline_type =
    unsupported "Unsupported output format: " "output_formats" value pipeline_type
      supported_output_formats

abbrev with_format : String → List String → List String
with_format f formats = if is_one_of f formats then formats else List.◌++◌ formats (f ∷ [])

-- The loop of `_normalize_output_formats` over the values, with the formats so far.
unfoldable pub collect_formats : List String → List String → String → Result (List String)
unfolding unalias
collect_formats [] formats pipeline_type = ok formats
collect_formats (value ∷ values) formats pipeline_type =
    let f = unalias (lower (strip value)) in
    let skipped = str_eq f "" in
    let rest =
      collect_formats values (if skipped then formats else with_format f formats) pipeline_type in
    if skipped || is_one_of f supported_output_formats
    then rest
    else err (format_error value pipeline_type)

-- `_normalize_output_formats`; without a value, or without one that is not blank, the default
unfoldable pub normalize_output_formats : List String → String → Result (List String)
unfolding collect_formats
normalize_output_formats values pipeline_type =
    bind_result (collect_formats values [] pipeline_type) λ formats. ok (or_default formats)

abbrev pub transcriber_providers : List String
transcriber_providers = "whisper_local" ∷ "openai" ∷ "openrouter" ∷ []

abbrev pub llm_providers : List String
llm_providers = "openai" ∷ "gemini" ∷ "openrouter" ∷ []

-- `_common_updates`, applied
unfoldable pub common_updates : PipelineInput → String → Result PipelineInput
common_updates input kind =
    bind_result (normalize_source_type input.source_type kind) λ source_type.
      bind_result
        (normalize_choice input.transcriber_provider "transcriber_provider" transcriber_providers
          kind)
        λ transcriber_provider.
          bind_result (normalize_choice input.llm_provider "llm_provider" llm_providers kind)
            λ llm_provider.
              bind_result (required_text input.transcriber_model "transcriber_model" kind)
                λ transcriber_model.
                  bind_result (required_text input.analysis_model "analysis_model" kind)
                    λ analysis_model.
                      bind_result (normalize_max_duration input.max_duration_seconds kind)
                        λ max_duration_seconds.
                          bind_result (normalize_output_formats input.output_formats kind)
                            λ output_formats. ok (record input {
                              source_type = source_type;
                              run_id = optional_text input.run_id;
                              language = optional_text input.language;
                              transcriber_provider = transcriber_provider;
                              transcriber_model = transcriber_model;
                              llm_provider = llm_provider;
                              analysis_model = analysis_model;
                              max_duration_seconds = max_duration_seconds;
                              output_formats = output_formats;
                            })

abbrev adaptation_updates : Option Adaptation → String → Result (Option Adaptation)
adaptation_updates none kind = ok none
adaptation_updates (some a) kind =
    bind_result (required_text a.adaptation_model "adaptation_model" kind)
      λ model. ok (some (record a { adaptation_model = model }))

-- `normalize_pipeline_input`
unfoldable pub normalize_pipeline_input : PipelineInput → Result PipelineInput
unfolding common_updates get_pipeline_type
normalize_pipeline_input input =
    bind_result (common_updates input (get_pipeline_type input)) λ common.
      bind_result (adaptation_updates input.adaptation (get_pipeline_type input))
        λ adaptation. ok (record common { adaptation = adaptation })
