-- ===== src/Pipeline/Service/Prepare/Request.antt =====
-- What a request for a presigned upload asks for, and when two requests differ.
use kyrgstudio.Base.{
  ℕ, String, ◌≡◌, ◌≢◌, ◌⊎◌, inl, inr, refl, sym, ap, ◌∙◌, Option, none, some, false, arith, str_eq,
  str_eq_iff, str_eq_refl,
}
use kyrgstudio.Base.Int.{pos}
use kyrgstudio.Base.Json
use kyrgstudio.Base.Json.{Json, present, field, end, object, get, put}
use kyrgstudio.Pipeline.Input.{PipelineInput}
use kyrgstudio.Pipeline.Payloads.{build_input_json}

-- A request with its input as it is after normalization.
pub record UploadRequest : Type 0 where
  pub input : PipelineInput
  pub filename : String
  pub content_type : String
  pub size_bytes : ℕ

-- The whole request as one JSON object.
abbrev pub asked : UploadRequest → Json.Fields
asked r =
    put "_direct_upload"
      (object (
        field "filename" (Json.text r.filename) (
          field "content_type" (Json.text r.content_type)
            (field "size_bytes" (Json.int (pos r.size_bytes)) end))))
      (build_input_json r.input)

-- The value, if it is a text, an integer or a Boolean.
abbrev plain : Option Json → Option Json
plain (some (Json.text s)) = some (Json.text s)
plain (some (Json.int z)) = some (Json.int z)
plain (some (Json.bool b)) = some (Json.bool b)
plain _ = none

abbrev inside : String → Option Json → Option Json
inside key (some (object fields)) = plain (get key fields)
inside key _ = none

-- Two objects agree in each text, integer and Boolean of a field, and of a field's own fields, as two
-- with one sorted JSON text do.
pub record Agree (a b : Json.Fields) : Type 0 where
  pub top : (key : String) → plain (get key a) ≡ plain (get key b)
  pub part : (key inner : String) → inside inner (get key a) ≡ inside inner (get key b)

-- The requests are not for one file, or their inputs have another text, integer or Boolean in a
-- field.
abbrev pub Differs : UploadRequest → UploadRequest → Type 0
Differs r s =
    (r.filename ≢ s.filename)
    ⊎ (r.content_type ≢ s.content_type)
    ⊎ (r.size_bytes ≢ s.size_bytes)
    ⊎ ((key : String) × (str_eq "_direct_upload" key ≡ false)
        × (plain (get key (build_input_json r.input)) ≢ plain (get key (build_input_json s.input))))

pub put-get :
    (key : String) (value : Json) (fields : Json.Fields)
    → get key (put key value fields) ≡ present value
unfolding get put
put-get key value end = rw (str_eq_refl key) refl
put-get key value (field k w rest) = ground (arith, put-get key value rest, str_eq_refl key)

put-get_other :
    (key other : String) (value : Json) (fields : Json.Fields)
    → str_eq key other ≡ false
    → get other (put key value fields) ≡ get other fields
unfolding get put
put-get_other key other value end apart = rw apart refl
put-get_other key other value (field k w rest) apart =
    ground (arith, put-get_other key other value rest, str_eq_iff k key, str_eq_iff k other)

abbrev file_part : UploadRequest → Json
file_part r = object (
    field "filename" (Json.text r.filename) (
      field "content_type" (Json.text r.content_type)
        (field "size_bytes" (Json.int (pos r.size_bytes)) end)))

asked-part : (r : UploadRequest) → get "_direct_upload" (asked r) ≡ some (file_part r)
asked-part r = put-get "_direct_upload" (file_part r) (build_input_json r.input)

abbrev text_in : Option Json → String
text_in (some (Json.text s)) = s
text_in _ = ""

abbrev size_in : Option Json → ℕ
size_in (some (Json.int (pos n))) = n
size_in _ = 0

module _ (r s : UploadRequest) (agree : Agree (asked r) (asked s)) where
  same_part :
      (inner : String) → inside inner (some (file_part r)) ≡ inside inner (some (file_part s))
  same_part inner =
      ap (inside inner) (sym (asked-part r))
      ∙ (agree.part "_direct_upload" inner ∙ ap (inside inner) (asked-part s))

  same_filename : r.filename ≡ s.filename
  unfolding get
  same_filename = ap text_in (same_part "filename")

  same_content_type : r.content_type ≡ s.content_type
  unfolding get
  same_content_type = ap text_in (same_part "content_type")

  same_size : r.size_bytes ≡ s.size_bytes
  unfolding get
  same_size = ap size_in (same_part "size_bytes")

  same_input :
      (key : String)
      → str_eq "_direct_upload" key ≡ false
      → plain (get key (build_input_json r.input)) ≡ plain (get key (build_input_json s.input))
  same_input key apart =
      ap plain
        (sym (put-get_other "_direct_upload" key (file_part r) (build_input_json r.input) apart))
      ∙ (agree.top key
          ∙ ap plain
              (put-get_other "_direct_upload" key (file_part s) (build_input_json s.input) apart))

  -- Requests that differ do not agree.
  pub asked-apart : Differs r s → ⊥
  asked-apart (inl other) = other same_filename
  asked-apart (inr (inl other)) = other same_content_type
  asked-apart (inr (inr (inl other))) = other same_size
  asked-apart (inr (inr (inr (key, apart, other)))) = other (same_input key apart)
