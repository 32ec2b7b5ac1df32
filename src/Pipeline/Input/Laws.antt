-- ===== src/Pipeline/Input/Laws.antt =====
-- src/app/pipeline/input.py: the output formats that a normalized request has.
use mathlib.Core.List
use kyrgstudio.Base.{String, ◌≡◌, List, [], ◌∷◌, true, false}
use kyrgstudio.Base.Text.{is_one_of}
use kyrgstudio.Pipeline.Input.{supported_output_formats}

-- Formats that the exporter knows, none twice.
abbrev pub Formats : List String → Type 0
Formats [] = Unit
Formats (f ∷ fs) =
    (is_one_of f supported_output_formats ≡ true) × (is_one_of f fs ≡ false) × Formats fs
