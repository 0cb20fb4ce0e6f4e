-- ===== src/Wafer/Text.antt =====
-- Validate of internal/wafer/validate.go and Parse of internal/wafer/wafer.go: a workflow as its YAML
-- text. `decode` is the YAML package: an error, or the decoded document.
use servitor.Prelude.{String, Option, none, some, List, [], ◌∷◌, ◌⊎◌, inl, inr, ◌<>◌}
use servitor.Value.{Value, null, obj, end}
use servitor.Registry.{Capability}
use servitor.Wafer.{Wafer, from_raw}
use servitor.Wafer.Validate.{validate_value}
use servitor.Wafer.Validate.Parts.{Result, issue}

module _ (decode : String → String ⊎ Value) where
  unfoldable pub validate : List Capability → String → Result
  validate types text = elim (decode text) [
    | inl e ↦ record {
      errors = issue "" "invalid_yaml" ("invalid YAML: " <> e) "" "" ∷ [];
      warnings = [];
    }
    | inr v ↦ validate_value types v
  ]

  -- A document that is no map does not decode into one; an empty one is the nil map.
  abbrev parsed_value : Value → Option Wafer
  parsed_value (obj raw) = some (from_raw raw)
  parsed_value null = some (from_raw end)
  parsed_value _ = none

  unfoldable pub parse : String → Option Wafer
  parse text = elim (decode text) [ inl e ↦ none | inr v ↦ parsed_value v ]
