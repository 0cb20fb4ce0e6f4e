-- ===== src/Registry/Example.antt =====
-- internal/registry/example.go: the sample fragments of a capability.
use servitor.Prelude.{
  String, Bool, true, false, none, some, List, [], ◌∷◌, str_eq, if◌then◌else◌, ◌<>◌, lookup,
}
use servitor.Prelude.Int.{pos}
use servitor.Value.{Value, null, obj, arr, str, float, int, bool, nil, Fields, end, assign}
use servitor.Registry.{Field, Capability}
use servitor.Registry.Schema.{sorted_field_names}

-- The value of a type without an example; the float of Go is carried by its JSON text.
unfoldable pub zero_value : String → Value
zero_value t =
    if str_eq t "string"
    then str ""
    else if str_eq t "integer"
    then int (pos 0)
    else if str_eq t "number"
    then float "0"
    else if str_eq t "boolean"
    then bool false
    else if str_eq t "object"
    then obj end
    else if str_eq t "array"
    then arr nil
    else null

unfoldable pub sample_value : Field → Value
unfolding zero_value
sample_value f = elim f.examples [ [] ↦ zero_value f.type | v ∷ _ ↦ v ]

unfoldable pub sample_fields : List String → List (String × Field) → Fields → Fields
unfolding sample_value assign
sample_fields [] fields out = out
sample_fields (name ∷ names) fields out = elim (lookup name fields) [
  | none ↦ sample_fields names fields out
  | some f ↦ sample_fields names fields (assign name (sample_value f) out)
]

-- The `type`, and the name of a node, are written first, so a field of that name covers them.
unfoldable pub example_for_type : String → Bool → List (String × Field) → Fields
unfolding sample_fields sorted_field_names assign
example_for_type name as_node fields =
    let typed = assign "type" (str name) end in
    sample_fields (sorted_field_names fields) fields
      (if as_node then assign "name" (str (name <> "-1")) typed else typed)

unfoldable pub node_example : Capability → Fields
unfolding example_for_type
node_example t = example_for_type t.name true t.fields

unfoldable pub trigger_example : Capability → Fields
unfolding example_for_type
trigger_example t = example_for_type t.name false t.fields
