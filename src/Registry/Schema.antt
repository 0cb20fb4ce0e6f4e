-- ===== src/Registry/Schema.antt =====
-- internal/registry/schema.go: the JSON Schemas of the capabilities and of a workflow document.
use servitor.Prelude.{
  String, true, false, none, some, List, [], ◌∷◌, str_eq, if◌then◌else◌, ◌||◌, map, lookup, sort_by,
}
use servitor.Prelude.Int.{pos}
use servitor.Value.{Value, obj, arr, str, bool, int, Items, nil, cons, Fields, end, field, assign}
use servitor.Registry.{Field, Capability, nodes, trigger_types}

unfoldable pub items : List Value → Items
items [] = nil
items (v ∷ vs) = cons v (items vs)

-- "" for a type without a keyword.
unfoldable pub json_type : String → String
json_type t =
    if str_eq t "integer" || str_eq t "number"
    then t
    else if str_eq t "string" || str_eq t "boolean" || str_eq t "object" || str_eq t "array"
    then t
    else ""

abbrev pub itself : String → String
itself s = s

abbrev pub key : String × Field → String
key (k, _) = k

unfoldable pub sorted_field_names : List (String × Field) → List String
sorted_field_names fields = sort_by itself (map key fields)

-- The three optional keywords of a property.
unfoldable pub property : Field → Fields
unfolding json_type items assign
property f =
    let typed =
      if str_eq (json_type f.type) "" then end else assign "type" (str (json_type f.type)) end in
    let described = if str_eq f.desc "" then typed else assign "description" (str f.desc) typed in
    elim f.examples [
      | [] ↦ described
      | examples ↦ assign "examples" (arr (items examples)) described
    ]

-- `properties` and `required` after the loop over the sorted names.
unfoldable pub properties_of : List String → List (String × Field) → Fields → Fields
unfolding property assign
properties_of [] fields out = out
properties_of (name ∷ names) fields out = elim (lookup name fields) [
  | none ↦ properties_of names fields out
  | some f ↦ properties_of names fields (assign name (obj (property f)) out)
]

unfoldable pub required_of : List String → List (String × Field) → List Value
required_of [] fields = []
required_of (name ∷ names) fields =
    let rest = required_of names fields in
    elim (lookup name fields) [
      | none ↦ rest
      | some f ↦ if f.required then str name ∷ rest else rest
    ]

unfoldable pub type_schema : String → String → List (String × Field) → Fields
unfolding sorted_field_names properties_of required_of items assign
type_schema name desc fields =
    let names = sorted_field_names fields in
    let plain = field "type" (str "object") (
      field "properties" (obj (properties_of names fields end))
        (field "additionalProperties" (bool false) end)) in
    let titled = if str_eq name "" then plain else assign "title" (str name) plain in
    let described = if str_eq desc "" then titled else assign "description" (str desc) titled in
    elim (required_of names fields) [
      | [] ↦ described
      | required ↦ assign "required" (arr (items required)) described
    ]

unfoldable pub json_schema : Capability → Fields
unfolding type_schema
json_schema c = type_schema c.name c.desc c.fields

abbrev name_value : Capability → Value
name_value t = str t.name

abbrev text_schema : String → Value
text_schema desc = obj (field "type" (str "string") (field "description" (str desc) end))

abbrev texts_schema : String → Value
texts_schema desc = obj (
    field "type" (str "array")
      (field "items" (obj (field "type" (str "string") end)) (field "description" (str desc) end)))

abbrev type_field : List Capability → String → Value
type_field types desc = obj (
    field "type" (str "string")
      (field "enum" (arr (items (map name_value types))) (field "description" (str desc) end)))

-- What a node and a trigger have in common: an object with at least a `type`.
abbrev entry_schema : Fields → Value
entry_schema properties = obj (
    field "type" (str "object") (
      field "properties" (obj properties) (
        field "required" (arr (cons (str "type") nil))
          (field "additionalProperties" (bool true) end))))

unfoldable pub node_schema : List Capability → Value
unfolding nodes items
node_schema types = entry_schema (
    field "type" (type_field (nodes types) "The node type.") (
      field "name" (text_schema "A name for this node, for referencing from other nodes.") (
        field "dedupe_key"
          (text_schema "A key making the node run at most once per value (SPEC: Idempotency).")
          (field "depends_on" (texts_schema "Node names this node depends on.") (
            field "secrets"
              (texts_schema
                "Secret names this node declares; only these are passed to its subprocess (SPEC: Varlock).")
              end)))))

unfoldable pub trigger_schema : List Capability → Value
unfolding trigger_types items
trigger_schema types =
    entry_schema (field "type" (type_field (trigger_types types) "The trigger type.") end)

unfoldable pub wafer_properties : List Capability → Fields
unfolding node_schema trigger_schema
wafer_properties types = field "name" (text_schema "The workflow name.") (
    field "triggers"
      (obj (
        field "type" (str "array") (
          field "items" (trigger_schema types)
            (field "description" (str "Triggers that start the workflow.") end))))
      (field "nodes"
        (obj (
          field "type" (str "array") (
            field "items" (node_schema types) (
              field "minItems" (int (pos 1))
                (field "description" (str "The nodes the workflow runs.") end)))))
        end))

unfoldable pub wafer_schema : List Capability → Fields
unfolding wafer_properties
wafer_schema types = field "$schema" (str "https://json-schema.org/draft/2020-12/schema") (
    field "title" (str "Wafer") (
      field "type" (str "object") (
        field "properties" (obj (wafer_properties types)) (
          field "required" (arr (cons (str "name") (cons (str "nodes") nil)))
            (field "additionalProperties" (bool false) end)))))
