-- ===== src/Wafer/Validate/Parts.antt =====
-- internal/wafer/validate.go: the result, and the checks of one config and of a node of a known type.
use Prim.Native.Char.{Char, code}
use servitor.Prelude.{
  String, Bool, true, false, none, some, List, [], ◌∷◌, ◌++◌, str_eq, if◌then◌else◌, ◌&&◌, ◌||◌,
  not, ◌==◌, leb, has, quote, ◌<>◌,
}
use servitor.Value.{Value, obj, arr, str, float, int, bool, null, Fields, index, as_string}
use servitor.Registry.{Field, Capability}
use servitor.Wafer.{Issue}
use servitor.Wafer.Validate.Pointer.{ptr}

pub record Result : Type 0 where
  pub errors : List Issue
  pub warnings : List Issue

unfoldable pub is_valid : Result → Bool
is_valid res = elim res.errors [ [] ↦ true | _ ↦ false ]

abbrev pub issue : String → String → String → String → String → Issue
issue path code message expected suggestion = record {
  path = path;
  code = code;
  message = message;
  expected = expected;
  suggestion = suggestion;
}

unfoldable pub add_error : Issue → Result → Result
add_error i res = record res { errors = res.errors ++ i ∷ [] }

unfoldable pub add_warning : Issue → Result → Result
add_warning i res = record res { warnings = res.warnings ++ i ∷ [] }

abbrev pub rerun_modes : List String
rerun_modes = "continue" ∷ "restart" ∷ "discard" ∷ []

unfoldable pub type_matches : String → Value → Bool
type_matches t v =
    if str_eq t "string"
    then elim v [ str _ ↦ true | _ ↦ false ]
    else if str_eq t "integer"
    then elim v [ int _ ↦ true | _ ↦ false ]
    else if str_eq t "number"
    then elim v [ int _ ↦ true | float _ ↦ true | _ ↦ false ]
    else if str_eq t "boolean"
    then elim v [ bool _ ↦ true | _ ↦ false ]
    else if str_eq t "object"
    then elim v [ obj _ ↦ true | _ ↦ false ]
    else if str_eq t "array"
    then elim v [ arr _ ↦ true | _ ↦ false ]
    else true

unfoldable pub yaml_kind : Value → String
yaml_kind (str _) = "string"
yaml_kind (int _) = "integer"
yaml_kind (float _) = "number"
yaml_kind (bool _) = "boolean"
yaml_kind (obj _) = "object"
yaml_kind (arr _) = "array"
yaml_kind null = "null"

-- unicode.IsSpace, by which strings.TrimSpace trims.
abbrev is_space : Char → Bool
is_space c =
    leb 9 (code c) && leb (code c) 13
    || code c == 32
    || code c == 133
    || code c == 160
    || code c == 5760
    || leb 8192 (code c) && leb (code c) 8202
    || code c == 8232
    || code c == 8233
    || code c == 8239
    || code c == 8287
    || code c == 12288

-- strings.TrimSpace(s) == ""
unfoldable pub is_blank : String → Bool
is_blank String.[] = true
is_blank (String.◌∷◌ c s) = is_space c && is_blank s

pub missing_field : String → String → String → String → Field → Issue
missing_field kind type_name at name f =
    issue (ptr at name) "missing_required_field"
      ("field " <> quote name <> " is required for " <> kind <> " type " <> quote type_name) f.type
      ""

unfoldable pub mismatch : String → String → Field → Value → Issue
mismatch at name f v =
    issue (ptr at name) "type_mismatch"
      ("field " <> quote name <> " expects " <> f.type <> ", got " <> yaml_kind v) f.type ""

-- One field of the schema against the config.
unfoldable pub validate_field : String → String → String → Fields → String → Field → Result → Result
unfolding type_matches add_error
validate_field kind type_name at m name f res = elim (index name m) [
  | none ↦ if f.required then add_error (missing_field kind type_name at name f) res else res
  | some v ↦ if type_matches f.type v then res else add_error (mismatch at name f v) res
]

unfoldable pub validate_config :
    String → String → String → Fields → List (String × Field) → Result → Result
unfolding validate_field
validate_config kind type_name at m [] res = res
validate_config kind type_name at m ((name, f) ∷ fields) res =
    validate_config kind type_name at m fields (validate_field kind type_name at m name f res)

-- A `wait` node needs a source that wakes it.
unfoldable pub validate_wait : String → Fields → Result → Result
unfolding add_error
validate_wait p m res = elim (index "signal" m) [
  | some _ ↦ res
  | none ↦ elim (index "timer" m) [
    | some _ ↦ res
    | none ↦
        add_error
          (issue p "wait_requires_source"
            "a wait node needs at least one of `signal` or `timer`, else it would park forever"
            "signal or timer" "")
          res
  ]
]

unfoldable pub unknown_mode : String → String → String → Issue
unknown_mode at what mode =
    issue at "unknown_rerun_mode"
      ("field " <> what <> " must be one of continue, restart, discard, got " <> quote mode) ""
      "continue"

unfoldable pub validate_mode : String → Fields → Result → Result
unfolding add_error
validate_mode p m res = elim (as_string (index "mode" m)) [
  | none ↦ res
  | some mode ↦
      if not (str_eq mode "") && not (has mode rerun_modes)
      then add_error (unknown_mode (ptr p "mode") (quote "mode") mode) res
      else res
]

unfoldable pub validate_dedupe : String → Capability → Fields → Result → Result
unfolding add_warning
validate_dedupe p st m res =
    if st.side_effect
    then elim (index "dedupe_key" m) [
      | some _ ↦ res
      | none ↦
          add_warning
            (issue p "missing_dedupe_key"
              ("Node "
                <> quote st.name
                <> " performs an external side effect and has no dedupe_key; this node may run more than once on retry")
              "" "")
            res
    ]
    else res

-- What validateNode does once the node's capability is found.
unfoldable pub validate_known : String → Capability → Fields → Result → Result
unfolding validate_config validate_wait validate_mode validate_dedupe
validate_known p st m res =
    let checked = validate_config "node" st.name p m st.fields res in
    let waits = if str_eq st.name "wait" then validate_wait p m checked else checked in
    let reruns = if str_eq st.name "rerun-failed" then validate_mode p m waits else waits in
    validate_dedupe p st m reruns
