-- ===== src/Wafer/Validate.antt =====
-- internal/wafer/validate.go: the validator of a decoded workflow document. `types` are the
-- registered capabilities; a Go map is run through in the order of its list.
pub mod Parts
pub mod Distance
pub mod Nearest
pub mod Pointer
pub mod Config
pub mod Accepts
pub mod Samples
use Prim.Native.Char.{Char, code}
use Prim.Native.String
use servitor.Prelude.{
  ℕ, zero, suc, String, Bool, true, false, Option, none, some, List, [], ◌∷◌, ◌++◌, map, str_eq,
  if◌then◌else◌, ◌&&◌, ◌||◌, not, ◌==◌, leb, has, itoa, quote, ◌<>◌,
}
use servitor.Value.{
  Value, obj, arr, str, float, int, bool, null, Items, nil, cons, Fields, index, as_string, as_list,
  as_map,
}
use servitor.Registry.{
  Field, Capability, lookup_node, lookup_trigger, nodes, trigger_types, name_of,
}
use servitor.Wafer.{Issue}
use servitor.Wafer.Validate.Pointer.{ptr}
use servitor.Wafer.Validate.Nearest.{nearest}
use servitor.Wafer.Validate.Parts.{
  Result, issue, add_error, rerun_modes, is_blank, validate_config, unknown_mode, validate_known,
}

unfoldable pub validate_name : Option Value → Result → Result
unfolding is_blank add_error
validate_name (some (str v)) res =
    if is_blank v
    then add_error
        (issue "/name" "missing_name" "field 'name' must not be empty" "non-empty string" "") res
    else res
validate_name none res =
    add_error (issue "/name" "missing_required_field" "field 'name' is required" "string" "") res
validate_name (some null) res =
    add_error (issue "/name" "missing_required_field" "field 'name' is required" "string" "") res
validate_name (some _) res =
    add_error (issue "/name" "type_mismatch" "field 'name' must be a string" "string" "") res

unfoldable pub validate_on_failure : Option Value → Result → Result
unfolding add_error
validate_on_failure none res = res
validate_on_failure (some (str s)) res =
    if has s rerun_modes then res else add_error (unknown_mode "/on_failure" "'on_failure'" s) res
validate_on_failure (some _) res =
    add_error
      (issue "/on_failure" "type_mismatch" "field 'on_failure' must be a string" "string" "") res

module _ (types : List Capability) where
  pub nearest_node : String → String
  nearest_node unknown = nearest unknown (map name_of (nodes types))

  pub nearest_trigger : String → String
  nearest_trigger unknown = nearest unknown (map name_of (trigger_types types))

  unfoldable pub validate_typed : String → Fields → String → Result → Result
  unfolding validate_known add_error
  validate_typed p m typ res = elim (lookup_node typ types) [
    | none ↦
        add_error
          (issue (ptr p "type") "unknown_node_type" ("unknown node type " <> quote typ) ""
            (nearest_node typ))
          res
    | some st ↦ validate_known p st m res
  ]

  unfoldable pub validate_node : String → Value → Result → Result
  unfolding validate_typed add_error
  validate_node p (obj m) res = elim (as_string (index "type" m)) [
    | none ↦
        add_error
          (issue (ptr p "type") "missing_required_field" "node must declare a 'type'" "string" "")
          res
    | some typ ↦ validate_typed p m typ res
  ]
  validate_node p _ res =
      add_error (issue p "type_mismatch" "node must be an object" "object" "") res

  unfoldable pub validate_nodes : ℕ → Items → Result → Result
  unfolding validate_node
  validate_nodes i nil res = res
  validate_nodes i (cons s nodes) res =
      validate_nodes (suc i) nodes (validate_node (ptr "/nodes" (itoa i)) s res)

  unfoldable pub validate_known_trigger : String → Fields → String → Result → Result
  unfolding validate_config add_error
  validate_known_trigger p m typ res = elim (lookup_trigger typ types) [
    | none ↦
        add_error
          (issue (ptr p "type") "unknown_trigger_type" ("unknown trigger type " <> quote typ) ""
            (nearest_trigger typ))
          res
    | some tt ↦ validate_config "trigger" tt.name p m tt.fields res
  ]

  -- The body of the loop of validateTriggers.
  unfoldable pub validate_trigger : String → Value → Result → Result
  unfolding validate_known_trigger add_error
  validate_trigger p (obj m) res = elim (as_string (index "type" m)) [
    | none ↦
        add_error
          (issue (ptr p "type") "missing_required_field" "trigger must declare a 'type'" "string"
            "")
          res
    | some typ ↦ validate_known_trigger p m typ res
  ]
  validate_trigger p _ res =
      add_error (issue p "type_mismatch" "trigger must be an object" "object" "") res

  unfoldable pub validate_each_trigger : ℕ → Items → Result → Result
  unfolding validate_trigger
  validate_each_trigger i nil res = res
  validate_each_trigger i (cons t list) res =
      validate_each_trigger (suc i) list (validate_trigger (ptr "/on" (itoa i)) t res)

  unfoldable pub validate_triggers : Option Value → Result → Result
  unfolding validate_each_trigger add_error
  validate_triggers none res = res
  validate_triggers (some (arr list)) res = validate_each_trigger 0 list res
  validate_triggers (some _) res =
      add_error (issue "/on" "type_mismatch" "field 'on' must be a list of triggers" "array" "") res

  unfoldable pub validate_node_list : Option Value → Result → Result
  unfolding validate_nodes add_error
  validate_node_list (some (arr nil)) res =
      add_error
        (issue "/nodes" "missing_nodes" "field 'nodes' must contain at least one node"
          "non-empty array" "")
        res
  validate_node_list (some (arr nodes)) res = validate_nodes 0 nodes res
  validate_node_list _ res =
      add_error
        (issue "/nodes" "missing_nodes" "field 'nodes' is required and must be a list" "array" "")
        res

  unfoldable pub validate_root : Fields → Result → Result
  unfolding validate_name validate_on_failure validate_triggers validate_node_list
  validate_root root res = validate_node_list (index "nodes" root) (
      validate_triggers (index "triggers" root)
        (validate_on_failure (index "on_failure" root) (validate_name (index "name" root) res)))

  unfoldable pub validate_value : Value → Result
  unfolding validate_root add_error
  validate_value (obj root) = validate_root root (record { errors = []; warnings = [] })
  validate_value _ =
      add_error (issue "" "type_mismatch" "wafer must be a YAML object" "object" "")
        (record { errors = []; warnings = [] })
