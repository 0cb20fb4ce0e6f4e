-- ===== src/Registry.antt =====
-- internal/registry/registry.go: the capabilities (triggers, action and flow nodes) that a runner
-- knows. The package variable `types` is passed explicitly; nil is `none`.
pub mod Parts
pub mod Schema
pub mod Example
pub mod Samples
use servitor.Prelude.{
  String, Bool, true, false, Option, none, some, List, [], ◌∷◌, ◌++◌, str_eq, if◌then◌else◌, ◌&&◌,
  ◌<>◌, quote, sort_by,
}
use servitor.Value.{Value, Fields}

pub record Field : Type 0 where
  pub type : String
  pub required : Bool
  pub desc : String
  pub examples : List Value

-- `no_role` is the empty text, which counts as an action.
pub data Role : Type 0 where
  role_trigger role_action role_flow no_role : Role

pub data RunKind : Type 0 where
  run_plain run_singer run_mcp run_flow no_run_kind : RunKind

-- What `CommandFor` returns: an argv, nil for a control node, or an error.
pub data Command : Type 0 where
  argv : List String → Command
  no_command : Command
  refused : String → Command

pub record Capability : Type 0 where
  pub name : String
  pub desc : String
  pub role : Role
  pub side_effect : Bool
  pub delivery : String
  pub mechanism_group : String
  pub fields : List (String × Field)
  pub spawn : Option (Fields → Command)
  pub run_kind : RunKind

abbrev pub is_trigger_role : Capability → Bool
is_trigger_role c = elim c.role [ role_trigger ↦ true | _ ↦ false ]

abbrev pub is_node_role : Capability → Bool
is_node_role c = elim c.role [ role_trigger ↦ false | _ ↦ true ]

unfoldable pub look_up : String → List Capability → Option Capability
look_up name [] = none
look_up name (t ∷ types) = if str_eq t.name name then some t else look_up name types

unfoldable pub lookup_node : String → List Capability → Option Capability
lookup_node name [] = none
lookup_node name (t ∷ types) =
    if str_eq t.name name && is_node_role t then some t else lookup_node name types

unfoldable pub lookup_trigger : String → List Capability → Option Capability
lookup_trigger name [] = none
lookup_trigger name (t ∷ types) =
    if str_eq t.name name && is_trigger_role t then some t else lookup_trigger name types

-- A name that is there already is left as it is.
unfoldable pub register : Option Capability → List Capability → List Capability
unfolding look_up
register none types = types
register (some c) types = elim (look_up c.name types) [ some _ ↦ types | none ↦ types ++ c ∷ [] ]

-- The calls of Register that the init functions make, in their order.
unfoldable pub register_all : List (Option Capability) → List Capability → List Capability
unfolding register
register_all [] types = types
register_all (c ∷ cs) types = register_all cs (register c types)

abbrev pub name_of : Capability → String
name_of c = c.name

unfoldable pub with_role : (Capability → Bool) → List Capability → List Capability
with_role p [] = []
with_role p (t ∷ types) = let rest = with_role p types in if p t then t ∷ rest else rest

-- `Types`, `Nodes` and `TriggerTypes`, sorted by name.
unfoldable pub all_types : List Capability → List Capability
all_types types = sort_by name_of types

unfoldable pub nodes : List Capability → List Capability
unfolding with_role
nodes types = sort_by name_of (with_role is_node_role types)

unfoldable pub trigger_types : List Capability → List Capability
unfolding with_role
trigger_types types = sort_by name_of (with_role is_trigger_role types)

unfoldable pub command_for : String → Fields → List Capability → Command
unfolding look_up
command_for node_type config types = elim (look_up node_type types) [
  | none ↦ refused ("node type " <> quote node_type <> " has no handler built yet")
  | some c ↦ elim c.spawn [ none ↦ no_command | some spawn ↦ spawn config ]
]

unfoldable pub run_kind_for : String → List Capability → RunKind
unfolding look_up
run_kind_for node_type types = elim (look_up node_type types) [
  | none ↦ run_plain
  | some c ↦ elim c.run_kind [ no_run_kind ↦ run_plain | kind ↦ kind ]
]
