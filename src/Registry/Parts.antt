-- ===== src/Registry/Parts.antt =====
-- The lists `Nodes` and `TriggerTypes` of internal/registry/registry.go.
use servitor.Prelude.{
  String, Bool, true, false, Option, none, some, List, [], ◌∷◌, str_eq, ◌≡◌, refl, ◌∙◌, arith, any,
  any-sort_by, sort_by-IsSorted, IsSorted,
}
use servitor.Registry.{
  Capability, lookup_node, lookup_trigger, is_node_role, is_trigger_role, nodes, trigger_types,
  with_role, name_of,
}

abbrev is_some : Option Capability → Bool
is_some none = false
is_some (some _) = true

abbrev is_named : String → Capability → Bool
is_named name t = str_eq t.name name

with_role-lookup :
    (name : String) (types : List Capability)
    → (any (is_named name) (with_role is_node_role types) ≡ is_some (lookup_node name types))
      × (any (is_named name) (with_role is_trigger_role types)
          ≡ is_some (lookup_trigger name types))
unfolding with_role lookup_node lookup_trigger
with_role-lookup name [] = (refl, refl)
with_role-lookup name (t ∷ types) =
    let (node, trigger) = with_role-lookup name types in
    (ground (arith, node), ground (arith, trigger))

-- A list sorted by name, whose names are those that a lookup knows.
abbrev Lists : List Capability → (String → Bool) → Type 0
Lists ts known = IsSorted name_of ts × ((name : String) → any (is_named name) ts ≡ known name)

-- Nodes and TriggerTypes are sorted by name, and their names are just those that LookupNode and
-- LookupTrigger find.
nodes-Lists :
    (types : List Capability)
    → Lists (nodes types) (λ name. is_some (lookup_node name types))
      × Lists (trigger_types types) (λ name. is_some (lookup_trigger name types))
unfolding nodes trigger_types
nodes-Lists types = (
  (
    sort_by-IsSorted name_of (with_role is_node_role types),
    λ name.
        any-sort_by name_of (is_named name) (with_role is_node_role types)
        ∙ (with_role-lookup name types).0,
  ),
  (
    sort_by-IsSorted name_of (with_role is_trigger_role types),
    λ name.
        any-sort_by name_of (is_named name) (with_role is_trigger_role types)
        ∙ (with_role-lookup name types).1,
  ),
)
