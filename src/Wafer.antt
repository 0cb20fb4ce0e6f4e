-- ===== src/Wafer.antt =====
-- internal/wafer/wafer.go and the `Issue` of internal/wafer/validate.go: a parsed workflow.
pub mod Dag
pub mod Validate
pub mod DryRun
pub mod Text
use servitor.Prelude.{
  ℕ, String, Bool, Option, none, some, List, [], ◌∷◌, ◌++◌, str_eq, if◌then◌else◌, has, itoa,
}
use servitor.Value.{
  Value, obj, Items, nil, cons, Fields, index, as_string, as_list, as_map, string_or_empty,
  copy_map, strings,
}

pub record Trigger : Type 0 where
  pub type : String
  pub config : Fields

pub record Node : Type 0 where
  pub type : String
  pub name : String
  pub dedupe_key : String
  pub depends_on : List String
  pub secrets : List String
  pub config : Fields

-- `on` is the field On, `on_failure` the rerun mode of a failed run.
pub record Wafer : Type 0 where
  pub name : String
  pub on : List Trigger
  pub nodes : List Node
  pub on_failure : String

pub record Issue : Type 0 where
  pub path : String
  pub code : String
  pub message : String
  pub expected : String
  pub suggestion : String

-- An entry that is no map is passed over.
trigger_of : Fields → Trigger
trigger_of m = record { type = string_or_empty (index "type" m); config = copy_map m ("type" ∷ []) }

triggers_of : Items → List Trigger
unfolding trigger_of
triggers_of nil = []
triggers_of (cons (obj m) xs) = trigger_of m ∷ triggers_of xs
triggers_of (cons _ xs) = triggers_of xs

strings_of : Option Items → List String
strings_of none = []
strings_of (some xs) = strings xs

node_of : Fields → Node
unfolding strings_of
node_of m = record {
  type = string_or_empty (index "type" m);
  name = string_or_empty (index "name" m);
  dedupe_key = string_or_empty (index "dedupe_key" m);
  depends_on = strings_of (as_list (index "depends_on" m));
  secrets = strings_of (as_list (index "secrets" m));
  config = copy_map m ("type" ∷ "name" ∷ "dedupe_key" ∷ "depends_on" ∷ "secrets" ∷ []);
}

nodes_of : Items → List Node
unfolding node_of
nodes_of nil = []
nodes_of (cons (obj m) xs) = node_of m ∷ nodes_of xs
nodes_of (cons _ xs) = nodes_of xs

-- `fromRaw`: what `Parse` makes of the decoded YAML map.
unfoldable pub from_raw : Fields → Wafer
unfolding triggers_of nodes_of
from_raw raw = record {
  name = string_or_empty (index "name" raw);
  on = elim (as_list (index "triggers" raw)) [ none ↦ [] | some xs ↦ triggers_of xs ];
  nodes = elim (as_list (index "nodes" raw)) [ none ↦ [] | some xs ↦ nodes_of xs ];
  on_failure = string_or_empty (index "on_failure" raw);
}

-- The closure `add` of `ReferencedSecrets`: `seen` holds just the texts of `out`.
add_name : String → List String → List String
add_name name out = if str_eq name "" then out else if has name out then out else out ++ name ∷ []

add_names : List String → List String → List String
unfolding add_name
add_names [] out = out
add_names (s ∷ rest) out = add_names rest (add_name s out)

node_secrets : List Node → List String → List String
unfolding add_names
node_secrets [] out = out
node_secrets (n ∷ rest) out = node_secrets rest (add_names n.secrets out)

trigger_secrets : List Trigger → List String → List String
unfolding add_name
trigger_secrets [] out = out
trigger_secrets (t ∷ rest) out =
    trigger_secrets rest
      (elim (as_string (index "secret" t.config)) [ none ↦ out | some s ↦ add_name s out ])

unfoldable pub referenced_secrets : Wafer → List String
unfolding node_secrets trigger_secrets
referenced_secrets w = trigger_secrets w.on (node_secrets w.nodes [])

-- Named nodes use their name, unnamed ones their position in the list.
unfoldable pub node_id : Node → ℕ → String
node_id n i = if str_eq n.name "" then itoa i else n.name
