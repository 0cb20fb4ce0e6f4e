-- ===== src/Components/Secret.antt =====
-- internal/components/secret: the providers of secrets and the resolver that routes a name to its
-- provider (secret.go, env.go, helpers.go, default.go). A map of Go is an association list. A
-- provider is a function of the node and the name: what it answers at the time of the call.
pub mod Routes
pub mod OnBox
pub mod Varlock
mod Samples
use servitor.Prelude.{
  String, Bool, true, false, Option, none, some, List, [], ◌∷◌, ◌++◌, map, str_eq, if◌then◌else◌,
  ◌<>◌, quote, lookup, insert, sort_by,
}

-- The errors that a failure wraps; `other` is an error that wraps none of them.
pub data Reason : Type 0 where
  source_unreachable : Reason
  secret_missing : Reason
  stale : Reason
  undeclared : Reason
  other : Reason

pub record Failure : Type 0 where
  pub reason : Reason
  pub message : String

abbrev pub reason_text : Reason → String
reason_text source_unreachable = "secret source unreachable"
reason_text secret_missing = "secret missing"
reason_text stale = "secret stale"
reason_text undeclared = "secret not declared"
reason_text other = ""

-- fmt.Errorf("%w: …", reason, …)
abbrev pub wrap : Reason → String → Failure
wrap r detail = record { reason = r; message = reason_text r <> ": " <> detail }

-- What Provider.Resolve returns.
pub data Answer : Type 0 where
  value : String → Answer
  fail : Failure → Answer

abbrev pub Provider : Type 0
Provider = String → String → Answer

pub record Providers : Type 0 where
  pub providers : List (String × Provider)

abbrev pub new_registry : Providers
new_registry = record { providers = [] }

unfoldable pub register : String → Provider → Providers → Providers
register source p r = record { providers = insert source p r.providers }

unfoldable pub provider : String → Providers → Option Provider
provider source r = lookup source r.providers

abbrev key_of : String × Provider → String
key_of (k, p) = k

abbrev same : String → String
same s = s

unfoldable pub source_names : Providers → List String
source_names r = sort_by same (map key_of r.providers)

pub record Resolver : Type 0 where
  pub providers : List (String × Provider)
  pub sources : List (String × String)

-- A nil registry has no providers, and nil sources declare nothing.
unfoldable pub new_resolver : Option Providers → Option (List (String × String)) → Resolver
new_resolver reg sources = record {
  providers = elim reg [ none ↦ [] | some r ↦ r.providers ];
  sources = elim sources [ none ↦ [] | some m ↦ m ];
}

-- What Resolve returns; `values` is nil with an error.
pub record Resolution : Type 0 where
  pub values : Option (List (String × String))
  pub missing : List String
  pub error : Option Failure

abbrev pub stopped : List String → Failure → Resolution
stopped missing e = record { values = none; missing = missing; error = some e }

abbrev pub is_missing : Reason → Bool
is_missing secret_missing = true
is_missing _ = false

-- What the resolver finds for one name: the routing, and the provider's answer.
unfoldable pub answer : Resolver → String → String → Answer
answer r node name = elim (lookup name r.sources) [
  | none ↦ fail (wrap undeclared name)
  | some source ↦ elim (lookup source r.providers) [
    | none ↦
        fail (wrap source_unreachable (name <> " (no provider for source " <> quote source <> ")"))
    | some p ↦ p node name
  ]
]

-- The loop of Resolve, from the values and the missing names so far.
unfoldable pub resolve_from :
    Resolver → String → List String → List (String × String) → List String → Resolution
unfolding answer
resolve_from r node [] values missing = record {
  values = some values;
  missing = missing;
  error = none;
}
resolve_from r node (name ∷ names) values missing = elim (answer r node name) [
  | value v ↦
      if str_eq v ""
      then resolve_from r node names values (missing ++ name ∷ [])
      else resolve_from r node names (insert name v values) missing
  | fail e ↦
      if is_missing e.reason
      then resolve_from r node names values (missing ++ name ∷ [])
      else stopped missing e
]

unfoldable pub resolve : Resolver → String → List String → Resolution
unfolding resolve_from
resolve r node names = resolve_from r node names [] []

unfoldable pub declared : Resolver → String → Bool
declared r name = elim (lookup name r.sources) [ none ↦ false | some _ ↦ true ]

-- EnvProvider: `getenv` is os.Getenv, "" for a variable that is not set.
unfoldable pub env_provider : (String → String) → Provider
env_provider getenv node name =
    if str_eq (getenv name) "" then fail (wrap secret_missing name) else value (getenv name)

unfoldable pub map_provider : List (String × String) → Provider
map_provider m node name = elim (lookup name m) [
  | none ↦ fail (wrap secret_missing name)
  | some v ↦ if str_eq v "" then fail (wrap secret_missing name) else value v
]

abbrev to_test : String × String → String × String
to_test (name, v) = (name, "test")

-- The source of every name of `m` is the one provider, which holds `m`.
unfoldable pub resolver_from_map : List (String × String) → Resolver
unfolding register new_resolver
resolver_from_map m =
    new_resolver (some (register "test" (map_provider m) new_registry)) (some (map to_test m))

-- DefaultRegistry, from the three providers of a build.
unfoldable pub default_registry : Provider → Provider → Provider → Providers
unfolding register
default_registry env varlock onbox =
    register "onbox" onbox (register "varlock" varlock (register "env" env new_registry))
