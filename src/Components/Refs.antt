-- ===== src/Components/Refs.antt =====
-- internal/components/refs/refs.go: `$NAME` references in header templates.
-- The code scans bytes; a `$` and the bytes of a name are ASCII, so scanning characters is the same.
pub mod Names
pub mod Agreement
pub mod Identity
pub mod Outcome
pub mod Samples
use Prim.Native.Char.{Char, code}
use Prim.Native.String
use servitor.Prelude.{
  ℕ, zero, suc, String, Bool, Option, none, some, List, [], ◌∷◌, ◌++◌, leb, ◌==◌, ◌&&◌, ◌||◌,
  str_eq, if◌then◌else◌, length, codes, lookup, insert, has, add_each, ◌<>◌, ◌>>=◌,
}

unfoldable pub is_name_char : Char → Bool
is_name_char c =
    code c == b'_'
    || leb b'A' (code c) && leb (code c) b'Z'
    || leb b'a' (code c) && leb (code c) b'z'
    || leb b'0' (code c) && leb (code c) b'9'

-- `rest[:idx]` and `rest[idx+1:]` at the first `$`.
unfoldable pub before_dollar : String → String
before_dollar String.[] = ""
before_dollar (String.◌∷◌ c s) =
    let rest = String.◌∷◌ c (before_dollar s) in if code c == b'$' then "" else rest

unfoldable pub after_dollar : String → Option String
after_dollar String.[] = none
after_dollar (String.◌∷◌ c s) = let rest = after_dollar s in if code c == b'$' then some s else rest

-- `after[:j]` and `after[j:]`, where the loop over `j` stops.
unfoldable pub name_of : String → String
unfolding is_name_char
name_of String.[] = ""
name_of (String.◌∷◌ c s) =
    let rest = String.◌∷◌ c (name_of s) in if is_name_char c then rest else ""

unfoldable pub past_name : String → String
unfolding is_name_char
past_name String.[] = ""
past_name (String.◌∷◌ c s) =
    let rest = past_name s in if is_name_char c then rest else String.◌∷◌ c s

-- The names that EachRef hands to its callback; `none` is too little fuel. A lone `$` is passed over.
unfoldable pub each_ref_from : ℕ → String → Option (List String)
unfolding after_dollar name_of past_name
each_ref_from zero rest = none
each_ref_from (suc fuel) rest = elim (after_dollar rest) [
  | none ↦ some []
  | some after ↦
      if str_eq (name_of after) ""
      then each_ref_from fuel after
      else (each_ref_from fuel (past_name after) >>= λ names. some (name_of after ∷ names))
]

-- Every round takes at least the `$`.
unfoldable pub each_ref : String → Option (List String)
unfolding each_ref_from
each_ref template = each_ref_from (suc (length (codes template))) template

-- What Substitute returns: the text, or the name that is not declared.
pub data Substituted : Type 0 where
  done : String → Substituted
  undeclared : String → Substituted

unfoldable pub substitute_from : ℕ → String → String → List (String × String) → Option Substituted
unfolding before_dollar after_dollar name_of past_name
substitute_from zero rest out vals = none
substitute_from (suc fuel) rest out vals = elim (after_dollar rest) [
  | none ↦ some (done (out <> rest))
  | some after ↦
      if str_eq (name_of after) ""
      then substitute_from fuel after (out <> before_dollar rest <> "$") vals
      else elim (lookup (name_of after) vals) [
        | none ↦ some (undeclared (name_of after))
        | some value ↦
            substitute_from fuel (past_name after) (out <> before_dollar rest <> value) vals
      ]
]

unfoldable pub substitute : String → List (String × String) → Option Substituted
unfolding substitute_from
substitute template vals = substitute_from (suc (length (codes template))) template "" vals

-- The environment of ResolveHeaders as the map `vals`: `strings.Cut` at the first `=`, an entry
-- without one is passed over, a later entry for a name replaces an earlier one.
unfoldable pub before_equals : String → Option String
before_equals String.[] = none
before_equals (String.◌∷◌ c s) =
    let rest = before_equals s >>= λ name. some (String.◌∷◌ c name) in
    if code c == b'=' then some "" else rest

unfoldable pub after_equals : String → String
after_equals String.[] = ""
after_equals (String.◌∷◌ c s) = let rest = after_equals s in if code c == b'=' then s else rest

unfoldable pub env_values : List String → List (String × String) → List (String × String)
unfolding before_equals after_equals insert
env_values [] vals = vals
env_values (kv ∷ env) vals = elim (before_equals kv) [
  | none ↦ env_values env vals
  | some name ↦ env_values env (insert name (after_equals kv) vals)
]

-- What ResolveHeaders returns: the headers, or the error with the header that has it.
pub data Headers : Type 0 where
  resolved : List (String × String) → Headers
  in_header : String → String → Headers

-- The loop over the headers, a map that Go runs through in an order of its own.
unfoldable pub resolve_from :
    List (String × String) → List (String × String) → List (String × String) → Option Headers
unfolding substitute
resolve_from [] vals out = some (resolved out)
resolve_from ((k, v) ∷ rest) vals out = substitute v vals >>= λ r. elim r [
  | done s ↦ resolve_from rest vals (out ++ (k, s) ∷ [])
  | undeclared name ↦ some (in_header k name)
]

unfoldable pub resolve_headers : List (String × String) → List String → Option Headers
unfolding resolve_from env_values
resolve_headers [] env = some (resolved [])
resolve_headers (h ∷ headers) env = resolve_from (h ∷ headers) (env_values env []) []

-- `ReferencedSecrets` of the templates, in the order in which Go runs through them.
secrets_from : List (String × String) → List String → Option (List String)
unfolding add_each each_ref
secrets_from [] out = some out
secrets_from ((_, v) ∷ rest) out = each_ref v >>= λ names. secrets_from rest (add_each names out)

unfoldable pub template_secrets : List (String × String) → Option (List String)
unfolding secrets_from
template_secrets templates = secrets_from templates []
