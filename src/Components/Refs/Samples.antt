-- ===== src/Components/Refs/Samples.antt =====
-- Small templates (internal/components/refs), and the theorems at them.
use servitor.Prelude.{◌≡◌, refl, String, some, List, [], ◌∷◌, lookup, insert}
use servitor.Components.Refs.{
  each_ref, substitute, done, undeclared, Headers, resolved, resolve_headers, env_values,
  template_secrets,
}
use servitor.Components.Refs.Agreement.{Agrees, each_ref-substitute}
use servitor.Components.Refs.Outcome.{Explains, resolve_headers-Explains}

abbrev template : String
template = "Bearer $TOKEN, 5$ of $USER_1!"

abbrev headers : List (String × String)
headers = ("Authorization", "Bearer $TOKEN") ∷ ("X-User", template) ∷ []

program : Unit {0}
unfolding each_ref substitute resolve_headers env_values template_secrets lookup insert
program = tt

two_names : each_ref template ≡ some ("TOKEN" ∷ "USER_1" ∷ [])
unfolding program
two_names = refl

one_missing : substitute template (("TOKEN", "abc") ∷ []) ≡ some (undeclared "USER_1")
unfolding program
one_missing = refl

lone_dollar : substitute "5$ off" [] ≡ some (done "5$ off")
unfolding program
lone_dollar = refl

-- The later of two entries counts, and a value may hold an equals sign.
resolved_headers :
    resolve_headers headers ("TOKEN=x" ∷ "USER_1=ann" ∷ "HOME" ∷ "TOKEN=a=b" ∷ [])
    ≡ some (resolved (("Authorization", "Bearer a=b") ∷ ("X-User", "Bearer a=b, 5$ of ann!") ∷ []))
unfolding program
resolved_headers = refl

secrets_once : template_secrets headers ≡ some ("TOKEN" ∷ "USER_1" ∷ [])
unfolding program
secrets_once = refl

each_ref-substitute_example :
    Agrees (each_ref template) (substitute template (("TOKEN", "abc") ∷ [])) (("TOKEN", "abc") ∷ [])
each_ref-substitute_example = each_ref-substitute template (("TOKEN", "abc") ∷ [])

resolve_headers-Explains_example :
    (r : Headers) × (resolve_headers headers ("TOKEN=x" ∷ []) ≡ some r)
    × Explains headers (env_values ("TOKEN=x" ∷ []) []) r
resolve_headers-Explains_example = resolve_headers-Explains headers ("TOKEN=x" ∷ [])
