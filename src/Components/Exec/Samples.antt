-- ===== src/Components/Exec/Samples.antt =====
-- Small environments (internal/components/exec).
use servitor.Prelude.{◌≡◌, refl, String, List, [], ◌∷◌, lookup, cut_prefix}
use servitor.Components.Refs.{before_equals, after_equals}
use servitor.Components.Exec.{filtered_env, redact_env}

abbrev secrets : List (String × String)
secrets = ("TOKEN", "abc") ∷ ("OTHER", "xyz") ∷ []

program : Unit {0}
unfolding filtered_env redact_env lookup before_equals after_equals cut_prefix
program = tt

only_declared :
    filtered_env "/bin" secrets ("TOKEN" ∷ "KEY" ∷ [])
    ≡ ("PATH=/bin" ∷ "TOKEN=abc" ∷ [], "KEY" ∷ [])
unfolding program
only_declared = refl

redacted : redact_env ("PATH=/bin" ∷ "TOKEN=abc" ∷ []) "abcd in /bin" ≡ "<redacted:TOKEN>d in /bin"
unfolding program
redacted = refl

-- A secret within a longer one that comes later leaves the rest of the longer one in the text.
part_leaked : redact_env ("A=abc" ∷ "B=abcdef" ∷ []) "abcdef" ≡ "<redacted:A>def"
unfolding program
part_leaked = refl
