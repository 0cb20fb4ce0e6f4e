-- ===== src/Components/Exec.antt =====
-- internal/components/exec/exec.go: the environment of a node's subprocess, and what is kept of its
-- output. The subprocess is a parameter.
pub mod Declared
pub mod Run
pub mod Samples
use Prim.Native.Char.{code}
use servitor.Prelude.{
  ℕ, zero, suc, String, Bool, true, false, Option, none, some, List, [], ◌∷◌, ◌++◌, str_eq, ◌==◌,
  ◌||◌, if◌then◌else◌, ◌<>◌, lookup, length, codes, cut_prefix,
}
use servitor.Value.{Value}
use servitor.Components.Refs.{before_equals, after_equals}

-- strings.ReplaceAll of a text that is not empty, from left to right; what was put in is not looked
-- at again. Every round takes at least a character.
unfoldable pub replace_text : ℕ → String → String → String → String
unfolding cut_prefix
replace_text zero old new s = s
replace_text (suc fuel) old new String.[] = ""
replace_text (suc fuel) old new (String.◌∷◌ c s) = elim (cut_prefix old (String.◌∷◌ c s)) [
  | some rest ↦ new <> replace_text fuel old new rest
  | none ↦ String.◌∷◌ c (replace_text fuel old new s)
]

-- One entry of the environment, cut at its first equals sign; PATH and an empty value are left alone.
unfoldable pub redact_value : String → String → String → String
unfolding replace_text
redact_value name value out =
    if str_eq name "PATH" || str_eq value ""
    then out
    else replace_text (suc (length (codes out))) value ("<redacted:" <> name <> ">") out

unfoldable pub redact_env : List String → String → String
unfolding redact_value
redact_env [] out = out
redact_env (kv ∷ env) out = elim (before_equals kv) [
  | none ↦ redact_env env out
  | some name ↦ redact_env env (redact_value name (after_equals kv) out)
]

-- The base environment: PATH alone, with a default where the runner has none.
abbrev pub base_env : String → List String
base_env path =
    ("PATH="
      <> (if str_eq path ""
          then "/usr/local/sbin:/usr/local/bin:/usr/sbin:/usr/bin:/sbin:/bin"
          else path))
    ∷ []

unfoldable pub declared_env :
    List (String × String) → List String → List String → List String → List String × List String
unfolding lookup
declared_env secrets [] env absent = (env, absent)
declared_env secrets (name ∷ declared) env absent = elim (lookup name secrets) [
  | none ↦ declared_env secrets declared env (absent ++ name ∷ [])
  | some value ↦ declared_env secrets declared (env ++ (name <> "=" <> value) ∷ []) absent
]

-- The environment, and the declared names that have no value; `path` is the runner's PATH.
unfoldable pub filtered_env :
    String → List (String × String) → List String → List String × List String
unfolding declared_env
filtered_env path secrets declared = declared_env secrets declared (base_env path) []
