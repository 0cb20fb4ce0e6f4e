-- ===== src/Components/Exec/Declared.antt =====
-- What a node's subprocess sees (FilteredEnv of internal/components/exec/exec.go).
use servitor.Prelude.{
  ◌≡◌, refl, ◌∙◌, arith, String, Bool, false, none, some, List, [], ◌∷◌, ◌++◌, str_eq, ◌||◌, ◌<>◌,
  lookup, any, has, has-snoc, Option-cases, inl, inr,
}
use servitor.Components.Exec.{base_env, declared_env, filtered_env}

-- `kv` is the entry of this name and its value.
abbrev pub gives : List (String × String) → String → String → Bool
gives secrets kv name = elim (lookup name secrets) [
  | none ↦ false
  | some value ↦ str_eq kv (name <> "=" <> value)
]

-- `k` is this name, and it has no value.
abbrev pub lacks : List (String × String) → String → String → Bool
lacks secrets k name = elim (lookup name secrets) [ none ↦ str_eq k name | some _ ↦ false ]

declared_env-has :
    (secrets : List (String × String)) (declared env absent : List String) (k : String)
    → (has k (declared_env secrets declared env absent).0
        ≡ (has k env || any (gives secrets k) declared))
      × (has k (declared_env secrets declared env absent).1
          ≡ (has k absent || any (lacks secrets k) declared))
unfolding declared_env
declared_env-has secrets [] env absent k = (ground arith, ground arith)
declared_env-has secrets (name ∷ declared) env absent k =
    elim (Option-cases (lookup name secrets)) [
      | inl e ↦
          let (given, lacking) = declared_env-has secrets declared env (absent ++ name ∷ []) k in
          let gives_none : gives secrets k name ≡ false = rw (gives, e) refl in
          let lacks_it : lacks secrets k name ≡ str_eq k name = rw (lacks, e) refl in
          rw (declared_env, e)
            (
              given ∙ ground (arith, gives_none),
              lacking ∙ ground (arith, has-snoc k name absent, lacks_it),
            )
      | inr (value, e) ↦
          let entry = name <> "=" <> value in
          let (given, lacking) = declared_env-has secrets declared (env ++ entry ∷ []) absent k in
          let gives_it : gives secrets k name ≡ str_eq k entry = rw (gives, e) refl in
          let lacks_none : lacks secrets k name ≡ false = rw (lacks, e) refl in
          rw (declared_env, e)
            (
              given ∙ ground (arith, has-snoc k entry env, gives_it),
              lacking ∙ ground (arith, lacks_none),
            )
    ]

-- The environment has PATH and the declared secrets with a value, and nothing else; what is reported
-- missing is what is declared without a value.
pub filtered_env-has :
    (path : String) (secrets : List (String × String)) (declared : List String) (k : String)
    → (has k (filtered_env path secrets declared).0
        ≡ (has k (base_env path) || any (gives secrets k) declared))
      × (has k (filtered_env path secrets declared).1 ≡ any (lacks secrets k) declared)
unfolding filtered_env has
filtered_env-has path secrets declared k = declared_env-has secrets declared (base_env path) [] k
