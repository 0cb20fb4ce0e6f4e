-- ===== src/Worker/Env.antt =====
-- `nodeEnv` of internal/worker/worker.go: the secrets of a node through the resolver, as the environment of
-- its subprocess.
pub mod Samples
use servitor.Prelude.{
  String, Bool, true, false, Option, none, some, List, [], ◌∷◌, ◌≡◌, refl, sym, ap, ◌∙◌, arith,
  str_eq, str_eq_iff, ◌||◌, ◌<>◌, lookup, any, has, if◌then◌else◌, Option-cases, inl, inr,
}
use servitor.Components.Exec.{base_env, filtered_env}
use servitor.Components.Exec.Declared.{gives, filtered_env-has}
use servitor.Components.Secret.{Resolver, Resolution, Reason, Failure, resolve, answer}
use servitor.Components.Secret
use servitor.Components.Secret.Routes.{first_fatal, lacking, value_of, resolve-delivers}
use servitor.Worker.{Kind, Result, ok, error, NodeEnv}
use servitor.Worker

-- How recordFailure tells the errors of the resolver apart.
abbrev pub kind_of : Reason → Kind
kind_of Reason.source_unreachable = Kind.source_unreachable
kind_of Reason.secret_missing = Kind.secret_missing
kind_of Reason.stale = Kind.stale
kind_of Reason.undeclared = Kind.other
kind_of Reason.other = Kind.other

abbrev values_or_nil : Option (List (String × String)) → List (String × String)
values_or_nil none = []
values_or_nil (some values) = values

-- `path` is the worker's PATH.
unfoldable pub node_env : String → Resolver → String → List String → Result NodeEnv
unfolding resolve filtered_env
node_env path r node names =
    let found = resolve r node names in
    elim found.error [
      | some e ↦ error (record { kind = kind_of e.reason; text = e.message })
      | none ↦ ok (record {
        env = (filtered_env path (values_or_nil found.values) names).0;
        missing = found.missing;
      })
    ]

-- `kv` is the entry of this name with the value that its provider answers.
abbrev pub delivers : Resolver → String → String → String → Bool
delivers r node kv name = elim (value_of (answer r node name)) [
  | none ↦ false
  | some value ↦ str_eq kv (name <> "=" <> value)
]

module _ (r : Resolver) (node : String) (values : List (String × String)) (k : String) where
  any-gives :
      (xs names : List String)
      → ((wanted : String)
          → lookup wanted values
            ≡ (if has wanted names then value_of (answer r node wanted) else none))
      → ((x : String) → has x xs ≡ true → has x names ≡ true)
      → any (gives values k) xs ≡ any (delivers r node k) xs
  unfolding has
  any-gives [] names h within = refl
  any-gives (x ∷ xs) names h within =
      let own : str_eq x x ≡ true = (str_eq_iff x x).1 refl in
      let wanted : has x names ≡ true = within x (ground (arith, own)) in
      let here : lookup x values ≡ value_of (answer r node x) = h x ∙ rw wanted refl in
      let later = any-gives xs names h (λ y m. within y (ground (arith, m))) in
      let same =
        ap
          (λ (o : Option String). elim o as (λ _. Bool) [
            | none ↦ false
            | some value ↦ str_eq k (x <> "=" <> value)
          ])
          here in
      λ i. same i || later i

-- Where no declared secret has a fatal answer, the environment of a node's subprocess has PATH and, for
-- each secret that the node declares and whose provider has a value, the entry with this value, and
-- nothing else; the others are reported missing, in their order.
pub node_env-has :
    (path : String) (r : Resolver) (node : String) (names : List String)
    → first_fatal r node names ≡ none
    → (e : NodeEnv) × (node_env path r node names ≡ ok e)
      × ((k : String) → has k e.env ≡ (has k (base_env path) || any (delivers r node k) names))
      × (e.missing ≡ lacking r node names)
unfolding node_env
node_env-has path r node names calm =
    let (values, found, lookups, missing, fine) = resolve-delivers r node names calm in
    (
      record { env = (filtered_env path values names).0; missing = lacking r node names },
      rw (node_env, fine, found, missing) refl,
      λ k.
          (filtered_env-has path values names k).0
          ∙ ap (λ b. has k (base_env path) || b)
              (any-gives r node values k names names lookups (λ x h. h)),
      refl,
    )
