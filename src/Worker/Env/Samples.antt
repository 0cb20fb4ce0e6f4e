-- ===== src/Worker/Env/Samples.antt =====
-- The environment of a node with two secrets, of which one has no value (nodeEnv of
-- internal/worker/worker.go).
use servitor.Prelude.{◌≡◌, refl, String, none, List, [], ◌∷◌, ◌||◌, any, has, lookup, insert}
use servitor.Components.Exec.{base_env}
use servitor.Components.Secret.{resolver_from_map, map_provider, answer}
use servitor.Components.Secret.Routes.{first_fatal, lacking}
use servitor.Worker.{NodeEnv, ok}
use servitor.Worker.Env.{node_env, delivers, node_env-has}

abbrev held : List (String × String)
held = ("TOKEN", "abc") ∷ ("KEY", "") ∷ ("OTHER", "xyz") ∷ []

abbrev names : List String
names = "TOKEN" ∷ "KEY" ∷ []

calm : first_fatal (resolver_from_map held) "n" names ≡ none
unfolding first_fatal answer resolver_from_map map_provider lookup insert
calm = refl

node_env-has_example :
    (e : NodeEnv) × (node_env "/bin" (resolver_from_map held) "n" names ≡ ok e)
    × ((k : String)
        → has k e.env
          ≡ (has k (base_env "/bin") || any (delivers (resolver_from_map held) "n" k) names))
    × (e.missing ≡ lacking (resolver_from_map held) "n" names)
node_env-has_example = node_env-has "/bin" (resolver_from_map held) "n" names calm
