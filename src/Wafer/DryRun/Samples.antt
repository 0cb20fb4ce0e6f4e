-- ===== src/Wafer/DryRun/Samples.antt =====
-- Reports on small documents (internal/wafer/dryrun.go), and the theorems at them.
use servitor.Prelude.{◌≡◌, refl, String, List, [], ◌∷◌, has, add_each}
use servitor.Value.{end}
use servitor.Wafer.{Wafer, Node}
use servitor.Wafer.DryRun.{declared_secret_names}

abbrev node : List String → Node
node secrets = record {
  type = "shell";
  name = "";
  dedupe_key = "";
  depends_on = [];
  secrets = secrets;
  config = end;
}

abbrev keyed : Wafer
keyed = record {
  name = "keyed";
  on = [];
  nodes = node ("TOKEN" ∷ "KEY" ∷ []) ∷ node ("KEY" ∷ "OTHER" ∷ []) ∷ [];
  on_failure = "";
}

three : declared_secret_names keyed ≡ "TOKEN" ∷ "KEY" ∷ "OTHER" ∷ []
unfolding declared_secret_names add_each has
three = refl
