-- ===== src/Wafer/DryRun.antt =====
-- internal/wafer/dryrun.go: the report on a workflow document. `present` says of a name whether
-- os.Getenv finds a value. What Parse makes of a valid document is `from_raw`.
pub mod Samples
use servitor.Prelude.{
  String, Bool, true, false, Option, none, some, List, [], ◌∷◌, ◌++◌, ◌≡◌, ◌↔◌, refl, ◌∙◌, arith,
  if◌then◌else◌, has, any, ◌||◌, ◌<>◌, add_each, IsDistinct, add_each-IsDistinct, has-add_each,
  Bool-cases, List-cases, inl, inr,
}
use servitor.Value.{Value, obj, arr, str, float, int, bool, null, Fields}
use servitor.Registry.{Capability}
use servitor.Wafer.{Wafer, Node, Trigger, Issue, from_raw}
use servitor.Wafer.Dag.{DagNode, resolve_dag}
use servitor.Wafer.Validate.Parts.{Result, is_valid, add_warning, add_error, issue}
use servitor.Wafer.Validate.{validate_value}

-- `dag` is nil where there are blocking errors.
pub record DryRunResult : Type 0 where
  pub result : Result
  pub name : String
  pub triggers : List Trigger
  pub dag : Option (List DagNode)
  pub secrets : List String

abbrev blank : Result → DryRunResult
blank res = record { result = res; name = ""; triggers = []; dag = none; secrets = [] }

unfoldable pub declared_from : List Node → List String → List String
unfolding add_each
declared_from [] out = out
declared_from (s ∷ nodes) out = declared_from nodes (add_each s.secrets out)

unfoldable pub declared_secret_names : Wafer → List String
unfolding declared_from
declared_secret_names w = declared_from w.nodes []

unfoldable pub warn_missing : (String → Bool) → List String → Result → Result
unfolding add_warning
warn_missing present [] res = res
warn_missing present (s ∷ secrets) res =
    let warned =
      add_warning
        (issue "/nodes" "missing_secret"
          ("declared secret \"" <> s <> "\" is not present in the environment") "" "")
        res in
    warn_missing present secrets (if present s then res else warned)

-- Once Validate has found no error.
unfoldable pub resolve_run : (String → Bool) → Wafer → Result → DryRunResult
unfolding declared_secret_names warn_missing
resolve_run present w res = elim ((resolve_dag w).1) [
  | [] ↦ record {
    result = warn_missing present (declared_secret_names w) res;
    name = w.name;
    triggers = w.on;
    dag = some (resolve_dag w).0;
    secrets = declared_secret_names w;
  }
  | i ∷ more ↦ record {
    result = record res { errors = res.errors ++ i ∷ more };
    name = w.name;
    triggers = w.on;
    dag = none;
    secrets = [];
  }
]

module _ (types : List Capability) (present : String → Bool) where
  unfoldable pub dry_run : Value → DryRunResult
  unfolding resolve_run
  dry_run (obj root) =
      let res = validate_value types (obj root) in
      if is_valid res then resolve_run present (from_raw root) res else blank res
  dry_run v = blank (validate_value types v)
