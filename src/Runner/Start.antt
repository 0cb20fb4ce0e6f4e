-- ===== src/Runner/Start.antt =====
-- StartRun, initDeps and assignRunID of internal/runner/runner.go. The texts of errors are left out.
use servitor.Prelude.{String, Option, none, some, List, [], ◌∷◌, map, length, insert}
use servitor.Prelude.Int.{ℤ, pos}
use servitor.Value.{Fields}
use servitor.Job.{NodeJob, Jobs, stop, next, job}
use servitor.Honker.{QueueLib, Store}
use servitor.Honker.Deps.{RunDeps, new_run_deps, init_run_deps}
use servitor.Honker.Runs.{create_run}
use servitor.Registry.{Capability}
use servitor.Wafer.{Wafer}
use servitor.Wafer.Dag.{DagNode, resolve_dag}
use servitor.Runner.{made, no_job, unresolved, cyclic, failed}
use servitor.Runner.Build.{from_wafer}

-- The walk goes through Downstream alone: the worker gives the jobs of a body their run id.
unfoldable mutual
  pub assign_run_id : String → NodeJob → NodeJob
  assign_run_id id (job h ds b) = job (record h { run_id = id }) (assign_run_ids id ds) b

  pub assign_run_ids : String → Jobs → Jobs
  assign_run_ids id stop = stop
  assign_run_ids id (next j js) = next (assign_run_id id j) (assign_run_ids id js)

-- depCount[d.Name] = len(d.DependsOn)
unfoldable pub dep_count : List DagNode → List (String × ℤ) → List (String × ℤ)
unfolding insert
dep_count [] counts = counts
dep_count (d ∷ dag) counts = dep_count dag (insert d.name (pos (length d.depends_on)) counts)

abbrev pub name_of : DagNode → String
name_of d = d.name

unfoldable pub run_deps_of : Wafer → String → RunDeps
unfolding dep_count new_run_deps
run_deps_of w id = new_run_deps id (dep_count (resolve_dag w).0 []) (map name_of (resolve_dag w).0)

-- An issue stops it, and so StartRun before anything is queued.
unfoldable pub init_deps : {L : Type 0} → Wafer → String → Store L → Option (Store L)
unfolding run_deps_of init_run_deps
init_deps w id s = elim (resolve_dag w).1 [
  | [] ↦ some (init_run_deps (run_deps_of w id) s)
  | _ ↦ none
]

pub data Started : Type 0 where
  started : String → Started
  nothing : Started
  not_started : Started

module _ (lib : QueueLib) where
  -- What StartRun does with the head; `none` is a job without an encoding. The writes are no
  -- transaction: those before an error stay.
  unfoldable pub record_run :
      Wafer → String → Option NodeJob → Store lib.Live → Store lib.Live × Started
  unfolding create_run init_deps assign_run_id
  record_run w id head s = elim (create_run id w.name s) [
    | none ↦ (s, not_started)
    | some created ↦ elim (init_deps w id created) [
      | none ↦ (created, not_started)
      | some ready ↦ elim head [
        | none ↦ (ready, not_started)
        | some j ↦ elim (lib.enqueue (assign_run_id id j) (pos 0) ready.live) [
          | none ↦ (ready, not_started)
          | some live ↦ (record ready { live = live }, started id)
        ]
      ]
    ]
  ]

  unfoldable pub start_run :
      List Capability → Wafer → Option Fields → String → Store lib.Live → Store lib.Live × Started
  unfolding from_wafer record_run
  start_run types w event id s = elim (from_wafer types w event) [
    | unresolved _ ↦ (s, not_started)
    | failed _ ↦ (s, not_started)
    | no_job ↦ (s, nothing)
    | cyclic ↦ record_run w id none s
    | made head ↦ record_run w id (some head) s
  ]
