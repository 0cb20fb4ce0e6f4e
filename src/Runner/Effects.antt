-- ===== src/Runner/Effects.antt =====
-- What StartRun of internal/runner/runner.go do to the store.
use servitor.Prelude.{
  ℕ, zero, suc, String, true, false, Option, some, List, [], ◌∷◌, ◌≡◌, refl, ◌∙◌, arith, str_eq,
  str_eq_iff, has, map, length, get_elem?, lookup, insert, lookup-insert, IsDistinct, replace,
  select_row-replace, List-cases, inl, inr,
}
use servitor.Prelude.Int.{ℤ, pos}
use servitor.Value.{Fields}
use servitor.Job.{NodeJob}
use servitor.Honker.{running, RunRow, QueueLib, Store, is_run}
use servitor.Honker.Deps.{count_of, run_deps_remaining, init_run_deps}
use servitor.Honker.Deps.Init.{run_deps_remaining-init_run_deps}
use servitor.Honker.Runs.{get_run, create_run}
use servitor.Registry.{Capability}
use servitor.Wafer.{Wafer}
use servitor.Wafer.Dag.{DagNode, resolve_dag}
use servitor.Runner.{made, unresolved}
use servitor.Runner.Build.{from_wafer}
use servitor.Runner.Start.{
  assign_run_id, dep_count, name_of, run_deps_of, init_deps, started, record_run, start_run,
}

lookup-dep_count_other :
    (dag : List DagNode) (counts : List (String × ℤ)) (name : String)
    → has name (map name_of dag) ≡ false
    → lookup name (dep_count dag counts) ≡ lookup name counts
unfolding dep_count has
lookup-dep_count_other [] counts name h = refl
lookup-dep_count_other (d ∷ dag) counts name h =
    lookup-dep_count_other dag (insert d.name (pos (length d.depends_on)) counts) name
      (ground (arith, h))
    ∙ lookup-insert d.name name (pos (length d.depends_on)) counts
    ∙ ground (arith, h, str_eq_iff d.name name, str_eq_iff name d.name)

lookup-dep_count :
    (dag : List DagNode) (counts : List (String × ℤ)) (i : ℕ) (d : DagNode)
    → IsDistinct (map name_of dag)
    → get_elem? dag i ≡ some d
    → lookup d.name (dep_count dag counts) ≡ some (pos (length d.depends_on))
unfolding dep_count
lookup-dep_count [] counts i d distinct at_i = absurd cc
lookup-dep_count (e ∷ dag) counts zero d distinct at_i =
    let same : e ≡ d = cc in
    rw (← same) (
      lookup-dep_count_other dag (insert e.name (pos (length e.depends_on)) counts) e.name
        distinct.0
      ∙ lookup-insert e.name e.name (pos (length e.depends_on)) counts
      ∙ ground (arith, (str_eq_iff e.name e.name).1 refl))
lookup-dep_count (e ∷ dag) counts (suc i) d distinct at_i =
    lookup-dep_count dag (insert e.name (pos (length e.depends_on)) counts) i d distinct.1 at_i

has-name :
    (dag : List DagNode) (i : ℕ) (d : DagNode)
    → get_elem? dag i ≡ some d
    → has d.name (map name_of dag) ≡ true
unfolding has
has-name [] i d at_i = absurd cc
has-name (e ∷ dag) zero d at_i =
    let same : e ≡ d = cc in rw (← same) (ground (arith, (str_eq_iff e.name e.name).1 refl))
has-name (e ∷ dag) (suc i) d at_i = ground (arith, has-name dag i d at_i)

pub from_wafer-resolved :
    (types : List Capability) (w : Wafer) (event : Option Fields) (j : NodeJob)
    → from_wafer types w event ≡ made j
    → (resolve_dag w).1 ≡ []
unfolding from_wafer
from_wafer-resolved types w event j h = elim (List-cases (resolve_dag w).1) [
  | inl e ↦ e
  | inr (i, issues, e) ↦
      let bad : unresolved (i ∷ issues) ≡ made j = rw (from_wafer, e) at h in absurd cc
]

-- What a started run has left behind: a run row with one job in flight, for each node as many
-- dependencies as it has, and its head in the queue.
abbrev pub HasStarted : (lib : QueueLib) → String → Wafer → lib.Live → Store lib.Live → Type 0
HasStarted lib id w live after =
    (get_run id after
      ≡ some (record { run_id = id; workflow_name = w.name; status = running; pending = pos 1 }))
    × ((i : ℕ) (d : DagNode)
        → get_elem? (resolve_dag w).0 i ≡ some d
        → run_deps_remaining id d.name after ≡ pos (length d.depends_on))
    × (after.live ≡ live)

abbrev new_run : String → String → RunRow
new_run id name = record { run_id = id; workflow_name = name; status = running; pending = pos 1 }

abbrev with_run : {L : Type 0} → String → String → Store L → Store L
with_run id name s = record s { runs = replace (is_run id) (new_run id name) s.runs }

create_run-some :
    {L : Type 0} (id name : String) (s : Store L)
    → str_eq id "" ≡ false
    → create_run id name s ≡ some (with_run id name s)
unfolding create_run
create_run-some id name s h = rw (create_run, h) refl

get_run-with_run :
    {L : Type 0} (id name : String) (s : Store L)
    → get_run id (with_run id name s) ≡ some (new_run id name)
unfolding get_run
get_run-with_run id name s =
    select_row-replace (is_run id) (new_run id name) s.runs ((str_eq_iff id id).1 refl)

pub init_deps-some :
    {L : Type 0} (w : Wafer) (id : String) (s : Store L)
    → (resolve_dag w).1 ≡ []
    → init_deps w id s ≡ some (init_run_deps (run_deps_of w id) s)
unfolding init_deps
init_deps-some w id s h = rw (init_deps, h) refl

pub run_deps_remaining-run_deps_of :
    {L : Type 0} (w : Wafer) (id : String) (s : Store L) (i : ℕ) (d : DagNode)
    → IsDistinct (map name_of (resolve_dag w).0)
    → get_elem? (resolve_dag w).0 i ≡ some d
    → run_deps_remaining id d.name (init_run_deps (run_deps_of w id) s) ≡ pos (length d.depends_on)
unfolding run_deps_of count_of
run_deps_remaining-run_deps_of w id s i d distinct at_i =
    run_deps_remaining-init_run_deps id (dep_count (resolve_dag w).0 [])
      (map name_of (resolve_dag w).0) s d.name (has-name (resolve_dag w).0 i d at_i)
    ∙ rw (count_of, lookup-dep_count (resolve_dag w).0 [] i d distinct at_i) refl

module _ (lib : QueueLib) where
  -- The store when the head is queued.
  abbrev started_store : Wafer → String → lib.Live → Store lib.Live → Store lib.Live
  started_store w id live s = record (init_run_deps (run_deps_of w id) (with_run id w.name s)) {
    live = live;
  }

  record_run-started :
      (w : Wafer) (id : String) (s : Store lib.Live) (head : NodeJob) (live : lib.Live)
      → (resolve_dag w).1 ≡ []
      → str_eq id "" ≡ false
      → lib.enqueue (assign_run_id id head) (pos 0) s.live ≡ some live
      → record_run lib w id (some head) s ≡ (started_store w id live s, started id)
  unfolding record_run init_run_deps
  record_run-started w id s head live resolved named enqueue =
      rw
        (
          record_run,
          create_run-some id w.name s named,
          init_deps-some w id (with_run id w.name s) resolved,
          enqueue,
        )
        refl

  pub start_run-HasStarted :
      (types : List Capability) (w : Wafer) (event : Option Fields) (id : String)
      (s : Store lib.Live) (head : NodeJob) (live : lib.Live)
      → from_wafer types w event ≡ made head
      → IsDistinct (map name_of (resolve_dag w).0)
      → str_eq id "" ≡ false
      → lib.enqueue (assign_run_id id head) (pos 0) s.live ≡ some live
      → (after : Store lib.Live) × (start_run lib types w event id s ≡ (after, started id))
        × HasStarted lib id w live after
  unfolding start_run init_run_deps get_run run_deps_remaining
  start_run-HasStarted types w event id s head live origin distinct named enqueue = (
    started_store w id live s,
    rw (start_run, origin)
        (record_run-started w id s head live (from_wafer-resolved types w event head origin) named
          enqueue),
    (
      get_run-with_run id w.name s,
      λ i d at_i. run_deps_remaining-run_deps_of w id (with_run id w.name s) i d distinct at_i,
      refl,
    ),
  )
