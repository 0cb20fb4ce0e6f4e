-- ===== src/Runner/Samples.antt =====
-- A workflow with a foreach node through internal/runner/runner.go, and the theorems at small runs.
use servitor.Prelude.{
  ℕ, ◌≡◌, refl, String, true, false, Option, none, some, List, [], ◌∷◌, map, lookup, has, itoa,
  quote, length, insert, IsDistinct, select_row,
}
use servitor.Prelude.Int.{pos}
use servitor.Value.{str, Fields, end, field, index, string_or_empty}
use servitor.Job.{NodeJob, head, downstream, jobs_of, stop}
use servitor.Honker.{FailedContinuation, RunRow, running, failed, Store}
use servitor.Honker.Samples.{Op, enqueued, queue, store, job_of}
use servitor.Wafer.{Node, Wafer, node_id}
use servitor.Wafer.Dag.{resolve_dag}
use servitor.Registry.{command_for}
use servitor.Registry.Samples.{types}
use servitor.Honker.Failed.{get_failed_continuation, delete_failed_continuation}
use servitor.Honker.Runs.{get_run}
use servitor.Runner.Start.{name_of, start_run, started, assign_run_id}
use servitor.Runner.Rerun.{by_mode, rerun}
use servitor.Runner.Effects.{HasStarted, start_run-HasStarted}
use servitor.Runner.Modes.{rerun-discard, rerun-continue}
use servitor.Runner.{Made, made}
use servitor.Runner.Build.{from_wafer}

abbrev node : String → String → List String → Fields → Node
node type name deps config = record {
  type = type;
  name = name;
  dedupe_key = "";
  depends_on = deps;
  secrets = [];
  config = config;
}

-- `each` runs `one` for every item, `sum` collects the results, `tell` comes after it.
abbrev fan : Wafer
fan = record {
  name = "fan";
  on = [];
  nodes =
      node "foreach" "each" [] (field "body" (str "one") end)
      ∷ node "shell" "one" ("each" ∷ []) end
      ∷ node "shell" "sum" ("one" ∷ []) end
      ∷ node "shell" "tell" ("sum" ∷ []) end
      ∷ [];
  on_failure = "";
}

abbrev line : Wafer
line = record fan {
  nodes = node "shell" "first" [] end ∷ node "shell" "second" ("first" ∷ []) end ∷ [];
}

abbrev jobs_below : Made → List NodeJob
jobs_below (made j) = jobs_of (downstream j)
jobs_below _ = []

abbrev id_and_size : NodeJob → String × ℕ
id_and_size j = ((head j).node_id, length (jobs_of (downstream j)))

program : Unit {0}
unfolding from_wafer resolve_dag lookup has node_id itoa quote command_for index string_or_empty
    jobs_of insert
program = tt

-- The copy of `sum` below the foreach node was made before `tell` was put below it.
lost_successor : map id_and_size (jobs_below (from_wafer types fan none)) ≡ ("sum", 0) ∷ []
unfolding program
lost_successor = refl

chained : map id_and_size (jobs_below (from_wafer types line none)) ≡ ("second", 0) ∷ []
unfolding program
chained = refl

abbrev head_job : Made → NodeJob
head_job (made j) = j
head_job _ = job_of "" [] stop

abbrev line_head : NodeJob
line_head = head_job (from_wafer types line none)

line_made : from_wafer types line none ≡ made line_head
unfolding program
line_made = refl

line_names : IsDistinct (map name_of (resolve_dag line).0)
unfolding program
line_names = (refl, (refl, tt))

line_enqueued :
    queue.enqueue (assign_run_id "r1" line_head) (pos 0) [] ≡ some (enqueued "first" ∷ [])
unfolding program assign_run_id
line_enqueued = refl

start_run-HasStarted_example :
    (after : Store (List Op)) × (start_run queue types line none "r1" store ≡ (after, started "r1"))
    × HasStarted queue "r1" line (enqueued "first" ∷ []) after
start_run-HasStarted_example =
    start_run-HasStarted queue types line none "r1" store line_head (enqueued "first" ∷ [])
      line_made line_names refl line_enqueued

-- Parsing is never asked for here.
abbrev parse : String → Option Wafer
parse text = none

abbrev saved : FailedContinuation
saved = record { run_id = "r"; workflow_id = "w"; event = none; payload = job_of "broken" [] stop }

abbrev failed_run : RunRow
failed_run = record { run_id = "r"; workflow_name = "w"; status = failed; pending = pos 0 }

abbrev failed_store : Store (List Op)
failed_store = record store { runs = failed_run ∷ []; failed_continuations = saved ∷ [] }

is_saved : get_failed_continuation "r" failed_store ≡ some saved
unfolding get_failed_continuation select_row
is_saved = refl

is_recorded : get_run "r" failed_store ≡ some failed_run
unfolding get_run select_row
is_recorded = refl

-- The store later, where the run's row has been changed.
abbrev later_store : Store (List Op)
later_store = record (delete_failed_continuation "r" failed_store) { runs = [] }

still_discarded :
    get_failed_continuation "r" later_store
    ≡ get_failed_continuation "r" (rerun queue types parse "r" "discard" failed_store).0
unfolding rerun by_mode get_failed_continuation delete_failed_continuation select_row
still_discarded = refl

rerun-discard_example :
    let after = (rerun queue types parse "r" "discard" failed_store).0 in
    (rerun queue types parse "r" "discard" failed_store
      ≡ (delete_failed_continuation "r" failed_store, true))
    × (after.runs ≡ failed_store.runs)
    × (after.node_results ≡ failed_store.node_results)
    × (after.run_deps ≡ failed_store.run_deps)
    × (rerun queue types parse "r" "restart" later_store ≡ (later_store, false))
rerun-discard_example =
    rerun-discard queue types parse "r" "restart" failed_store later_store saved is_saved
      still_discarded

rerun-continue_example :
    (after : Store (List Op)) × (rerun queue types parse "r" "continue" failed_store
      ≡ (after, true))
    × (get_run "r" after ≡ some (record failed_run { status = running; pending = pos 1 }))
    × (after.live ≡ enqueued "broken" ∷ [])
    × (get_failed_continuation "r" after ≡ some saved)
rerun-continue_example =
    rerun-continue queue types parse "r" failed_store saved failed_run (enqueued "broken" ∷ [])
      is_saved is_recorded refl
