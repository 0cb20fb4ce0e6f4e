-- ===== src/Daemon/Control.antt =====
-- The other handlers of internal/daemon/daemon.go: triggering, listing, cancelling, resuming and rerunning
-- runs. `decode_json` is encoding/json on a request's body, `parse` wafer.Parse.
pub mod Cancelled
mod Samples
use servitor.Prelude.{
  ℕ, String, Bool, true, false, Option, none, some, List, [], ◌∷◌, str_eq, if◌then◌else◌,
}
use servitor.Value.{Value, null, obj, Fields}
use servitor.Registry.{Capability}
use servitor.Honker.{QueueLib, Store, Json, RunRow}
use servitor.Honker.Runs.{get_run, run_nodes, cancel_run}
use servitor.Honker.Registry.{get_workflow}
use servitor.Wafer.{Wafer}
use servitor.Runner.Rerun.{rerun}
use servitor.Trigger.Fire.{manual}
use servitor.Worker.{Harness}
use servitor.Worker.Signals.{resume_by_signal}
use servitor.Daemon.{Reply, done, bad_request, not_found, refused, one_run}

-- The body of a request: nothing, no JSON, or a value.
pub data Body : Type 0 where
  empty : Body
  not_json : Body
  json_value : Value → Body

-- A trigger's inputs decode into a map: null into the nil map, and no other value.
abbrev pub inputs_of : Body → Option (Option Fields)
inputs_of empty = some none
inputs_of not_json = none
inputs_of (json_value (obj m)) = some (some m)
inputs_of (json_value null) = some none
inputs_of (json_value _) = none

abbrev pub payload_of : Body → Option Value
payload_of empty = some null
payload_of not_json = none
payload_of (json_value v) = some v

module _ {L : Type 0} where
  unfoldable pub handle_run : String → Store L → Store L × Reply
  unfolding get_run run_nodes
  handle_run id s = if str_eq id "" then (s, bad_request "missing id") else elim (get_run id s) [
    | none ↦ (s, not_found "run not found")
    | some run ↦ (s, one_run run (run_nodes id s))
  ]

  -- The mode of a rerun that names none: that of the run's workflow.
  unfoldable pub workflow_rerun_mode : (String → Option Wafer) → String → Store L → String
  unfolding get_run get_workflow
  workflow_rerun_mode parse id s = elim (get_run id s) [
    | none ↦ "continue"
    | some run ↦ elim (get_workflow run.workflow_name s) [
      | none ↦ "continue"
      | some wf ↦ elim (parse wf.wafer) [
        | none ↦ "continue"
        | some w ↦ if str_eq w.on_failure "" then "continue" else w.on_failure
      ]
    ]
  ]

-- An operation's error is answered with `failure`.
abbrev pub answered : {L : Type 0} → Store L × Bool → Reply → Store L × Reply
answered (s, true) failure = (s, done)
answered (s, false) failure = (s, failure)

module _ (lib : QueueLib) where
  unfoldable pub handle_cancel : String → Store lib.Live → Store lib.Live × Reply
  unfolding get_run cancel_run
  handle_cancel id s = if str_eq id "" then (s, bad_request "missing id") else elim (get_run id s) [
    | none ↦ (s, not_found "run not found")
    | some run ↦ (cancel_run lib id s, done)
  ]

  unfoldable pub handle_rerun :
      List Capability
      → (String → Option Wafer)
      → String
      → String
      → Store lib.Live
      → Store lib.Live × Reply
  unfolding workflow_rerun_mode rerun
  handle_rerun types parse id mode s =
      if str_eq id ""
      then (s, bad_request "missing run-id")
      else answered
          (rerun lib types parse id
            (if str_eq mode "" then workflow_rerun_mode parse id s else mode) s)
          refused

  unfoldable pub handle_resume :
      Harness → Json → String → Body → Store lib.Live → Store lib.Live × Reply
  unfolding resume_by_signal
  handle_resume h json name body s =
      if str_eq name "" then (s, bad_request "missing name") else elim (payload_of body) [
        | none ↦ (s, bad_request "payload must be JSON")
        | some payload ↦ answered (resume_by_signal lib h json name payload s) refused
      ]

  unfoldable pub handle_trigger :
      List Capability
      → (String → Option Wafer)
      → (ℕ → ℕ)
      → String
      → Body
      → Store lib.Live
      → Store lib.Live × Reply
  unfolding manual
  handle_trigger types parse stamp name body s =
      if str_eq name "" then (s, bad_request "missing name") else elim (inputs_of body) [
        | none ↦ (s, bad_request "inputs must be JSON")
        | some inputs ↦ answered (manual lib types parse stamp name inputs s) (not_found "")
      ]
