-- ===== src/Runner/Rerun.antt =====
-- Rerun of internal/runner/runner.go. `parse` is wafer.Parse of a workflow's text, `none` its error;
-- the result says whether there was no error.
use servitor.Prelude.{
  String, Bool, true, false, Option, none, some, List, str_eq, if◌then◌else◌, ◌>>=◌,
}
use servitor.Prelude.Int.{pos}
use servitor.Honker.{running, FailedContinuation, QueueLib, Store}
use servitor.Honker.Failed.{get_failed_continuation, delete_failed_continuation}
use servitor.Honker.Registry.{get_workflow}
use servitor.Honker.Runs.{set_run_status, set_run_pending}
use servitor.Honker.Tx.{with_tx}
use servitor.Registry.{Capability}
use servitor.Wafer.{Wafer}
use servitor.Runner.Start.{Started, started, nothing, not_started, start_run}

abbrev pub succeeded : Started → Bool
succeeded (started _) = true
succeeded nothing = true
succeeded not_started = false

module _ (lib : QueueLib) where
  unfoldable pub continue_tx : FailedContinuation → Store lib.Live → Option (Store lib.Live)
  unfolding set_run_status set_run_pending
  continue_tx cont s =
      let ready = set_run_pending cont.run_id (pos 1) (set_run_status cont.run_id running s) in
      lib.enqueue cont.payload (pos 0) ready.live >>= λ live. some (record ready { live = live })

  unfoldable pub rerun_continue : FailedContinuation → Store lib.Live → Store lib.Live × Bool
  unfolding continue_tx with_tx
  rerun_continue cont s = with_tx (continue_tx cont) s

  module _ (types : List Capability) (parse : String → Option Wafer) where
    unfoldable pub rerun_restart : FailedContinuation → Store lib.Live → Store lib.Live × Bool
    unfolding get_workflow start_run
    rerun_restart cont s = elim (get_workflow cont.workflow_id s >>= λ wf. parse wf.wafer) [
      | none ↦ (s, false)
      | some w ↦
          let (after, result) = start_run lib types w cont.event cont.run_id s in
          (after, succeeded result)
    ]

    unfoldable pub by_mode :
        FailedContinuation → String → String → Store lib.Live → Store lib.Live × Bool
    unfolding rerun_continue rerun_restart delete_failed_continuation
    by_mode cont id mode s =
        if str_eq mode "continue"
        then rerun_continue cont s
        else if str_eq mode "restart"
        then rerun_restart cont s
        else if str_eq mode "discard"
        then (delete_failed_continuation id s, true)
        else (s, false)

    unfoldable pub rerun : String → String → Store lib.Live → Store lib.Live × Bool
    unfolding get_failed_continuation by_mode
    rerun id mode s = elim (get_failed_continuation id s) [
      | none ↦ (s, false)
      | some cont ↦ by_mode cont id mode s
    ]
