-- ===== src/Worker/Handle.antt =====
-- `handle` of internal/worker/worker.go: one claimed job.
pub mod Cancelled
use servitor.Prelude.{String, Bool, Option, none, some, str_eq, if◌then◌else◌}
use servitor.Value.{null}
use servitor.Job.{NodeJob, head}
use servitor.Honker.{Status, running, waiting, Claim, QueueLib, Store, Json}
use servitor.Honker.Runs.{run_status}
use servitor.Worker.{Result, Harness, World}
use servitor.Worker.Nodes.{handle_node, handle_skip, handle_switch}
use servitor.Worker.Foreach.{handle_foreach, handle_poll, ack_claim}
use servitor.Worker.Wait.{handle_wait}
use servitor.Worker.Signals.{resume_instance, handle_send_signal, handle_rerun_failed}

-- A run that is cancelled or finished does not go on; one that is not recorded does.
unfoldable pub is_over : Option Status → Bool
is_over none = Bool.false
is_over (some running) = Bool.false
is_over (some waiting) = Bool.false
is_over (some _) = Bool.true

module _ (lib : QueueLib) (h : Harness) (json : Json)
    (on_rerun : String → String → Store lib.Live → Result (Store lib.Live)) where
  unfoldable pub by_type : NodeJob → Claim → World lib.Live → World lib.Live
  by_type j claim w =
      let type = (head j).node_type in
      if str_eq type "wait"
      then handle_wait lib h json j claim w
      else if str_eq type "send-signal"
      then handle_send_signal lib h json j claim w
      else if str_eq type "rerun-failed"
      then handle_rerun_failed lib h json on_rerun j claim w
      else if str_eq type "switch"
      then handle_switch lib h json j claim w
      else if str_eq type "foreach"
      then handle_foreach lib h json j claim w
      else if str_eq type "poll"
      then handle_poll lib h json j claim w
      else handle_node lib h json j claim w

  -- `none` is a payload that does not decode.
  unfoldable pub handle : Option NodeJob → Claim → World lib.Live → World lib.Live
  unfolding ack_claim resume_instance run_status is_over handle_skip by_type
  handle none claim w = record w { store = record w.store { live = lib.fail claim w.store.live } }
  handle (some j) claim w =
      if str_eq (head j).node_type "resume"
      then ack_claim lib h json claim (record w {
        store =
            (resume_instance lib h json (head j).run_id (head j).node_id "timer" null w.store).0;
      })
      else if is_over (run_status (head j).run_id w.store)
      then ack_claim lib h json claim w
      else if (head j).skip
      then handle_skip lib h json j claim w
      else by_type j claim w
