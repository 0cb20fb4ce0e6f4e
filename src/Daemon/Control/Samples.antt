-- ===== src/Daemon/Control/Samples.antt =====
-- A run cancelled by a request (handleCancel, internal/daemon/daemon.go).
use servitor.Prelude.{true, ◌≡◌, refl, String, some, List, [], ◌∷◌, select_row}
use servitor.Honker.Samples.{Op, enqueued, queue, claim}
use servitor.Honker.Runs.{cancel_run, get_run, run_status}
use servitor.Worker.{ok, World}
use servitor.Worker.Foreach.{ack_claim}
use servitor.Value.{Value}
use servitor.Worker.Signals.{resume_instance}
use servitor.Worker.Handle.{handle}
use servitor.Worker.Samples.{harness, json, world, wait_job}
use servitor.Daemon.{done}
use servitor.Daemon.Control.{handle_cancel}
use servitor.Daemon.Control.Cancelled.{handle-handle_cancel}

answered : handle_cancel queue "r" world.store ≡ (cancel_run queue "r" world.store, done)
unfolding handle_cancel get_run select_row
answered = refl

-- The store later, with a job of another run in the queue.
abbrev later : World (List Op)
later = record world {
  store = record (cancel_run queue "r" world.store) { live = enqueued "other" ∷ [] };
}

still : run_status "r" later.store ≡ run_status "r" (cancel_run queue "r" world.store)
unfolding run_status get_run cancel_run
still = refl

handle-handle_cancel_example :
    (handle queue harness json (λ run mode s. ok s) (some wait_job) claim later
      ≡ ack_claim queue harness json claim later)
    × (run_status "r"
          (handle queue harness json (λ run mode s. ok s) (some wait_job) claim later).store
        ≡ run_status "r" (cancel_run queue "r" world.store))
    × ((node source : String) (payload : Value)
        → resume_instance queue harness json "r" node source payload later.store
          ≡ (later.store, true))
handle-handle_cancel_example =
    handle-handle_cancel queue harness json (λ run mode s. ok s) world.store
      (cancel_run queue "r" world.store) wait_job claim later answered still
