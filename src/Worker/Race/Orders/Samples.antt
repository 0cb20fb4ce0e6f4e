-- ===== src/Worker/Race/Orders/Samples.antt =====
-- One wait in both orders (internal/worker/suspend.go).
use servitor.Prelude.{
  ◌≡◌, refl, some, List, [], ◌∷◌, select_row, update_rows, delete, replace, has, select, count_rows,
}
use servitor.Prelude.Int.{pos, ◌+ℤ◌, ◌-ℤ◌}
use servitor.Value.{str}
use servitor.Job.{jobs_of}
use servitor.Honker.{running, Store}
use servitor.Honker.Samples.{Op, enqueued, acked, queue, claim, store}
use servitor.Honker.Runs.{get_run, run_pending}
use servitor.Worker.Samples.{harness, json, wait_job, parked}
use servitor.Worker.Wait.{wait_result, continuation_of, complete_wait, park}
use servitor.Worker.Signals.{resume_tx}
use servitor.Worker.Race.Orders.{park-resume_tx}

abbrev held : Store (List Op)
held = record parked { live = acked 7 ∷ [] }

-- What both orders leave but for the log of the queue.
abbrev ended : List Op → Store (List Op)
ended log = record store {
  node_results =
      record { run_id = "r"; node_id = "hold"; result = wait_result "signal" (str "now") } ∷ [];
  run_deps =
      record { run_id = "r"; node_id = "join"; remaining = pos 2 }
      ∷ record { run_id = "r"; node_id = "last"; remaining = pos 0 }
      ∷ [];
  live = log;
}

recorded :
    get_run "r" store
    ≡ some (record { run_id = "r"; workflow_name = "w"; status = running; pending = pos 1 })
unfolding get_run select_row
recorded = refl

parks : park queue harness json wait_job claim "go" (pos 0) store ≡ some held
unfolding park replace delete update_rows ◌+ℤ◌
parks = refl

resumes :
    resume_tx queue harness json "r" "hold"
      (continuation_of wait_job)
      (wait_result "signal" (str "now"))
      held
    ≡ some (ended (acked 7 ∷ enqueued "last" ∷ []))
unfolding resume_tx select_row has replace delete update_rows select ◌+ℤ◌ ◌-ℤ◌ jobs_of count_rows
resumes = refl

completes :
    complete_wait queue harness json claim (continuation_of wait_job) "signal" (str "now") store
    ≡ some (ended (enqueued "last" ∷ acked 7 ∷ []))
unfolding complete_wait select_row has replace delete update_rows ◌+ℤ◌ ◌-ℤ◌ jobs_of
completes = refl

park-resume_tx_example :
    let parked_first = ended (acked 7 ∷ enqueued "last" ∷ []) in
    let sent_first = ended (enqueued "last" ∷ acked 7 ∷ []) in
    (parked_first.node_results ≡ sent_first.node_results)
    × (parked_first.run_deps ≡ sent_first.run_deps)
    × (run_pending "r" parked_first ≡ run_pending "r" sent_first)
park-resume_tx_example =
    park-resume_tx queue harness json wait_job claim "go" (pos 0) (str "now") store recorded parks
      resumes completes
