-- ===== src/Worker/Resume/Samples.antt =====
-- A parked wait and its resume (`resumeInstance`, internal/worker/suspend.go).
use servitor.Prelude.{
  ◌≡◌, refl, String, true, some, List, [], ◌∷◌, ◌==◌, if◌then◌else◌, select_row, count_rows, select,
  has, replace, delete, update_rows,
}
use servitor.Prelude.Int.{pos, ◌+ℤ◌, ◌-ℤ◌}
use servitor.Value.{str}
use servitor.Job.{jobs_of}
use servitor.Honker.{running, waiting, Store}
use servitor.Honker.Samples.{Op, queue, enqueued}
use servitor.Honker.Deps.{decrement_dependents}
use servitor.Honker.Runs.{get_run, run_status}
use servitor.Honker.Suspend.{continuation_count}
use servitor.Honker.Tx.{result}
use servitor.Honker.Tx.Steps.{started, enqueue_all}
use servitor.Worker.Samples.{harness, json, parked, continuation}
use servitor.Worker.Wait.{wait_result, thread_continuation}
use servitor.Worker.Signals.{resume_tx, resume_instance}
use servitor.Worker.Resume.{resume_instance-once, resume_tx-effects}

abbrev resumed : Store (List Op)
resumed = record parked {
  node_results =
      record { run_id = "r"; node_id = "hold"; result = wait_result "signal" (str "now") } ∷ [];
  runs = record { run_id = "r"; workflow_name = "w"; status = running; pending = pos 1 } ∷ [];
  run_deps =
      record { run_id = "r"; node_id = "join"; remaining = pos 2 }
      ∷ record { run_id = "r"; node_id = "last"; remaining = pos 0 }
      ∷ [];
  suspended = [];
  live = enqueued "last" ∷ [];
}

resumes :
    resume_instance queue harness json "r" "hold" "signal" (str "now") parked ≡ (resumed, true)
unfolding resume_instance select_row has replace delete update_rows select ◌+ℤ◌ ◌-ℤ◌ jobs_of
    count_rows
resumes = refl

resume_instance-once_example :
    resume_instance queue harness json "r" "hold" "timer" (str "late") resumed ≡ (resumed, true)
resume_instance-once_example =
    resume_instance-once queue harness json "r" "hold" "signal" "timer" (str "now") (str "late")
      parked resumes

resumes_tx :
    resume_tx queue harness json "r" "hold" continuation (wait_result "signal" (str "now")) parked
    ≡ some resumed
unfolding resume_tx select_row has replace delete update_rows select ◌+ℤ◌ ◌-ℤ◌ jobs_of count_rows
resumes_tx = refl

is_recorded :
    get_run "r" parked
    ≡ some (record { run_id = "r"; workflow_name = "w"; status = waiting; pending = pos 0 })
unfolding get_run select_row
is_recorded = refl

resume_tx-effects_example :
    (ready : List String) × (decrement_dependents "r" ("last" ∷ []) parked.run_deps
      ≡ some (ready, resumed.run_deps))
    × (enqueue_all queue
          (started ready ("last" ∷ []) (
            thread_continuation continuation
              (wait_result "signal" (str "now"))
              (jobs_of continuation.downstream)))
          []
        ≡ some resumed.live)
    × (result "r" "hold" resumed
        ≡ some
            (record { run_id = "r"; node_id = "hold"; result = wait_result "signal" (str "now") }))
    × (run_status "r" resumed
        ≡ some (if continuation_count "r" resumed == 0 then running else waiting))
resume_tx-effects_example =
    resume_tx-effects queue harness json "r" "hold" continuation (wait_result "signal" (str "now"))
      parked refl is_recorded resumes_tx
