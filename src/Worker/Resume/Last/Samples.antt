-- ===== src/Worker/Resume/Last/Samples.antt =====
-- A run whose last node is a wait (internal/worker/suspend.go).
use servitor.Prelude.{
  ◌≡◌, refl, some, List, [], ◌∷◌, select_row, update_rows, delete, replace, select, count_rows,
}
use servitor.Prelude.Int.{pos, ◌+ℤ◌}
use servitor.Value.{str, end}
use servitor.Job.{jobs_of}
use servitor.Honker.{running, waiting, Store}
use servitor.Honker.Samples.{Op, queue}
use servitor.Honker.Runs.{get_run, run_pending, run_status}
use servitor.Honker.Suspend.{continuation_count}
use servitor.Worker.Samples.{harness, json, parked}
use servitor.Worker.Signals.{resume_tx}
use servitor.Worker.Resume.Last.{last_wait, resume_tx-last_wait}

abbrev stuck : Store (List Op)
stuck = record parked {
  node_results = record { run_id = "r"; node_id = "hold"; result = str "go" } ∷ [];
  runs = record { run_id = "r"; workflow_name = "w"; status = running; pending = pos 0 } ∷ [];
  suspended = [];
}

recorded :
    get_run "r" parked
    ≡ some (record { run_id = "r"; workflow_name = "w"; status = waiting; pending = pos 0 })
unfolding get_run select_row
recorded = refl

resumes :
    resume_tx queue harness json "r" "hold" (last_wait "r" "hold" "hold" end) (str "go") parked
    ≡ some stuck
unfolding resume_tx select_row replace delete update_rows select ◌+ℤ◌ jobs_of count_rows
resumes = refl

none_left : continuation_count "r" stuck ≡ 0
unfolding continuation_count count_rows select
none_left = refl

resume_tx-last_wait_example :
    (run_status "r" stuck ≡ some running)
    × (run_pending "r" stuck ≡ pos 0)
    × (stuck.live ≡ parked.live)
resume_tx-last_wait_example =
    resume_tx-last_wait queue harness json "r" "hold" "hold" end (str "go") parked recorded refl
      resumes none_left
