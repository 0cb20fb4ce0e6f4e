-- ===== src/Worker/Failures/Retries/Samples.antt =====
-- Failures of a node on its first attempt (`recordFailure`, internal/worker/worker.go).
use servitor.Prelude.{◌≡◌, refl, true, false, some, [], ◌∷◌, ◌++◌, select_row}
use servitor.Prelude.Int.{pos}
use servitor.Value.{index, as_map}
use servitor.Job.{NodeJob, head, stop}
use servitor.Honker.{failed, running}
use servitor.Honker.Samples.{queue, claim, job_of}
use servitor.Honker.Runs.{run_status, get_run}
use servitor.Honker.Failed.{get_failed_continuation}
use servitor.Worker.{run_failed}
use servitor.Worker.Samples.{harness, json, world, missing_secret, unreachable}
use servitor.Worker.Failures.{record_failure}
use servitor.Worker.Failures.Retries.{is_final, record_failure-final}

abbrev node : NodeJob
node = job_of "first" [] stop

missing_is_final : is_final harness missing_secret.kind claim.attempts ≡ true
unfolding is_final
missing_is_final = refl

unreachable_is_not : is_final harness unreachable.kind claim.attempts ≡ false
unfolding is_final
unreachable_is_not = refl

recorded :
    get_run "r" world.store
    ≡ some (record { run_id = "r"; workflow_name = "w"; status = running; pending = pos 1 })
unfolding get_run select_row
recorded = refl

record_failure-final_example :
    let w' = record_failure queue harness json node claim missing_secret world in
    (w'.store.live ≡ queue.fail claim world.store.live)
    × (run_status "r" w'.store ≡ some failed)
    × (w'.events ≡ [] ++ run_failed "w" "r" ∷ [])
    × (get_failed_continuation "r" w'.store
        ≡ some (record {
          run_id = "r";
          workflow_id = "w";
          event = as_map (index "event" (head node).input);
          payload = node;
        }))
record_failure-final_example =
    record_failure-final queue harness json node claim missing_secret world missing_is_final
      recorded
