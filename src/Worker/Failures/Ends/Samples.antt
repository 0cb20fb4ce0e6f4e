-- ===== src/Worker/Failures/Ends/Samples.antt =====
-- A node whose secret source stays down (`recordFailure`, internal/worker/worker.go).
use servitor.Prelude.{◌≡◌, refl, some, [], ◌∷◌, select_row, arith, List}
use servitor.Prelude.Int.{pos}
use servitor.Job.{NodeJob, stop}
use servitor.Honker.{running}
use servitor.Honker.Samples.{queue, claim, job_of}
use servitor.Honker.Runs.{get_run}
use servitor.Worker.{Failure}
use servitor.Worker.Samples.{harness, json, world, unreachable}
use servitor.Worker.Failures.Ends.{HasEnded, failing, failing-ends}

abbrev node : NodeJob
node = job_of "first" [] stop

abbrev four : List Failure
four = unreachable ∷ unreachable ∷ unreachable ∷ unreachable ∷ []

recorded :
    get_run "r" world.store
    ≡ some (record { run_id = "r"; workflow_name = "w"; status = running; pending = pos 1 })
unfolding get_run select_row
recorded = refl

failing-ends_example :
    HasEnded queue harness json node world
      (failing queue harness json node (unreachable ∷ four) claim world)
failing-ends_example =
    failing-ends queue harness json node four claim world _ recorded refl (omega arith)
      (omega arith) unreachable
