-- ===== src/Worker/Resume/Last.antt =====
-- A wait that is the last node of its run, resumed (`resumeInstance`, internal/worker/suspend.go).
pub mod Samples
use servitor.Prelude.{
  ◌≡◌, refl, String, Option, some, List, [], ◌==◌, if◌then◌else◌, ap, ◌∙◌, sym, length, ℕ,
}
use mathlib.Core.Option.{some-injective}
use servitor.Prelude.Int.{ℤ, pos, ◌+ℤ◌}
use servitor.Value.{Value, Fields}
use servitor.Job.{jobs_of, stop, WaitContinuation}
use servitor.Honker.{running, QueueLib, RunRow, Store, Json}
use servitor.Honker.Runs.{get_run, run_pending, run_status}
use servitor.Honker.Suspend.{continuation_count}
use servitor.Honker.Tx.Steps.{started, enqueue_all}
use servitor.Worker.{Harness}
use servitor.Worker.Wait.{thread_continuation}
use servitor.Worker.Signals.{resume_tx}
use servitor.Worker.Resume.{resume_tx-effects}
use servitor.Worker.Race.Pending.{HasPending}
use servitor.Worker.Race.Steps.{resume-inv}
use servitor.Worker.Race.Orders.{run_pending-HasPending}

-- A wait behind which there is nothing.
abbrev pub last_wait : String → String → String → Fields → WaitContinuation
last_wait run node name input = record {
  run_id = run;
  node_id = node;
  node_name = name;
  input = input;
  dependents = [];
  downstream = stop;
}

module _ (lib : QueueLib) (h : Harness) (json : Json) where
  started-none :
      (ready : List String) (run node name : String) (input : Fields) (v : Value)
      → started ready [] (thread_continuation (last_wait run node name input) v (jobs_of stop)) ≡ []
  unfolding started thread_continuation jobs_of
  started-none ready run node name input v = refl

  -- The resume of the last parked wait of a run in which nothing is in flight and nothing comes behind the
  -- wait leaves the run `running` with no job in flight and no new job in the queue.
  pub resume_tx-last_wait :
      (run node name : String) (input : Fields) (v : Value) (s : Store lib.Live)
      {s' : Store lib.Live} {r : RunRow}
      → get_run run s ≡ some r
      → r.pending ≡ pos 0
      → resume_tx lib h json run node (last_wait run node name input) v s ≡ some s'
      → continuation_count run s' ≡ 0
      → (run_status run s' ≡ some running) × (run_pending run s' ≡ pos 0) × (s'.live ≡ s.live)
  unfolding enqueue_all ◌+ℤ◌
  resume_tx-last_wait run node name input v s {s' = s'} {r = r} found idle done alone =
      let wc = last_wait run node name input in
      let (ready, down, enq, res, status) =
        resume_tx-effects lib h json run node wc v s refl found done in
      let at : HasPending run (pos 0) s = (r, found, idle) in
      let (ready', down', results', at') = resume-inv lib h json node wc v (pos 0) s done at in
      (
        status ∙ ap (λ k. some (if k == 0 then running else r.status)) alone,
        run_pending-HasPending run _ s' at'
            ∙ ap (λ (js : List _). pos 0 +ℤ pos (length js))
                (started-none ready' run node name input v),
        some-injective _ _ (
            sym enq
            ∙ ap (λ js. enqueue_all lib js s.live) (started-none ready run node name input v)),
      )
