-- ===== src/Worker/Race/Orders.antt =====
-- A wait that parks and is resumed by a signal, against one that finds the signal there
-- (internal/worker/suspend.go).
pub mod Samples
use servitor.Prelude.{
  ◌≡◌, refl, String, Option, some, List, ap, ◌∙◌, sym, arith, replace, length, select_row, ℕ,
}
use mathlib.Core.Option.{some-injective}
use servitor.Prelude.Int.{ℤ, pos, negsuc, ◌+ℤ◌, int_laws}
use servitor.Value.{Value}
use servitor.Job.{NodeJob, head, jobs_of}
use servitor.Honker.{Claim, DepRow, QueueLib, Store, Json, RunRow, is_result}
use servitor.Honker.Deps.{decrement_dependents}
use servitor.Honker.Runs.{get_run, run_pending}
use servitor.Honker.Tx.{write_result, net}
use servitor.Honker.Tx.Steps.{started}
use servitor.Worker.{Harness}
use servitor.Worker.Wait.{wait_result, continuation_of, complete_wait, park}
use servitor.Worker.Signals.{resume_tx}
use servitor.Worker.Race.Pending.{HasPending}
use servitor.Worker.Race.Steps.{park-inv, complete-inv, resume-inv, behind}

pub run_pending-HasPending :
    {L : Type 0} (run : String) (p : ℤ) (s : Store L) → HasPending run p s → run_pending run s ≡ p
unfolding run_pending get_run
run_pending-HasPending run p s (r, found, eq) = rw (run_pending, found, eq)

same_net : (p : ℤ) (n : ℕ) → p +ℤ negsuc 0 +ℤ pos n ≡ p +ℤ (pos n +ℤ negsuc 0)
same_net p n = omega int_laws

module _ (lib : QueueLib) (h : Harness) (json : Json) where
  write_result-rows :
      (run node : String) (v : Value) (s t : Store lib.Live)
      → s.node_results ≡ t.node_results
      → (write_result run node v s).node_results ≡ (write_result run node v t).node_results
  unfolding write_result
  write_result-rows run node v s t eq =
      ap (replace (is_result run node) (record { run_id = run; node_id = node; result = v })) eq

  -- Whether the wait parks and a signal then resumes it, or the wait finds the signal buffered, the run
  -- has the same results, the same dependency counts and the same number of jobs in flight, where the
  -- transactions go through and the run is recorded.
  pub park-resume_tx :
      (j : NodeJob) (claim : Claim) (signal : String) (run_at : ℤ) (payload : Value)
      (s : Store lib.Live) {s1 s2 s' : Store lib.Live} {r : RunRow}
      → get_run (head j).run_id s ≡ some r
      → park lib h json j claim signal run_at s ≡ some s1
      → resume_tx lib h json
          (head j).run_id
          (head j).node_id
          (continuation_of j)
          (wait_result "signal" payload)
          s1
        ≡ some s2
      → complete_wait lib h json claim (continuation_of j) "signal" payload s ≡ some s'
      → (s2.node_results ≡ s'.node_results)
        × (s2.run_deps ≡ s'.run_deps)
        × (run_pending (head j).run_id s2 ≡ run_pending (head j).run_id s')
  park-resume_tx j claim signal run_at payload s {s1 = s1} {s2 = s2} {s' = s'} {r = r} found parks
        resumes completes =
      let run = (head j).run_id in
      let wc = continuation_of j in
      let v = wait_result "signal" payload in
      let at : HasPending run r.pending s = (r, found, refl) in
      let (deps1, results1, at1) = park-inv lib h json j claim signal run_at r.pending s parks at in
      let (ready2, down2, results2, at2) =
        resume-inv lib h json (head j).node_id wc v (r.pending +ℤ negsuc 0) s1 resumes at1 in
      let (ready3, down3, results3, at3) =
        complete-inv lib h json claim wc "signal" payload r.pending s completes at in
      let down = sym down2 ∙ ap (decrement_dependents run (head j).dependents) deps1 ∙ down3 in
      let ready : ready2 ≡ ready3 = cc in
      let deps : s2.run_deps ≡ s'.run_deps = cc in
      let jobs : List String → ℕ =
        λ xs. length (started xs (head j).dependents (behind lib h json wc v)) in
      (
        results2 ∙ write_result-rows run (head j).node_id v s1 s results1 ∙ sym results3,
        deps,
        run_pending-HasPending run _ s2 at2
            ∙ same_net r.pending (jobs ready2)
            ∙ ap (λ xs. r.pending +ℤ (pos (jobs xs) +ℤ negsuc 0)) ready
            ∙ sym (run_pending-HasPending run _ s' at3),
      )
