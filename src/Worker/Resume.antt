-- ===== src/Worker/Resume.antt =====
-- Resuming a parked wait once: `resumeInstance` of internal/worker/suspend.go.
pub mod Samples
pub mod Last
use servitor.Prelude.{
  ℕ, ◌==◌, ◌≡◌, refl, String, Bool, true, false, Option, none, some, List, [], ◌∷◌, str_eq,
  str_eq_iff, if◌then◌else◌, ◌>>=◌, >>=-eq-some, Option-cases, Bool-cases, inl, inr, arith, ap, ◌∙◌,
  sym, subst, length, select_row, count_rows, select_row-delete_self, delete,
}
use servitor.Prelude.Int.{ℤ, pos, ◌+ℤ◌}
use mathlib.Core.Option.{some-injective}
use servitor.Value.{Value}
use servitor.Job.{NodeJob, jobs_of, WaitContinuation}
use servitor.Honker.{
  Status, running, waiting, RunRow, DepRow, Claim, QueueLib, Store, Json, Continuation, is_wait,
  is_run, is_result,
}
use servitor.Honker.Deps.{decrement_dependents}
use servitor.Honker.Runs.{get_run, run_status, adjust_pending, set_run_status}
use servitor.Honker.Runs.Rows.{run_status-set_run_status, get_run-adjust_pending, changed}
use servitor.Honker.Suspend.{get_continuation, delete_continuation, continuation_count}
use servitor.Honker.Tx.{with_tx, write_result, result, fan_out}
use servitor.Honker.Tx.Steps.{started, enqueue_all, fan_out-inv, write_result-read}
use servitor.Worker.{Harness}
use servitor.Worker.Wait.{wait_result, fan_out_continuation, thread_continuation}
use servitor.Worker.Signals.{settle, resume_tx, resume_instance, waits}

with_tx-true :
    {L : Type 0} (f : Store L → Option (Store L)) (s : Store L) {s' : Store L}
    → with_tx f s ≡ (s', true)
    → f s ≡ some s'
unfolding with_tx
with_tx-true f s {s' = s'} h = elim (Option-cases (f s)) [
  | inl failed ↦ let lost : with_tx f s ≡ (s, false) = rw (with_tx, failed) in cc
  | inr (t, done) ↦
      let kept : with_tx f s ≡ (t, true) = rw (with_tx, done) in
      done ∙ ap (λ p. some p.0) (sym kept ∙ h)
]

module _ (lib : QueueLib) (h : Harness) (json : Json) where
  pub settle-frame :
      (run : String) (s : Store lib.Live)
      → let t = settle lib h json run s in
        (t.suspended ≡ s.suspended)
        × (t.live ≡ s.live)
        × (t.run_deps ≡ s.run_deps)
        × (t.node_results ≡ s.node_results)
  unfolding settle set_run_status
  settle-frame run s = elim (Bool-cases (continuation_count run s == 0)) [
    | inl last ↦ rw last (refl, refl, refl, refl)
    | inr more ↦ rw more (refl, refl, refl, refl)
  ]

  -- The wait is gone after the transaction.
  resume_tx-gone :
      (run node : String) (wc : WaitContinuation) (v : Value) (s : Store lib.Live)
      {s' : Store lib.Live}
      → resume_tx lib h json run node wc v s ≡ some s'
      → get_continuation run node s' ≡ none
  unfolding resume_tx get_continuation delete_continuation
  resume_tx-gone run node wc v s done =
      let finish : ℕ × Store lib.Live → Option (Store lib.Live) = λ p.
        some (
          settle lib h json run
            (delete_continuation run node (adjust_pending run (pos p.0) p.1))) in
      let ((n, s1), h1, h2) =
        >>=-eq-some (fan_out_continuation lib h json wc v (write_result run wc.node_id v s)) finish
          done in
      let eq = some-injective _ _ h2 in
      ap (select_row (is_wait run node)) (sym (ap (λ x. x.suspended) eq) ∙ (settle-frame run _).0)
      ∙ select_row-delete_self (is_wait run node) _

  -- Where the wait is gone, a resume does nothing.
  resume_instance-gone :
      (run node source : String) (payload : Value) (s : Store lib.Live)
      → get_continuation run node s ≡ none
      → resume_instance lib h json run node source payload s ≡ (s, true)
  unfolding resume_instance
  resume_instance-gone run node source payload s gone =
      elim (Bool-cases (waits lib h json (run_status run s))) [
        | inl awake ↦ rw (resume_instance, awake, gone)
        | inr over ↦ rw (resume_instance, over)
      ]

  pub resume_instance-over :
      (run node source : String) (payload : Value) (s : Store lib.Live)
      → waits lib h json (run_status run s) ≡ false
      → resume_instance lib h json run node source payload s ≡ (s, true)
  unfolding resume_instance
  resume_instance-over run node source payload s over = rw (resume_instance, over)

  resume_instance-parked :
      (run node source : String) (payload : Value) (s : Store lib.Live) {c : Continuation}
      → waits lib h json (run_status run s) ≡ true
      → get_continuation run node s ≡ some c
      → resume_instance lib h json run node source payload s
        ≡ with_tx (resume_tx lib h json run node c.payload (wait_result source payload)) s
  unfolding resume_instance with_tx
  resume_instance-parked run node source payload s awake parked =
      rw (resume_instance, awake, parked)

  -- A wait that was resumed without an error is not resumed again, by whatever signal or timer: the second
  -- resume leaves the store as it is.
  pub resume_instance-once :
      (run node source source' : String) (payload payload' : Value) (s : Store lib.Live)
      {s' : Store lib.Live}
      → resume_instance lib h json run node source payload s ≡ (s', true)
      → resume_instance lib h json run node source' payload' s' ≡ (s', true)
  resume_instance-once run node source source' payload payload' s {s' = s'} first =
      let idle : (resume_instance lib h json run node source payload s ≡ (s, true)) → s ≡ s' =
        λ still. ap (λ p. p.0) (sym still ∙ first) in
      elim (Bool-cases (waits lib h json (run_status run s))) [
        | inr over ↦
            subst (λ x. resume_instance lib h json run node source' payload' x ≡ (x, true))
              (idle (resume_instance-over run node source payload s over))
              (resume_instance-over run node source' payload' s over)
        | inl awake ↦ elim (Option-cases (get_continuation run node s)) [
          | inl gone ↦
              subst (λ x. resume_instance lib h json run node source' payload' x ≡ (x, true))
                (idle (resume_instance-gone run node source payload s gone))
                (resume_instance-gone run node source' payload' s gone)
          | inr (c, parked) ↦
              let tx = resume_tx lib h json run node c.payload (wait_result source payload) in
              let done =
                with_tx-true tx s
                  (sym (resume_instance-parked run node source payload s awake parked) ∙ first) in
              resume_instance-gone run node source' payload' s'
                (resume_tx-gone run node c.payload (wait_result source payload) s done)
        ]
      ]

  settle-count :
      (run : String) (s : Store lib.Live)
      → continuation_count run (settle lib h json run s) ≡ continuation_count run s
  unfolding continuation_count
  settle-count run s =
      ap (λ rows. count_rows (λ c. str_eq c.run_id run) rows) (settle-frame run s).0

  settle-status :
      (run : String) (s : Store lib.Live) {r : RunRow}
      → get_run run s ≡ some r
      → run_status run (settle lib h json run s)
        ≡ some (if continuation_count run s == 0 then running else r.status)
  unfolding settle run_status
  settle-status run s found = elim (Bool-cases (continuation_count run s == 0)) [
    | inl last ↦ rw last (run_status-set_run_status run running s found)
    | inr more ↦ rw (more, found)
  ]

  get_run-adjust_own :
      (run : String) (delta : ℤ) (s : Store lib.Live)
      → get_run run (adjust_pending run delta s)
        ≡ changed true (λ r. record r { pending = r.pending +ℤ delta }) (get_run run s)
  get_run-adjust_own run delta s =
      rw (get_run-adjust_pending run run delta s, (str_eq_iff run run).1 refl)

  -- A resume that goes through has written the wait's result; it has enqueued just the jobs that the
  -- completed wait makes ready, each with the result in its input; and the recorded run is running again
  -- if no other wait of it is parked, and keeps its status otherwise.
  pub resume_tx-effects :
      (run node : String) (wc : WaitContinuation) (v : Value) (s : Store lib.Live)
      {s' : Store lib.Live} {r : RunRow}
      → wc.run_id ≡ run
      → get_run run s ≡ some r
      → resume_tx lib h json run node wc v s ≡ some s'
      → (ready : List String) × (decrement_dependents run wc.dependents s.run_deps
          ≡ some (ready, s'.run_deps))
        × (enqueue_all lib
              (started ready wc.dependents (thread_continuation wc v (jobs_of wc.downstream)))
              s.live
            ≡ some s'.live)
        × (result run wc.node_id s'
            ≡ some (record { run_id = run; node_id = wc.node_id; result = v }))
        × (run_status run s' ≡ some (if continuation_count run s' == 0 then running else r.status))
  unfolding resume_tx fan_out_continuation write_result delete_continuation result get_run
      adjust_pending
  resume_tx-effects run node wc v s {s' = s'} {r = r} same found done =
      let s0 = write_result run wc.node_id v s in
      let finish : ℕ × Store lib.Live → Option (Store lib.Live) = λ p.
        some (
          settle lib h json run
            (delete_continuation run node (adjust_pending run (pos p.0) p.1))) in
      let ((n, s1), h1, h2) = >>=-eq-some (fan_out_continuation lib h json wc v s0) finish done in
      let (ready, rows, live, down, enq, count, eq1) =
        fan_out-inv lib wc.run_id wc.dependents (thread_continuation wc v (jobs_of wc.downstream))
          s0 h1 in
      let t = delete_continuation run node (adjust_pending run (pos n) s1) in
      let eq2 = some-injective (settle lib h json run t) _ h2 in
      let (susp, lives, deps, results) = settle-frame run t in
      let in_rows : s'.run_deps ≡ rows =
        ap (λ x. x.run_deps) (sym eq2) ∙ deps ∙ ap (λ x. x.run_deps) eq1 in
      let in_live : s'.live ≡ live = ap (λ x. x.live) (sym eq2) ∙ lives ∙ ap (λ x. x.live) eq1 in
      let of_run : get_run run t
          ≡ changed true (λ r. record r { pending = r.pending +ℤ pos n }) (get_run run s1) =
        get_run-adjust_own run (pos n) s1 in
      let of_run' = of_run ∙ ap (changed true _) (ap (get_run run) eq1 ∙ found) in
      (
        ready,
        ap (λ q. decrement_dependents q wc.dependents s.run_deps) (sym same)
            ∙ down
            ∙ ap (λ x. some (ready, x)) (sym in_rows),
        enq ∙ ap (λ x. some x) (sym in_live),
        ap (result run wc.node_id) (sym eq2)
            ∙ ap (select_row (is_result run wc.node_id)) results
            ∙ ap (result run wc.node_id) eq1
            ∙ write_result-read lib run wc.node_id v s,
        ap (run_status run) (sym eq2)
            ∙ settle-status run t of_run'
            ∙ ap (λ k. some (if k == 0 then running else r.status))
                (sym (ap (continuation_count run) (sym eq2) ∙ settle-count run t)),
      )
