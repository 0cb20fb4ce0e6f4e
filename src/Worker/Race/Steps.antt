-- ===== src/Worker/Race/Steps.antt =====
-- What parking, completing and resuming a wait leave of the tables (internal/worker/suspend.go).
use servitor.Prelude.{
  ℕ, ◌==◌, ◌≡◌, refl, String, true, false, Option, some, List, ◌>>=◌, >>=-eq-some, Bool-cases, inl,
  inr, ap, ◌∙◌, sym, subst, length,
}
use mathlib.Core.Option.{some-injective}
use servitor.Prelude.Int.{ℤ, pos, negsuc, ◌+ℤ◌}
use servitor.Value.{Value}
use servitor.Job.{NodeJob, head, jobs_of, WaitContinuation}
use servitor.Honker.{running, waiting, Claim, QueueLib, Store, Json, Continuation}
use servitor.Honker.Deps.{is_zero, decrement_dependents}
use servitor.Honker.Runs.{adjust_pending, set_run_status}
use servitor.Honker.Suspend.{write_continuation, delete_continuation, continuation_count}
use servitor.Honker.Tx.{write_result, ack, net}
use servitor.Honker.Tx.Steps.{started, fan_out-inv, ack-inv}
use servitor.Worker.{Harness}
use servitor.Worker.Wait.{
  wait_result, continuation_of, timer_job, fan_out_continuation, thread_continuation, complete_wait,
  park, enqueue_timer,
}
use servitor.Worker.Resume.{settle-frame}
use servitor.Worker.Signals.{settle, resume_tx}
use servitor.Worker.Race.Pending.{HasPending, adjust-HasPending, status-HasPending, runs-HasPending}

module _ (lib : QueueLib) (h : Harness) (json : Json) where
  enqueue_timer-zero :
      (j : NodeJob) (run_at : ℤ) (s : Store lib.Live)
      → is_zero run_at ≡ true
      → enqueue_timer lib h json (head j) run_at s ≡ some s
  unfolding enqueue_timer
  enqueue_timer-zero j run_at s zero = rw zero

  enqueue_timer-set :
      (j : NodeJob) (run_at : ℤ) (s : Store lib.Live)
      → is_zero run_at ≡ false
      → enqueue_timer lib h json (head j) run_at s ≡ (
          lib.enqueue (timer_job (head j).run_id (head j).node_id) run_at s.live >>= λ l.
          some (record s { live = l }))
  unfolding enqueue_timer
  enqueue_timer-set j run_at s set = rw set

  enqueue_timer-inv :
      (j : NodeJob) (run_at : ℤ) (s : Store lib.Live) {s' : Store lib.Live}
      → enqueue_timer lib h json (head j) run_at s ≡ some s'
      → (s'.runs ≡ s.runs) × (s'.run_deps ≡ s.run_deps) × (s'.node_results ≡ s.node_results)
  enqueue_timer-inv j run_at s done = elim (Bool-cases (is_zero run_at)) [
    | inl none_set ↦
        let eq = some-injective s _ (sym (enqueue_timer-zero j run_at s none_set) ∙ done) in
        (
          ap (λ x. x.runs) (sym eq),
          ap (λ x. x.run_deps) (sym eq),
          ap (λ x. x.node_results) (sym eq),
        )
    | inr set ↦
        let put : lib.Live → Option (Store lib.Live) = λ l. some (record s { live = l }) in
        let (live, h1, h2) =
          >>=-eq-some (lib.enqueue (timer_job (head j).run_id (head j).node_id) run_at s.live) put
            (sym (enqueue_timer-set j run_at s set) ∙ done) in
        let eq = some-injective (record s { live = live }) _ h2 in
        (
          ap (λ x. x.runs) (sym eq),
          ap (λ x. x.run_deps) (sym eq),
          ap (λ x. x.node_results) (sym eq),
        )
  ]

  abbrev pub parked_row : NodeJob → String → ℤ → Continuation
  parked_row j signal run_at = record {
    run_id = (head j).run_id;
    node_id = (head j).node_id;
    workflow_id = (head j).workflow_id;
    signal_name = signal;
    run_at = run_at;
    payload = continuation_of j;
  }

  -- What parking leaves of the tables that a completion reads.
  pub park-inv :
      (j : NodeJob) (claim : Claim) (signal : String) (run_at p : ℤ) (s : Store lib.Live)
      {s1 : Store lib.Live}
      → park lib h json j claim signal run_at s ≡ some s1
      → HasPending (head j).run_id p s
      → (s1.run_deps ≡ s.run_deps)
        × (s1.node_results ≡ s.node_results)
        × HasPending (head j).run_id (p +ℤ negsuc 0) s1
  unfolding park write_continuation set_run_status adjust_pending
  park-inv j claim signal run_at p s done at =
      let run = (head j).run_id in
      let parked = set_run_status run waiting (write_continuation (parked_row j signal run_at) s) in
      let finish : Store lib.Live → Option (Store lib.Live) =
        λ t. enqueue_timer lib h json (head j) run_at (adjust_pending run (negsuc 0) t) in
      let (t, h1, h2) = >>=-eq-some (ack lib (some claim) parked) finish done in
      let (acks, eq) = ack-inv lib (some claim) parked h1 in
      let (runs, deps, results) = enqueue_timer-inv j run_at (adjust_pending run (negsuc 0) t) h2 in
      let pending =
        status-HasPending run p waiting (write_continuation (parked_row j signal run_at) s)
          (runs-HasPending run p s _ refl at) in
      (
        deps ∙ ap (λ x. x.run_deps) eq,
        results ∙ ap (λ x. x.node_results) eq,
        runs-HasPending run (p +ℤ negsuc 0) _ _ runs (
            adjust-HasPending run p (negsuc 0) t
              (runs-HasPending run p parked t (ap (λ x. x.runs) eq) pending)),
      )

  -- The jobs that a completed wait starts.
  abbrev pub behind : WaitContinuation → Value → List NodeJob
  behind wc v = thread_continuation wc v (jobs_of wc.downstream)

  pub complete-inv :
      (claim : Claim) (wc : WaitContinuation) (source : String) (payload : Value) (p : ℤ)
      (s : Store lib.Live) {s' : Store lib.Live}
      → complete_wait lib h json claim wc source payload s ≡ some s'
      → HasPending wc.run_id p s
      → let v = wait_result source payload in
        (ready : List String) × (decrement_dependents wc.run_id wc.dependents s.run_deps
          ≡ some (ready, s'.run_deps))
        × (s'.node_results ≡ (write_result wc.run_id wc.node_id v s).node_results)
        × HasPending wc.run_id
            (p +ℤ net lib (some claim) (length (started ready wc.dependents (behind wc v))))
            s'
  unfolding complete_wait fan_out_continuation write_result adjust_pending
  complete-inv claim wc source payload p s {s' = s'} done at =
      let v = wait_result source payload in
      let s0 = write_result wc.run_id wc.node_id v s in
      let close : ℕ → Store lib.Live → Option (Store lib.Live) =
        λ n t. some (adjust_pending wc.run_id (net lib (some claim) n) t) in
      let finish : ℕ × Store lib.Live → Option (Store lib.Live) =
        λ q. ack lib (some claim) q.1 >>= close q.0 in
      let ((n, s1), h1, h2) = >>=-eq-some (fan_out_continuation lib h json wc v s0) finish done in
      let (ready, rows, live, down, enq, count, eq1) =
        fan_out-inv lib wc.run_id wc.dependents (behind wc v) s0 h1 in
      let (s2, h3, h4) = >>=-eq-some (ack lib (some claim) s1) (close n) h2 in
      let (acks, eq2) = ack-inv lib (some claim) s1 h3 in
      let eq3 = some-injective (adjust_pending wc.run_id (net lib (some claim) n) s2) s' h4 in
      let deps : s'.run_deps ≡ rows =
        ap (λ x. x.run_deps) (sym eq3) ∙ ap (λ x. x.run_deps) eq2 ∙ ap (λ x. x.run_deps) eq1 in
      let runs : s2.runs ≡ s.runs = ap (λ x. x.runs) eq2 ∙ ap (λ x. x.runs) eq1 in
      let results : s'.node_results ≡ s0.node_results =
        ap (λ x. x.node_results) (sym eq3)
        ∙ ap (λ x. x.node_results) eq2
        ∙ ap (λ x. x.node_results) eq1 in
      let pending =
        adjust-HasPending wc.run_id p (net lib (some claim) n) s2
          (runs-HasPending wc.run_id p s s2 runs at) in
      (
        ready,
        down ∙ ap (λ x. some (ready, x)) (sym deps),
        results,
        subst (λ x. HasPending wc.run_id (p +ℤ net lib (some claim) x) s') count
            (subst (λ x. HasPending wc.run_id (p +ℤ net lib (some claim) n) x) eq3 pending),
      )

  settle-HasPending :
      (run : String) (p : ℤ) (s : Store lib.Live)
      → HasPending run p s
      → HasPending run p (settle lib h json run s)
  unfolding settle
  settle-HasPending run p s at = elim (Bool-cases (continuation_count run s == 0)) [
    | inl last ↦ rw last (status-HasPending run p running s at)
    | inr more ↦ rw more at
  ]

  pub resume-inv :
      (node : String) (wc : WaitContinuation) (v : Value) (p : ℤ) (s : Store lib.Live)
      {s' : Store lib.Live}
      → resume_tx lib h json wc.run_id node wc v s ≡ some s'
      → HasPending wc.run_id p s
      → (ready : List String) × (decrement_dependents wc.run_id wc.dependents s.run_deps
          ≡ some (ready, s'.run_deps))
        × (s'.node_results ≡ (write_result wc.run_id wc.node_id v s).node_results)
        × HasPending wc.run_id (p +ℤ pos (length (started ready wc.dependents (behind wc v)))) s'
  unfolding resume_tx fan_out_continuation write_result adjust_pending delete_continuation
  resume-inv node wc v p s {s' = s'} done at =
      let run = wc.run_id in
      let s0 = write_result run wc.node_id v s in
      let finish : ℕ × Store lib.Live → Option (Store lib.Live) = λ q.
        some (
          settle lib h json run
            (delete_continuation run node (adjust_pending run (pos q.0) q.1))) in
      let ((n, s1), h1, h2) = >>=-eq-some (fan_out_continuation lib h json wc v s0) finish done in
      let (ready, rows, live, down, enq, count, eq1) =
        fan_out-inv lib run wc.dependents (behind wc v) s0 h1 in
      let t = delete_continuation run node (adjust_pending run (pos n) s1) in
      let eq2 = some-injective (settle lib h json run t) s' h2 in
      let (susp, lives, deps', results') = settle-frame lib h json run t in
      let deps : s'.run_deps ≡ rows =
        ap (λ x. x.run_deps) (sym eq2) ∙ deps' ∙ ap (λ x. x.run_deps) eq1 in
      let results : s'.node_results ≡ s0.node_results =
        ap (λ x. x.node_results) (sym eq2) ∙ results' ∙ ap (λ x. x.node_results) eq1 in
      let pending =
        adjust-HasPending run p (pos n) s1 (runs-HasPending run p s s1 (ap (λ x. x.runs) eq1) at) in
      let pending' =
        settle-HasPending run (p +ℤ pos n) t
          (runs-HasPending run (p +ℤ pos n) (adjust_pending run (pos n) s1) t refl pending) in
      (
        ready,
        down ∙ ap (λ x. some (ready, x)) (sym deps),
        results,
        subst (λ x. HasPending run (p +ℤ pos x) s') count
            (subst (λ x. HasPending run (p +ℤ pos n) x) eq2 pending'),
      )
