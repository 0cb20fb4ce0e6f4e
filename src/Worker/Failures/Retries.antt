-- ===== src/Worker/Failures/Retries.antt =====
-- What `recordFailure` of internal/worker/worker.go makes of the claim and of the run.
pub mod Samples
use servitor.Prelude.{
  ℕ, ◌^◌, ◌≤◌, ◌<◌, ◌≡◌, refl, String, Bool, true, false, not, Option, none, some, List, [], ◌∷◌,
  ◌++◌, str_eq, str_eq_iff, ltb, leb, if◌then◌else◌, arith, select_row, select_row-replace,
  select_row-update_rows, Bool-cases, inl, inr, ◌⊎◌, ap, ◌∙◌,
}
use servitor.Value.{Value, index, as_map}
use servitor.Job.{Head, NodeJob, head}
use servitor.Honker.{
  Status, failed, Claim, QueueLib, Store, Json, RunRow, ResultRow, DedupeRow, FailedContinuation,
  is_result, is_run,
}
use servitor.Honker.Runs.{run_status, get_run, set_run_status}
use servitor.Honker.Failed.{is_failed, write_failed_continuation, get_failed_continuation}
use servitor.Honker.Tx.{
  NodeAtom, with_tx, write_result, write_dedupe, fan_out, ack, adjust_net, commit_node_atom,
  enqueue_ready, result,
}
use servitor.Honker.Runs.Rows.{run_status-set_run_status}
use servitor.Honker.Tx.Steps.{write_result-read, write_dedupe-frame}
use servitor.Honker.Deps.{decrement_dependents}
use servitor.Worker.{
  Kind, secret_missing, source_unreachable, stale, other, Failure, Harness, World, Event,
  run_failed, backoff_delay, resolve_dedupe_key, plain_atom, resolve_run_failed,
}
use servitor.Worker.Failures.{
  commit_failed, failed_dedupe, failure_result, record_failure, after_failure, dead_letter, retry,
  save_failed_continuation,
}

-- The policy: which failures end the run, and how long a retry waits.
unfoldable pub is_final : Harness → Kind → ℕ → Bool
is_final h secret_missing attempts = true
is_final h other attempts = leb h.max_attempts attempts
is_final h _ attempts = leb h.secret_retries attempts

unfoldable pub retry_delay : Kind → ℕ → ℕ
unfolding backoff_delay
retry_delay source_unreachable attempts = backoff_delay attempts
retry_delay _ attempts = 0

module _ (lib : QueueLib) (h : Harness) (json : Json) where
  commit_failed-eq :
      (sj : Head) (v : Value) (s : Store lib.Live)
      → commit_failed lib h json sj v s
        ≡ write_dedupe (failed_dedupe lib h json sj v) (write_result sj.run_id sj.node_id v s)
  unfolding commit_failed with_tx commit_node_atom fan_out ack adjust_net enqueue_ready
      decrement_dependents plain_atom write_dedupe write_result
  commit_failed-eq sj v s = refl

  -- A failed result changes neither the queue nor the runs nor what is saved, and is read back.
  commit_failed-frame :
      (sj : Head) (v : Value) (s : Store lib.Live)
      → let s' = commit_failed lib h json sj v s in
        (s'.live ≡ s.live)
        × (s'.runs ≡ s.runs)
        × (s'.failed_continuations ≡ s.failed_continuations)
        × (result sj.run_id sj.node_id s'
            ≡ some (record { run_id = sj.run_id; node_id = sj.node_id; result = v }))
  unfolding write_result
  commit_failed-frame sj v s =
      let (live, runs, saved, read) =
        write_dedupe-frame lib (failed_dedupe lib h json sj v) sj.run_id sj.node_id
          (write_result sj.run_id sj.node_id v s) in
      let eq = commit_failed-eq sj v s in
      (
        ap (λ x. x.live) eq ∙ live,
        ap (λ x. x.runs) eq ∙ runs,
        ap (λ x. x.failed_continuations) eq ∙ saved,
        ap (result sj.run_id sj.node_id) eq ∙ read ∙ write_result-read lib sj.run_id sj.node_id v s,
      )

  after_failure-final :
      (kind : Kind) (j : NodeJob) (claim : Claim) (w : World lib.Live)
      → is_final h kind claim.attempts ≡ true
      → after_failure lib h json kind j claim w ≡ dead_letter lib h json j claim w
  unfolding after_failure is_final
  after_failure-final secret_missing j claim w final = refl
  after_failure-final source_unreachable j claim w final = rw final
  after_failure-final stale j claim w final = rw final
  after_failure-final other j claim w final = rw final

  after_failure-retry :
      (kind : Kind) (j : NodeJob) (claim : Claim) (w : World lib.Live)
      → is_final h kind claim.attempts ≡ false
      → after_failure lib h json kind j claim w
        ≡ retry lib h json claim (retry_delay kind claim.attempts) w
  unfolding after_failure is_final retry_delay
  after_failure-retry secret_missing j claim w final = ground (arith, final)
  after_failure-retry source_unreachable j claim w final = rw final
  after_failure-retry stale j claim w final = rw final
  after_failure-retry other j claim w final = rw final

  committed : NodeJob → Failure → World lib.Live → World lib.Live
  committed j f w = record w {
    store = commit_failed lib h json (head j) (failure_result lib h json f) w.store;
  }

  record_failure-eq :
      (j : NodeJob) (claim : Claim) (f : Failure) (w : World lib.Live)
      → record_failure lib h json j claim f w
        ≡ after_failure lib h json f.kind j claim (committed j f w)
  unfolding record_failure committed
  record_failure-eq j claim f w = refl

  committed-frame :
      (j : NodeJob) (f : Failure) (w : World lib.Live)
      → let w' = committed j f w in
        (w'.store.live ≡ w.store.live)
        × (w'.store.runs ≡ w.store.runs)
        × (w'.store.failed_continuations ≡ w.store.failed_continuations)
        × (result (head j).run_id (head j).node_id w'.store
            ≡ some (record {
              run_id = (head j).run_id;
              node_id = (head j).node_id;
              result = failure_result lib h json f;
            }))
        × (w'.events ≡ w.events)
  unfolding committed
  committed-frame j f w =
      let (live, runs, saved, read) =
        commit_failed-frame (head j) (failure_result lib h json f) w.store in
      (live, runs, saved, read, refl)

  dead_letter-outcome :
      (j : NodeJob) (claim : Claim) (w : World lib.Live) {r : RunRow}
      → get_run (head j).run_id w.store ≡ some r
      → let w' = dead_letter lib h json j claim w in
        (w'.store.live ≡ lib.fail claim w.store.live)
        × (run_status (head j).run_id w'.store ≡ some failed)
        × (w'.events ≡ w.events ++ run_failed (head j).workflow_id (head j).run_id ∷ [])
        × (get_failed_continuation (head j).run_id w'.store
            ≡ some (record {
              run_id = (head j).run_id;
              workflow_id = (head j).workflow_id;
              event = as_map (index "event" (head j).input);
              payload = j;
            }))
  unfolding dead_letter save_failed_continuation resolve_run_failed write_failed_continuation
      set_run_status get_failed_continuation get_run
  dead_letter-outcome j claim w found = (
    refl,
    run_status-set_run_status (head j).run_id failed
        (record (save_failed_continuation lib h json j w.store) {
          live = lib.fail claim w.store.live;
        })
        found,
    refl,
    select_row-replace (is_failed (head j).run_id) _ w.store.failed_continuations
        ((str_eq_iff (head j).run_id (head j).run_id).1 refl),
  )

  -- A failure that ends the run dead-letters the claim, marks the recorded run failed, reports it, and
  -- saves the node for a rerun.
  pub record_failure-final :
      (j : NodeJob) (claim : Claim) (f : Failure) (w : World lib.Live) {r : RunRow}
      → is_final h f.kind claim.attempts ≡ true
      → get_run (head j).run_id w.store ≡ some r
      → let w' = record_failure lib h json j claim f w in
        (w'.store.live ≡ lib.fail claim w.store.live)
        × (run_status (head j).run_id w'.store ≡ some failed)
        × (w'.events ≡ w.events ++ run_failed (head j).workflow_id (head j).run_id ∷ [])
        × (get_failed_continuation (head j).run_id w'.store
            ≡ some (record {
              run_id = (head j).run_id;
              workflow_id = (head j).workflow_id;
              event = as_map (index "event" (head j).input);
              payload = j;
            }))
  unfolding get_run
  record_failure-final j claim f w final found =
      let eq =
        record_failure-eq j claim f w
        ∙ after_failure-final f.kind j claim (committed j f w) final in
      let (live, runs, saved, read, events) = committed-frame j f w in
      let (live', status, events', saved') =
        dead_letter-outcome j claim (committed j f w)
          (ap (select_row (is_run (head j).run_id)) runs ∙ found) in
      rw eq (
        live' ∙ ap (lib.fail claim) live,
        status,
        events' ∙ ap (λ x. x ++ run_failed (head j).workflow_id (head j).run_id ∷ []) events,
        saved',
      )

  -- Any other failure asks for a retry after the delay of its kind, and nothing else of the run changes.
  pub record_failure-retry :
      (j : NodeJob) (claim : Claim) (f : Failure) (w : World lib.Live)
      → is_final h f.kind claim.attempts ≡ false
      → let w' = record_failure lib h json j claim f w in
        (w'.store.live ≡ lib.retry claim (retry_delay f.kind claim.attempts) w.store.live)
        × (w'.store.runs ≡ w.store.runs)
        × (w'.store.failed_continuations ≡ w.store.failed_continuations)
        × (w'.events ≡ w.events)
  unfolding retry
  record_failure-retry j claim f w again =
      let eq =
        record_failure-eq j claim f w
        ∙ after_failure-retry f.kind j claim (committed j f w) again in
      let (live, runs, saved, read, events) = committed-frame j f w in
      rw eq (ap (lib.retry claim (retry_delay f.kind claim.attempts)) live, runs, saved, events)
