-- ===== src/Daemon/Control/Cancelled.antt =====
-- A run that the control plane has cancelled, at the worker.
use servitor.Prelude.{true, ◌≡◌, ◌∙◌, ap, String, some, str_eq, inl, inr, Bool-cases, Option-cases}
use servitor.Job.{NodeJob, head}
use servitor.Honker.{cancelled, Claim, QueueLib, Store, Json}
use servitor.Honker.Runs.{get_run, cancel_run, run_status}
use servitor.Worker.{Result, Harness, World}
use servitor.Worker.Foreach.{ack_claim}
use servitor.Value.{Value}
use servitor.Worker.Signals.{waits, resume_instance}
use servitor.Worker.Resume.{resume_instance-over}
use servitor.Worker.Handle.{handle}
use servitor.Worker.Handle.Cancelled.{run_status-cancel_run, handle-over, ack_claim-runs}
use servitor.Daemon.{done, bad_request, not_found}
use servitor.Daemon.Control.{handle_cancel}

module _ (lib : QueueLib) where
  -- A cancel request that is answered with `ok` leaves the run cancelled.
  handle_cancel-status :
      (run : String) (before after : Store lib.Live)
      → handle_cancel lib run before ≡ (after, done)
      → run_status run after ≡ some cancelled
  unfolding handle_cancel
  handle_cancel-status run before after answered = elim (Bool-cases (str_eq run "")) [
    | inl empty ↦
        let bad : (before, bad_request "missing id") ≡ (after, done) =
          rw (handle_cancel, empty) at answered in
        absurd cc
    | inr named ↦ elim (Option-cases (get_run run before)) [
      | inl e ↦
          let bad : (before, not_found "run not found") ≡ (after, done) =
            rw (handle_cancel, named, e) at answered in
          absurd cc
      | inr (row, e) ↦
          let same : (cancel_run lib run before, done) ≡ (after, done) =
            rw (handle_cancel, named, e) at answered in
          let is_after : cancel_run lib run before ≡ after = cc in
          rw (← is_after) (run_status-cancel_run lib run before e)
    ]
  ]

  status-runs :
      (run : String) (s t : Store lib.Live) → s.runs ≡ t.runs → run_status run s ≡ run_status run t
  unfolding run_status get_run
  status-runs run s t same = rw same

  -- Once a cancel request for a run is answered with `ok`, and for as long as the run's status is what that
  -- request has left, whatever else has changed in the store, a job of the run that a worker claims, of
  -- whatever type, is only acked: nothing runs, nothing is enqueued or resumed, and no callback is called.
  -- The status is the same after that, so that this holds of the run's next job too. A signal or a timer
  -- that is to resume a wait of the run changes nothing.
  pub handle-handle_cancel :
      (h : Harness) (json : Json)
      (on_rerun : String → String → Store lib.Live → Result (Store lib.Live))
      (before after : Store lib.Live) (j : NodeJob) (claim : Claim) (w : World lib.Live)
      → handle_cancel lib (head j).run_id before ≡ (after, done)
      → run_status (head j).run_id w.store ≡ run_status (head j).run_id after
      → (handle lib h json on_rerun (some j) claim w ≡ ack_claim lib h json claim w)
        × (run_status (head j).run_id (handle lib h json on_rerun (some j) claim w).store
            ≡ run_status (head j).run_id after)
        × ((node source : String) (payload : Value)
            → resume_instance lib h json (head j).run_id node source payload w.store
              ≡ (w.store, true))
  handle-handle_cancel h json on_rerun before after j claim w answered same =
      let status = same ∙ handle_cancel-status (head j).run_id before after answered in
      let over = handle-over lib h json on_rerun j claim w status in
      let kept = status-runs (head j).run_id _ w.store (ack_claim-runs lib h json claim w) in
      (
        over,
        rw over (kept ∙ same),
        λ node source payload.
            resume_instance-over lib h json (head j).run_id node source payload w.store
              (ap (waits lib h json) status),
      )
