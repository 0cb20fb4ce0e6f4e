-- ===== src/Worker/Handle/Cancelled.antt =====
-- Jobs of a run that is cancelled: `CancelRun` of internal/honker/runs.go and `handle` of
-- internal/worker/worker.go.
use servitor.Prelude.{◌≡◌, String, some, str_eq, Bool-cases, Option-cases, inl, inr, ap, refl}
use servitor.Value.{null}
use servitor.Job.{NodeJob, head}
use servitor.Honker.{cancelled, RunRow, Claim, QueueLib, Store, Json}
use servitor.Honker.Runs.{cancel_run, get_run, run_status, set_run_status}
use servitor.Honker.Runs.Rows.{run_status-set_run_status}
use servitor.Worker.{Result, Harness, World}
use servitor.Worker.Foreach.{ack_claim}
use servitor.Worker.Signals.{waits}
use servitor.Worker.Resume.{resume_instance-over}
use servitor.Worker.Handle.{handle, is_over}

module _ (lib : QueueLib) where
  pub run_status-cancel_run :
      (run : String) (s : Store lib.Live) {r : RunRow}
      → get_run run s ≡ some r
      → run_status run (cancel_run lib run s) ≡ some cancelled
  unfolding cancel_run run_status get_run set_run_status
  run_status-cancel_run run s found = run_status-set_run_status run cancelled s found

  pub ack_claim-runs :
      (h : Harness) (json : Json) (claim : Claim) (w : World lib.Live)
      → (ack_claim lib h json claim w).store.runs ≡ w.store.runs
  unfolding ack_claim
  ack_claim-runs h json claim w = elim (Option-cases (lib.ack claim w.store.live)) [
    | inl e ↦ rw (ack_claim, e) refl
    | inr (live, e) ↦ rw (ack_claim, e) refl
  ]

  module _ (h : Harness) (json : Json)
      (on_rerun : String → String → Store lib.Live → Result (Store lib.Live)) where
    -- While a run is cancelled, a job of it, of whatever type, is only acked.
    pub handle-over :
        (j : NodeJob) (claim : Claim) (w : World lib.Live)
        → run_status (head j).run_id w.store ≡ some cancelled
        → handle lib h json on_rerun (some j) claim w ≡ ack_claim lib h json claim w
    unfolding handle is_over
    handle-over j claim w status =
        let asleep = ap (waits lib h json) status in
        let idle =
          resume_instance-over lib h json (head j).run_id (head j).node_id "timer" null w.store
            asleep in
        elim (Bool-cases (str_eq (head j).node_type "resume")) [
          | inl timer ↦
              rw timer (ap (λ p. ack_claim lib h json claim (record w { store = p.0 })) idle)
          | inr other ↦ rw (other, status)
        ]
