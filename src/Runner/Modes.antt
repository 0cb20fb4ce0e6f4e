-- ===== src/Runner/Modes.antt =====
-- The modes of Rerun of internal/runner/runner.go.
use servitor.Prelude.{
  String, true, false, Option, none, some, List, [], ◌∷◌, ◌≡◌, ◌∙◌, ap, refl, arith, str_eq_iff,
  has, select_row-delete_self, Option-cases, inl, inr,
}
use servitor.Prelude.Int.{pos}
use servitor.Honker.{running, RunRow, FailedContinuation, QueueLib, Store}
use servitor.Honker.Failed.{get_failed_continuation, delete_failed_continuation, is_failed}
use servitor.Honker.Runs.{get_run, set_run_status, set_run_pending}
use servitor.Honker.Runs.Rows.{get_run-set_run_status, get_run-set_run_pending}
use servitor.Honker.Tx.{with_tx}
use servitor.Registry.{Capability}
use servitor.Wafer.{Wafer}
use servitor.Runner.Rerun.{continue_tx, rerun_continue, by_mode, rerun}

get_run-restarted :
    {L : Type 0} (run : String) (s : Store L) {r : RunRow}
    → get_run run s ≡ some r
    → get_run run (set_run_pending run (pos 1) (set_run_status run running s))
      ≡ some (record r { status = running; pending = pos 1 })
get_run-restarted run s found =
    let same = (str_eq_iff run run).1 refl in
    rw
      (
        get_run-set_run_pending run run (pos 1) (set_run_status run running s),
        get_run-set_run_status run run running s,
        found,
        same,
      )
      refl

module _ (lib : QueueLib) (types : List Capability) (parse : String → Option Wafer) where
  -- Without a saved continuation nothing is done.
  rerun-none :
      (id mode : String) (s : Store lib.Live)
      → get_failed_continuation id s ≡ none
      → rerun lib types parse id mode s ≡ (s, false)
  unfolding rerun
  rerun-none id mode s h = rw (rerun, h) refl

  get-delete_failed :
      (id : String) (s : Store lib.Live)
      → get_failed_continuation id (delete_failed_continuation id s) ≡ none
  unfolding get_failed_continuation delete_failed_continuation
  get-delete_failed id s = select_row-delete_self (is_failed id) s.failed_continuations

  -- Discarding a failed run that has a saved continuation goes through and deletes just that: the rows of
  -- the runs, the results of nodes and the dependency counts stay as they are. For as long as the
  -- continuation saved for the run is what discard has left, whatever else has changed in the store, a rerun
  -- of the run, in any mode, is refused and changes nothing.
  pub rerun-discard :
      (id mode : String) (s later : Store lib.Live) (cont : FailedContinuation)
      → get_failed_continuation id s ≡ some cont
      → let after = (rerun lib types parse id "discard" s).0 in
        get_failed_continuation id later ≡ get_failed_continuation id after
        → (rerun lib types parse id "discard" s ≡ (delete_failed_continuation id s, true))
          × (after.runs ≡ s.runs)
          × (after.node_results ≡ s.node_results)
          × (after.run_deps ≡ s.run_deps)
          × (rerun lib types parse id mode later ≡ (later, false))
  unfolding rerun by_mode delete_failed_continuation
  rerun-discard id mode s later cont saved still =
      let gone : rerun lib types parse id "discard" s ≡ (delete_failed_continuation id s, true) =
        rw (rerun, saved) refl in
      let kept = ap (λ p. p.0) gone in
      (
        gone,
        ap (λ x. x.runs) kept,
        ap (λ x. x.node_results) kept,
        ap (λ x. x.run_deps) kept,
        rerun-none id mode later
            (still ∙ ap (get_failed_continuation id) kept ∙ get-delete_failed id s),
      )

  pub rerun-continue :
      (id : String) (s : Store lib.Live) (cont : FailedContinuation) (r : RunRow) (live : lib.Live)
      → get_failed_continuation id s ≡ some cont
      → get_run cont.run_id s ≡ some r
      → lib.enqueue cont.payload (pos 0) s.live ≡ some live
      → (after : Store lib.Live) × (rerun lib types parse id "continue" s ≡ (after, true))
        × (get_run cont.run_id after ≡ some (record r { status = running; pending = pos 1 }))
        × (after.live ≡ live)
        × (get_failed_continuation id after ≡ some cont)
  unfolding rerun by_mode rerun_continue continue_tx with_tx get_failed_continuation get_run
      set_run_status set_run_pending
  rerun-continue id s cont r live saved found enqueue = (
    record (set_run_pending cont.run_id (pos 1) (set_run_status cont.run_id running s)) {
      live = live;
    },
    rw (rerun, saved) (rw (by_mode, rerun_continue, with_tx, continue_tx, enqueue) refl),
    get_run-restarted cont.run_id s found,
    refl,
    saved,
  )

  -- An unknown mode is refused, and nothing is changed.
  rerun-unknown :
      (id mode : String) (s : Store lib.Live)
      → has mode ("continue" ∷ "restart" ∷ "discard" ∷ []) ≡ false
      → rerun lib types parse id mode s ≡ (s, false)
  unfolding rerun by_mode has
  rerun-unknown id mode s unknown = elim (Option-cases (get_failed_continuation id s)) [
    | inl e ↦ rw (rerun, e) refl
    | inr (cont, e) ↦ rw (rerun, e) (ground (arith, unknown))
  ]
