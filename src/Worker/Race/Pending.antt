-- ===== src/Worker/Race/Pending.antt =====
-- A run with so many jobs in flight, through the statements on the runs table (internal/honker/runs.go).
use servitor.Prelude.{◌≡◌, String, some, str_eq_iff, ap, ◌∙◌, refl, select_row}
use servitor.Prelude.Int.{ℤ, ◌+ℤ◌}
use servitor.Honker.{Status, RunRow, Store, is_run}
use servitor.Honker.Runs.{get_run, adjust_pending, set_run_status}
use servitor.Honker.Runs.Rows.{get_run-adjust_pending, get_run-set_run_status}

-- The run is recorded with so many jobs in flight.
abbrev pub HasPending : {L : Type 0} → String → ℤ → Store L → Type 0
HasPending run p s = (r : RunRow) × (get_run run s ≡ some r) × (r.pending ≡ p)

module _ {L : Type 0} where
  pub adjust-HasPending :
      (run : String) (p delta : ℤ) (s : Store L)
      → HasPending run p s
      → HasPending run (p +ℤ delta) (adjust_pending run delta s)
  adjust-HasPending run p delta s (r, found, eq) =
      let same = (str_eq_iff run run).1 refl in
      (
        record r { pending = r.pending +ℤ delta },
        rw (get_run-adjust_pending run run delta s, found, same),
        ap (λ z. z +ℤ delta) eq,
      )

  pub status-HasPending :
      (run : String) (p : ℤ) (st : Status) (s : Store L)
      → HasPending run p s
      → HasPending run p (set_run_status run st s)
  status-HasPending run p st s (r, found, eq) =
      let same = (str_eq_iff run run).1 refl in
      (record r { status = st }, rw (get_run-set_run_status run run st s, found, same), eq)

  pub runs-HasPending :
      (run : String) (p : ℤ) (s t : Store L)
      → t.runs ≡ s.runs
      → HasPending run p s
      → HasPending run p t
  unfolding get_run
  runs-HasPending run p s t eq (r, found, at) = (r, ap (select_row (is_run run)) eq ∙ found, at)
