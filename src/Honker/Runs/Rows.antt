-- ===== src/Honker/Runs/Rows.antt =====
-- What the statements on the runs table change and what they leave (internal/honker/runs.go).
use servitor.Prelude.{
  ◌≡◌, refl, String, Bool, Option, none, some, List, [], ◌∷◌, str_eq, str_eq_iff, if◌then◌else◌,
  arith, select_row, update_rows,
}
use servitor.Prelude.Int.{ℤ, ◌+ℤ◌}
use servitor.Honker.{Status, RunRow, Store, is_run}
use servitor.Honker.Runs.{get_run, run_status, set_run_status, set_run_pending, adjust_pending}

-- The row of a run after an update of the row of a run.
abbrev pub changed : Bool → (RunRow → RunRow) → Option RunRow → Option RunRow
changed hit f none = none
changed hit f (some r) = some (if hit then f r else r)

select_row-is_run :
    (run id : String) (f : RunRow → RunRow) (rows : List RunRow)
    → ((r : RunRow) → (f r).run_id ≡ r.run_id)
    → select_row (is_run id) (update_rows (is_run run) f rows)
      ≡ changed (str_eq run id) f (select_row (is_run id) rows)
unfolding select_row update_rows
select_row-is_run run id f [] keeps = refl
select_row-is_run run id f (r ∷ rows) keeps = ground (
  arith,
  select_row-is_run run id f rows keeps,
  keeps r,
  str_eq_iff r.run_id run,
  str_eq_iff r.run_id id,
  str_eq_iff run id,
)

module _ {L : Type 0} where
  pub get_run-set_run_status :
      (run id : String) (st : Status) (s : Store L)
      → get_run id (set_run_status run st s)
        ≡ changed (str_eq run id) (λ r. record r { status = st }) (get_run id s)
  unfolding get_run set_run_status
  get_run-set_run_status run id st s =
      select_row-is_run run id (λ r. record r { status = st }) s.runs (λ r. refl)

  pub get_run-adjust_pending :
      (run id : String) (delta : ℤ) (s : Store L)
      → get_run id (adjust_pending run delta s)
        ≡ changed (str_eq run id) (λ r. record r { pending = r.pending +ℤ delta }) (get_run id s)
  unfolding get_run adjust_pending
  get_run-adjust_pending run id delta s =
      select_row-is_run run id (λ r. record r { pending = r.pending +ℤ delta }) s.runs (λ r. refl)

  -- A recorded run has the status that is set.
  pub run_status-set_run_status :
      (run : String) (st : Status) (s : Store L) {r : RunRow}
      → get_run run s ≡ some r
      → run_status run (set_run_status run st s) ≡ some st
  unfolding run_status
  run_status-set_run_status run st s found =
      let same = (str_eq_iff run run).1 refl in
      rw (get_run-set_run_status run run st s, found, same)

  pub get_run-set_run_pending :
      (run id : String) (n : ℤ) (s : Store L)
      → get_run id (set_run_pending run n s)
        ≡ changed (str_eq run id) (λ r. record r { pending = n }) (get_run id s)
  unfolding get_run set_run_pending
  get_run-set_run_pending run id n s =
      select_row-is_run run id (λ r. record r { pending = n }) s.runs (λ r. refl)
