-- ===== src/Honker/Runs.antt =====
-- internal/honker/runs.go: the rows of the runs. A run that is not recorded is `none` where the
-- code returns "" or nil.
pub mod Rows
use servitor.Prelude.{
  ℕ, String, Bool, Option, none, some, List, [], ◌∷◌, str_eq, if◌then◌else◌, select_row, select,
  replace, update_rows, delete, map,
}
use mathlib.Core.Option
use servitor.Prelude.Int.{ℤ, pos, ◌+ℤ◌}
use servitor.Honker.{Status, running, cancelled, RunRow, ResultRow, Store, QueueLib, is_run}

module _ {L : Type 0} where
  -- An empty run id is refused.
  unfoldable pub create_run : String → String → Store L → Option (Store L)
  create_run id workflow s =
      if str_eq id ""
      then none
      else some (record s {
        runs =
            replace (is_run id)
              (record { run_id = id; workflow_name = workflow; status = running; pending = pos 1 })
              s.runs;
      })

  unfoldable pub run_pending : String → Store L → ℤ
  run_pending id s = elim (select_row (is_run id) s.runs) [ none ↦ pos 0 | some r ↦ r.pending ]

  unfoldable pub adjust_pending : String → ℤ → Store L → Store L
  adjust_pending id delta s = record s {
    runs = update_rows (is_run id) (λ r. record r { pending = r.pending +ℤ delta }) s.runs;
  }

  -- `SetRunStatus`, and `SetRunStatusTx` inside a transaction.
  unfoldable pub set_run_status : String → Status → Store L → Store L
  set_run_status id status s = record s {
    runs = update_rows (is_run id) (λ r. record r { status = status }) s.runs;
  }

  unfoldable pub set_run_pending : String → ℤ → Store L → Store L
  set_run_pending id n s = record s {
    runs = update_rows (is_run id) (λ r. record r { pending = n }) s.runs;
  }

  unfoldable pub get_run : String → Store L → Option RunRow
  get_run id s = select_row (is_run id) s.runs

  unfoldable pub run_status : String → Store L → Option Status
  unfolding get_run
  run_status id s = Option.map (λ (r : RunRow). r.status) (get_run id s)

  unfoldable pub run_nodes : String → Store L → List ResultRow
  run_nodes id s = select (λ (r : ResultRow). str_eq r.run_id id) s.node_results

module _ (lib : QueueLib) where
  -- The run is cancelled, and what is pending or parked for it is dropped.
  unfoldable pub cancel_run : String → Store lib.Live → Store lib.Live
  unfolding set_run_status
  cancel_run id s =
      let s' = set_run_status id cancelled s in
      record s' {
        live = lib.drop_pending id s'.live;
        suspended = delete (λ c. str_eq c.run_id id) s'.suspended;
      }
