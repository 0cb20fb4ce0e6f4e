-- ===== src/Honker/Failed.antt =====
-- internal/honker/failed.go: the saved continuations of runs that failed.
use servitor.Prelude.{String, Bool, Option, str_eq, select_row, replace, delete}
use servitor.Honker.{FailedContinuation, Store}

abbrev pub is_failed : String → FailedContinuation → Bool
is_failed run c = str_eq c.run_id run

module _ {L : Type 0} where
  unfoldable pub write_failed_continuation : FailedContinuation → Store L → Store L
  write_failed_continuation c s = record s {
    failed_continuations = replace (is_failed c.run_id) c s.failed_continuations;
  }

  unfoldable pub get_failed_continuation : String → Store L → Option FailedContinuation
  get_failed_continuation run s = select_row (is_failed run) s.failed_continuations

  unfoldable pub delete_failed_continuation : String → Store L → Store L
  delete_failed_continuation run s = record s {
    failed_continuations = delete (is_failed run) s.failed_continuations;
  }
