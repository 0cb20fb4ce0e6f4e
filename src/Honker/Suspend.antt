-- ===== src/Honker/Suspend.antt =====
-- internal/honker/suspend.go: parked waits and buffered signals.
use servitor.Prelude.{
  ℕ, String, Bool, not, Option, none, some, List, [], ◌∷◌, ◌++◌, map, str_eq, ◌&&◌, select_row,
  select, replace, delete, count_rows,
}
use servitor.Value.{Value}
use servitor.Honker.{Status, waiting, RunRow, Continuation, SignalRow, Store, Json, is_run, is_wait}

pub record ParkedInstance : Type 0 where
  pub run_id : String
  pub node_id : String

abbrev pub is_waiting : Status → Bool
is_waiting waiting = Bool.true
is_waiting _ = Bool.false

-- The join with the runs that wait.
run_waits : List RunRow → Continuation → Bool
run_waits runs c = elim (select_row (is_run c.run_id) runs) [
  | none ↦ Bool.false
  | some r ↦ is_waiting r.status
]

abbrev pub is_signal : String → SignalRow → Bool
is_signal name r = str_eq r.signal_name name

module _ {L : Type 0} where
  unfoldable pub write_continuation : Continuation → Store L → Store L
  write_continuation c s = record s {
    suspended = replace (is_wait c.run_id c.node_id) c s.suspended;
  }

  unfoldable pub delete_continuation : String → String → Store L → Store L
  delete_continuation run node s = record s { suspended = delete (is_wait run node) s.suspended }

  unfoldable pub continuation_count : String → Store L → ℕ
  continuation_count run s = count_rows (λ c. str_eq c.run_id run) s.suspended

  unfoldable pub get_continuation : String → String → Store L → Option Continuation
  get_continuation run node s = select_row (is_wait run node) s.suspended

  -- A wait without a signal has NULL there, which equals no name.
  unfoldable pub parked_instances_for_signal : String → Store L → List ParkedInstance
  unfolding run_waits
  parked_instances_for_signal name s =
      map (λ c. record { run_id = c.run_id; node_id = c.node_id })
        (select
          (λ c. not (str_eq c.signal_name "") && str_eq c.signal_name name && run_waits s.runs c)
          s.suspended)

  module _ (json : Json) where
    unfoldable pub buffer_signal : String → Value → Store L → Store L
    buffer_signal name payload s = record s {
      buffered = s.buffered ++ record { signal_name = name; payload = json.encode payload } ∷ [];
    }

    -- The oldest signal is returned; all rows with its name and its payload are deleted.
    unfoldable pub take_buffered_signal : String → Store L → Option Value × Store L
    take_buffered_signal name s = elim (select_row (is_signal name) s.buffered) [
      | none ↦ (none, s)
      | some r ↦ (
        some (json.decode r.payload),
        record s {
          buffered =
              delete (λ q. str_eq q.signal_name name && str_eq q.payload r.payload) s.buffered;
        },
      )
    ]
