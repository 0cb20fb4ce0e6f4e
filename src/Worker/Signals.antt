-- ===== src/Worker/Signals.antt =====
-- Resuming parked waits, and the nodes that send signals and rerun failed runs:
-- internal/worker/suspend.go.
use servitor.Prelude.{
  ◌==◌, String, Bool, Option, none, some, List, [], ◌∷◌, str_eq, if◌then◌else◌, ◌>>=◌, ◌<>◌,
}
use servitor.Prelude.Int.{pos}
use servitor.Value.{Value, null, bool, obj, str, end, field, as_map, index, string_or_empty}
use servitor.Job.{Head, NodeJob, head, downstream, jobs_of, WaitContinuation}
use servitor.Honker.{Status, running, Claim, QueueLib, Store, Json}
use servitor.Honker.Runs.{adjust_pending, set_run_status, run_status}
use servitor.Honker.Suspend.{
  ParkedInstance, delete_continuation, continuation_count, get_continuation, buffer_signal,
  parked_instances_for_signal, is_waiting,
}
use servitor.Honker.Tx.{with_tx, write_result}
use servitor.Worker.{
  Failure, plain_failure, Result, ok, error, Harness, World, stringify, threaded, plain_atom,
}
use servitor.Worker
use servitor.Worker.Failures.{record_failure}
use servitor.Worker.Nodes.{commit_or_fail}
use servitor.Worker.Wait.{wait_result, fan_out_continuation, eval_expression}

module _ (lib : QueueLib) (h : Harness) (json : Json) where
  -- The run goes back to running when its last parked wait is resumed.
  unfoldable pub settle : String → Store lib.Live → Store lib.Live
  unfolding continuation_count set_run_status
  settle run s = if continuation_count run s == 0 then set_run_status run running s else s

  -- The transaction of `resumeInstance`.
  unfoldable pub resume_tx :
      String → String → WaitContinuation → Value → Store lib.Live → Option (Store lib.Live)
  unfolding write_result fan_out_continuation adjust_pending delete_continuation settle
  resume_tx run node wc result s = do
    (n, s') ← fan_out_continuation lib h json wc result (write_result run wc.node_id result s)
    some (settle run (delete_continuation run node (adjust_pending run (pos n) s')))

  abbrev pub waits : Option Status → Bool
  waits none = Bool.false
  waits (some st) = is_waiting st

  -- Nothing happens unless the run waits and the wait is parked. The flag says whether the
  -- transaction went through, where there was one.
  unfoldable pub resume_instance :
      String → String → String → Value → Store lib.Live → Store lib.Live × Bool
  unfolding run_status get_continuation resume_tx with_tx
  resume_instance run node source payload s =
      if waits (run_status run s)
      then elim (get_continuation run node s) [
        | none ↦ (s, Bool.true)
        | some c ↦ with_tx (resume_tx run node c.payload (wait_result source payload)) s
      ]
      else (s, Bool.true)

  -- One wait on the name is resumed; with none the signal is buffered; more are an error.
  deliver : List ParkedInstance → String → Value → Store lib.Live → Store lib.Live × Bool
  unfolding buffer_signal resume_instance
  deliver [] name payload s = (buffer_signal json name payload s, Bool.true)
  deliver (p ∷ []) name payload s = resume_instance p.run_id p.node_id "signal" payload s
  deliver (p ∷ q ∷ ps) name payload s = (s, Bool.false)

  unfoldable pub resume_by_signal : String → Value → Store lib.Live → Store lib.Live × Bool
  unfolding deliver parked_instances_for_signal
  resume_by_signal name payload s = deliver (parked_instances_for_signal name s) name payload s

  abbrev sent : String → Value
  sent name = obj (field "ok" (bool Bool.true) (field "signal" (str name) end))

  complete_plain : NodeJob → Claim → Value → World lib.Live → World lib.Live
  unfolding commit_or_fail threaded plain_atom
  complete_plain j claim result w =
      commit_or_fail lib h json j claim
        (plain_atom (head j) result (some claim)
          (threaded (head j) result (jobs_of (downstream j))))
        w

  send_name : Head → Result String
  unfolding eval_expression stringify
  send_name sj =
      let expr = string_or_empty (index "signal" sj.config) in
      if str_eq expr ""
      then error
          (plain_failure ("send-signal " <> sj.node_id <> ": requires a `signal` expression"))
      else Worker.◌>>=◌ (eval_expression h sj expr) (λ v. ok (stringify json v))

  send_payload : Head → Result Value
  unfolding eval_expression
  send_payload sj =
      let expr = string_or_empty (index "payload" sj.config) in
      if str_eq expr "" then ok null else eval_expression h sj expr

  unfoldable pub handle_send_signal : NodeJob → Claim → World lib.Live → World lib.Live
  unfolding send_name send_payload resume_by_signal complete_plain record_failure
  handle_send_signal j claim w = elim (send_name (head j)) [
    | error f ↦ record_failure lib h json j claim f w
    | ok name ↦ elim (send_payload (head j)) [
      | error f ↦ record_failure lib h json j claim f w
      | ok payload ↦
          let (s, delivered) = resume_by_signal name payload w.store in
          let w' = record w { store = s } in
          if delivered
          then complete_plain j claim (sent name) w'
          else record_failure lib h json j claim
              (plain_failure ("signal " <> name <> " is ambiguous or was not delivered")) w'
    ]
  ]

  from_run : Head → String
  from_run sj = elim (as_map (index "event" sj.input)) [
    | none ↦ ""
    | some ev ↦ string_or_empty (index "from_run" ev)
  ]

  rerun_target : Head → Result String
  unfolding eval_expression stringify from_run
  rerun_target sj =
      let expr = string_or_empty (index "run_id" sj.config) in
      if str_eq expr ""
      then ok (from_run sj)
      else Worker.◌>>=◌ (eval_expression h sj expr) (λ v. ok (stringify json v))

  rerun_mode : Head → String
  rerun_mode sj =
      let mode = string_or_empty (index "mode" sj.config) in
      if str_eq mode "" then "continue" else mode

  abbrev rerun_result : String → String → Value
  rerun_result run mode =
      obj (field "ok" (bool Bool.true) (field "run" (str run) (field "mode" (str mode) end)))

  -- `on_rerun` is the daemon's callback: the store after it, or an error.
  unfoldable pub handle_rerun_failed :
      (String → String → Store lib.Live → Result (Store lib.Live))
      → NodeJob
      → Claim
      → World lib.Live
      → World lib.Live
  unfolding rerun_target rerun_mode complete_plain record_failure
  handle_rerun_failed on_rerun j claim w = elim (rerun_target (head j)) [
    | error f ↦ record_failure lib h json j claim f w
    | ok run ↦
        if str_eq run ""
        then record_failure lib h json j claim
            (plain_failure ("rerun-failed " <> (head j).node_id <> ": no target run")) w
        else elim (on_rerun run (rerun_mode (head j)) w.store) [
          | error f ↦ record_failure lib h json j claim f w
          | ok s ↦
              complete_plain j claim (rerun_result run (rerun_mode (head j)))
                (record w { store = s })
        ]
  ]
