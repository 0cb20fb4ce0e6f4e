-- ===== src/Worker/Wait.antt =====
-- Parking at a `wait` node: internal/worker/suspend.go.
use servitor.Prelude.{
  ℕ, String, Bool, Option, none, some, List, [], ◌∷◌, str_eq, if◌then◌else◌, ◌>>=◌, ◌<>◌,
}
use servitor.Prelude.Int.{ℤ, pos, negsuc}
use servitor.Value.{Value, obj, str, Fields, end, field, as_map, index, string_or_empty}
use servitor.Job.{
  Head, NodeJob, stop, no_body, job, head, downstream, with_head, jobs_of, thread_input,
  WaitContinuation,
}
use servitor.Honker.{waiting, Claim, QueueLib, Store, Json}
use servitor.Honker.Deps.{is_zero}
use servitor.Honker.Runs.{adjust_pending, set_run_status}
use servitor.Honker.Suspend.{write_continuation, take_buffered_signal}
use servitor.Honker.Tx.{write_result, fan_out, ack, net}
use servitor.Worker.{
  Failure, plain_failure, Result, ok, error, Harness, World, spawn, stringify, check_run_complete,
}
use servitor.Worker
use servitor.Worker.Failures.{record_failure}

abbrev pub wait_result : String → Value → Value
wait_result source payload = obj (field "source" (str source) (field "payload" payload end))

abbrev pub continuation_of : NodeJob → WaitContinuation
continuation_of j = record {
  run_id = (head j).run_id;
  node_id = (head j).node_id;
  node_name = (head j).node_name;
  input = (head j).input;
  dependents = (head j).dependents;
  downstream = downstream j;
}

unfoldable pub thread_continuation : WaitContinuation → Value → List NodeJob → List NodeJob
thread_continuation wc result [] = []
thread_continuation wc result (d ∷ ds) =
    with_head (λ h. record h { input = thread_input wc.input wc.node_name result }) d
    ∷ thread_continuation wc result ds

-- The one-shot job that a timer enqueues.
abbrev pub timer_job : String → String → NodeJob
timer_job run node =
    job
      (record {
        run_id = run;
        workflow_id = "";
        node_id = node;
        node_name = "";
        node_type = "resume";
        config = end;
        input = end;
        dedupe_key = "";
        command = [];
        secrets = [];
        skip = Bool.false;
        dependents = [];
        body_as = "";
        rejoins = [];
        collect_from = "";
        collect_as = "";
        collect_count = 0;
        collect_name = "";
      })
      stop no_body

-- `evalExpression`: in a subprocess of the servitor binary.
unfoldable pub eval_expression : Harness → Head → String → Result Value
unfolding spawn
eval_expression h sj expr = spawn h sj (h.self ∷ "__eval" ∷ expr ∷ []) (obj sj.input)

unfoldable pub resolve_signal_name : Harness → Json → Head → Result String
unfolding eval_expression stringify
resolve_signal_name h json sj =
    let expr = string_or_empty (index "signal" sj.config) in
    if str_eq expr ""
    then ok ""
    else Worker.◌>>=◌ (eval_expression h sj expr) (λ v. ok (stringify json v))

time_of : String → Option ℤ → Result ℤ
time_of what none = error (plain_failure ("wait: timer." <> what))
time_of what (some t) = ok t

-- The unix time at which the timer resumes the run, 0 without a timer; `after` comes before `at`.
timer_at : Harness → Fields → Result ℤ
unfolding time_of
timer_at h timer =
    let after = string_or_empty (index "after" timer) in
    let at = string_or_empty (index "at" timer) in
    if str_eq after ""
    then (if str_eq at ""
        then error (plain_failure "wait: timer requires `after` or `at`")
        else time_of "at" (h.at at))
    else time_of "after" (h.after after)

unfoldable pub resolve_timer_run_at : Harness → Head → Result ℤ
unfolding timer_at
resolve_timer_run_at h sj = elim (as_map (index "timer" sj.config)) [
  | none ↦ ok (pos 0)
  | some timer ↦ timer_at h timer
]

-- The effective signal name and the resume time.
unfoldable pub wait_plan : Harness → Json → Head → Result (String × ℤ)
unfolding resolve_signal_name resolve_timer_run_at
wait_plan h json sj = Worker.◌>>=◌ {B = String × ℤ} (resolve_signal_name h json sj) (λ signal.
    Worker.◌>>=◌ {B = String × ℤ} (resolve_timer_run_at h sj) (λ run_at. ok (signal, run_at)))

module _ (lib : QueueLib) (h : Harness) (json : Json) where
  unfoldable pub fan_out_continuation :
      WaitContinuation → Value → Store lib.Live → Option (ℕ × Store lib.Live)
  unfolding thread_continuation fan_out
  fan_out_continuation wc result =
      fan_out lib wc.run_id wc.dependents (thread_continuation wc result (jobs_of wc.downstream))

  -- The wait ends within the transaction, with no continuation.
  unfoldable pub complete_wait :
      Claim → WaitContinuation → String → Value → Store lib.Live → Option (Store lib.Live)
  unfolding fan_out_continuation write_result ack adjust_pending
  complete_wait claim wc source payload s = do
    (n, s') ←
        fan_out_continuation wc (wait_result source payload)
          (write_result wc.run_id wc.node_id (wait_result source payload) s)
    s'' ← ack lib (some claim) s'
    some (adjust_pending wc.run_id (net lib (some claim) n) s'')

  unfoldable pub enqueue_timer : Head → ℤ → Store lib.Live → Option (Store lib.Live)
  enqueue_timer sj run_at s = if is_zero run_at then some s else do
    live ← lib.enqueue (timer_job sj.run_id sj.node_id) run_at s.live
    some (record s { live = live })

  unfoldable pub park : NodeJob → Claim → String → ℤ → Store lib.Live → Option (Store lib.Live)
  unfolding write_continuation set_run_status ack adjust_pending enqueue_timer
  park j claim signal run_at s = do
    s' ← ack lib (some claim) (
        set_run_status (head j).run_id waiting (
          write_continuation
            (record {
              run_id = (head j).run_id;
              node_id = (head j).node_id;
              workflow_id = (head j).workflow_id;
              signal_name = signal;
              run_at = run_at;
              payload = continuation_of j;
            })
            s))
    enqueue_timer (head j) run_at (adjust_pending (head j).run_id (negsuc 0) s')

  -- A signal that was buffered ends the wait at once; with none the run parks.
  unfoldable pub after_take :
      NodeJob → Claim → String → ℤ → Option Value → Store lib.Live → Option (Store lib.Live)
  unfolding complete_wait park
  after_take j claim signal run_at none s = park j claim signal run_at s
  after_take j claim signal run_at (some payload) s =
      complete_wait claim (continuation_of j) "signal" payload s

  -- The transaction of `handleWait`: a buffered signal is taken before the run parks.
  unfoldable pub wait_tx : NodeJob → Claim → String → ℤ → Store lib.Live → Option (Store lib.Live)
  unfolding after_take take_buffered_signal
  wait_tx j claim signal run_at s =
      let taken = take_buffered_signal json signal s in
      if str_eq signal ""
      then after_take j claim signal run_at none s
      else after_take j claim signal run_at taken.0 taken.1

  unfoldable pub handle_wait : NodeJob → Claim → World lib.Live → World lib.Live
  unfolding wait_plan wait_tx record_failure check_run_complete
  handle_wait j claim w = elim (wait_plan h json (head j)) [
    | error f ↦ record_failure lib h json j claim f w
    | ok (signal, run_at) ↦ elim (wait_tx j claim signal run_at w.store) [
      | none ↦ record_failure lib h json j claim (plain_failure "wait failed") w
      | some s ↦ check_run_complete (head j) (record w { store = s })
    ]
  ]
