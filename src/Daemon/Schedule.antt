-- ===== src/Daemon/Schedule.antt =====
-- The scheduled tasks of a workflow: registerCron, unregisterCron, registerEmail, unregisterEmail and
-- syncCron of internal/daemon/daemon.go.
pub mod Tasks
use servitor.Prelude.{
  ℕ, suc, String, Bool, true, false, Option, none, some, List, [], ◌∷◌, str_eq, if◌then◌else◌, ◌||◌,
  ◌<>◌, itoa,
}
use servitor.Value.{str, Fields, end, field, index, string_or_empty}
use servitor.Registry.{Capability}
use servitor.Honker.{Store}
use servitor.Honker.Registry.{get_workflow}
use servitor.Wafer.{Trigger, Wafer}
use servitor.Runner.Schedule.{CronTask, PollTask, register_cron, register_poll}
use servitor.Daemon.{Scheduler, then_do}

abbrev pub task_name : String → String → ℕ → String
task_name workflow kind i = workflow <> ":" <> kind <> "-" <> itoa i

abbrev pub cron_event : Fields
cron_event = field "trigger" (str "cron") end

abbrev pub text_at : String → Trigger → String
text_at key tr = string_or_empty (index key tr.config)

abbrev pub cron_task : String → ℕ → String → CronTask
cron_task workflow i schedule = record {
  name = task_name workflow "cron" i;
  schedule = schedule;
  run_id = workflow <> "-cron-" <> itoa i;
  event = some cron_event;
}

abbrev pub poll_schedule : Trigger → String
poll_schedule tr = if str_eq (text_at "poll" tr) "" then "*/5 * * * *" else text_at "poll" tr

abbrev pub poll_task : String → String → ℕ → Trigger → PollTask
poll_task exe workflow i tr = record {
  name = task_name workflow "email" i;
  schedule = poll_schedule tr;
  workflow_id = workflow;
  kind = "email";
  command = exe ∷ "__email_poll" ∷ [];
  secrets = text_at "secret" tr ∷ [];
  config = tr.config;
}

abbrev pub lacks_access : Trigger → Bool
lacks_access tr =
    str_eq (text_at "host" tr) ""
    || str_eq (text_at "username" tr) ""
    || str_eq (text_at "secret" tr) ""

module _ {L : Type 0} (sch : Scheduler L) where
  unfoldable pub register_each_cron :
      List Capability → Wafer → ℕ → List Trigger → Store L → Store L × Bool
  register_each_cron types w i [] s = (s, true)
  register_each_cron types w i (tr ∷ on) s =
      let passed = register_each_cron types w (suc i) on s in
      let (after, ok) =
        register_cron sch.add types w (cron_task w.name i (text_at "schedule" tr)) s in
      let rest = register_each_cron types w (suc i) on after in
      if str_eq tr.type "cron"
      then if str_eq (text_at "schedule" tr) ""
        then (s, false)
        else if ok
        then rest
        else (after, false)
      else passed

  unfoldable pub unregister_each :
      String → String → String → ℕ → List Trigger → Store L → Store L × Bool
  unregister_each typ workflow kind i [] s = (s, true)
  unregister_each typ workflow kind i (tr ∷ on) s =
      let passed = unregister_each typ workflow kind (suc i) on s in
      if str_eq tr.type typ
      then elim (sch.remove (task_name workflow kind i) s.live) [
        | none ↦ (s, false)
        | some live ↦ unregister_each typ workflow kind (suc i) on (record s { live = live })
      ]
      else passed

  -- `exe` is os.Executable, `none` its error.
  unfoldable pub register_each_email :
      Option String → Wafer → ℕ → List Trigger → Store L → Store L × Bool
  register_each_email exe w i [] s = (s, true)
  register_each_email exe w i (tr ∷ on) s =
      let passed = register_each_email exe w (suc i) on s in
      if str_eq tr.type "email_received"
      then if lacks_access tr then (s, false) else elim exe [
        | none ↦ (s, false)
        | some path ↦
            let (after, ok) = register_poll sch.add (poll_task path w.name i tr) s in
            let rest = register_each_email (some path) w (suc i) on after in
            if ok then rest else (after, false)
      ]
      else passed

  unfoldable pub register_cron_tasks : List Capability → Wafer → Store L → Store L × Bool
  unfolding register_each_cron
  register_cron_tasks types w s = register_each_cron types w 0 w.on s

  unfoldable pub unregister_cron_tasks : Wafer → Store L → Store L × Bool
  unfolding unregister_each
  unregister_cron_tasks w s = unregister_each "cron" w.name "cron" 0 w.on s

  unfoldable pub register_email : Option String → Wafer → Store L → Store L × Bool
  unfolding register_each_email
  register_email exe w s = register_each_email exe w 0 w.on s

  unfoldable pub unregister_email : Wafer → Store L → Store L × Bool
  unfolding unregister_each
  unregister_email w s = unregister_each "email_received" w.name "email" 0 w.on s

  -- A workflow that is not registered is passed over; one that does not parse is an error.
  unfoldable pub sync_cron :
      List Capability
      → (String → Option Wafer)
      → Option String
      → String
      → Bool
      → Store L
      → Store L × Bool
  unfolding get_workflow register_cron_tasks register_email unregister_cron_tasks unregister_email
  sync_cron types parse exe name enabled s = elim (get_workflow name s) [
    | none ↦ (s, true)
    | some wf ↦ elim (parse wf.wafer) [
      | none ↦ (s, false)
      | some w ↦
          if enabled
          then then_do (register_cron_tasks types w s) (register_email exe w)
          else then_do (unregister_cron_tasks w s) (unregister_email w)
    ]
  ]
