-- ===== src/Runner/Schedule.antt =====
-- RegisterCron and RegisterPoll of internal/runner/runner.go. `schedule` is the scheduler of honker-go: it
-- takes a task's name, its schedule and the job to enqueue at each time, and `none` is an error.
use servitor.Prelude.{String, Bool, true, false, Option, none, some, List, []}
use servitor.Value.{str, Fields, end, field}
use servitor.Job.{NodeJob, job, stop, no_body}
use servitor.Honker.{Store}
use servitor.Registry.{Capability}
use servitor.Wafer.{Wafer}
use servitor.Runner.{made, no_job, unresolved, cyclic, failed}
use servitor.Runner.Build.{from_wafer}
use servitor.Runner.Start.{assign_run_id, init_deps}

pub record CronTask : Type 0 where
  pub name : String
  pub schedule : String
  pub run_id : String
  pub event : Option Fields

pub record PollTask : Type 0 where
  pub name : String
  pub schedule : String
  pub workflow_id : String
  pub kind : String
  pub command : List String
  pub secrets : List String
  pub config : Fields

unfoldable pub poll_job : PollTask → NodeJob
poll_job task =
    job
      (record {
        run_id = "";
        workflow_id = task.workflow_id;
        node_id = "poll";
        node_name = "poll";
        node_type = "poll";
        config = field "kind" (str task.kind) end;
        input = task.config;
        dedupe_key = "";
        command = task.command;
        secrets = task.secrets;
        skip = false;
        dependents = [];
        body_as = "";
        rejoins = [];
        collect_from = "";
        collect_as = "";
        collect_count = 0;
        collect_name = "";
      })
      stop no_body

module _ {L : Type 0} (schedule : String → String → NodeJob → L → Option L) where
  unfoldable pub register_task : String → String → NodeJob → Store L → Store L × Bool
  register_task name at payload s = elim (schedule name at payload s.live) [
    | none ↦ (s, false)
    | some live ↦ (record s { live = live }, true)
  ]

  -- What RegisterCron does with the head; `none` is a job without an encoding.
  unfoldable pub schedule_head : Wafer → CronTask → Option NodeJob → Store L → Store L × Bool
  unfolding init_deps assign_run_id register_task
  schedule_head w task head s = elim (init_deps w task.run_id s) [
    | none ↦ (s, false)
    | some ready ↦ elim head [
      | none ↦ (ready, false)
      | some j ↦ register_task task.name task.schedule (assign_run_id task.run_id j) ready
    ]
  ]

  unfoldable pub register_cron : List Capability → Wafer → CronTask → Store L → Store L × Bool
  unfolding from_wafer schedule_head
  register_cron types w task s = elim (from_wafer types w task.event) [
    | unresolved _ ↦ (s, false)
    | failed _ ↦ (s, false)
    | no_job ↦ (s, true)
    | cyclic ↦ schedule_head w task none s
    | made head ↦ schedule_head w task (some head) s
  ]

  -- A poll without a command is an error.
  unfoldable pub register_poll : PollTask → Store L → Store L × Bool
  unfolding poll_job register_task
  register_poll task s = elim task.command [
    | [] ↦ (s, false)
    | _ ↦ register_task task.name task.schedule (poll_job task) s
  ]
