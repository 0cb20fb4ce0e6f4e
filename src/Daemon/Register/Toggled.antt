-- ===== src/Daemon/Register/Toggled.antt =====
-- What enabling and disabling a workflow leave with the scheduler.
use servitor.Prelude.{
  ◌≡◌, String, Bool, true, false, Option, none, some, List, ◌⊎◌, inl, inr, str_eq, if◌then◌else◌,
  Bool-cases,
}
use servitor.Value.{Value}
use servitor.Job.{NodeJob}
use servitor.Registry.{Capability}
use servitor.Honker.{WorkflowRow, Store}
use servitor.Honker.Registry.{get_workflow, set_workflow_enabled-keeps}
use servitor.Wafer.{Wafer}
use servitor.Wafer.Text.{parse}
use servitor.Runner.{made}
use servitor.Runner.Build.{from_wafer}
use servitor.Daemon.{Scheduler, done, bad_request}
use servitor.Daemon.Schedule.{
  cron_event, register_cron_tasks, register_email, unregister_cron_tasks, unregister_email,
  sync_cron,
}
use servitor.Daemon.Schedule.Tasks.{IsTable, or_else}
use servitor.Daemon.Register.{set_enabled}
use servitor.Daemon.Register.Armed.{asked, has_task, armed, disarmed, then_reply-done, then_do-true}

module _ {L : Type 0} (sch : Scheduler L) (types : List Capability)
    (decode : String → String ⊎ Value) (exe : Option String) (task : String → L → Option String)
    (table : IsTable sch task) (wanted : String) where
  sync_cron-task :
      (name : String) (enabled : Bool) (wf : WorkflowRow) (w : Wafer) (head : NodeJob)
      (s after : Store L)
      → get_workflow name s ≡ some wf
      → parse decode wf.wafer ≡ some w
      → from_wafer types w (some cron_event) ≡ made head
      → sync_cron sch types (parse decode) exe name enabled s ≡ (after, true)
      → task wanted after.live ≡ (
          if enabled
          then or_else (asked w wanted) (task wanted s.live)
          else if has_task w wanted
          then none
          else task wanted s.live)
  unfolding sync_cron
  sync_cron-task name true wf w head s after there parses origin h =
      let (next, cron, email) =
        then_do-true (register_cron_tasks sch types w s) (register_email sch exe w) after
          (rw (sync_cron, there, parses) at h) in
      armed sch types decode exe task table wanted w head s next after origin cron email
  sync_cron-task name false wf w head s after there parses origin h =
      let (next, cron, email) =
        then_do-true (unregister_cron_tasks sch w s) (unregister_email sch w) after
          (rw (sync_cron, there, parses) at h) in
      disarmed sch types decode exe task table wanted w s next after cron email

  -- Enabling a registered workflow leaves under every name the schedule that its triggers ask for, and
  -- disabling it nothing under the names of its triggers' tasks; all other tasks stay.
  pub set_enabled-task :
      (name : String) (enabled : Bool) (wf : WorkflowRow) (w : Wafer) (head : NodeJob)
      (s after : Store L)
      → get_workflow name s ≡ some wf
      → parse decode wf.wafer ≡ some w
      → from_wafer types w (some cron_event) ≡ made head
      → set_enabled sch types decode exe name enabled s ≡ (after, done)
      → task wanted after.live ≡ (
          if enabled
          then or_else (asked w wanted) (task wanted s.live)
          else if has_task w wanted
          then none
          else task wanted s.live)
  unfolding set_enabled
  set_enabled-task name enabled wf w head s after there parses origin h =
      elim (Bool-cases (str_eq name "")) [
        | inl empty ↦
            let bad : (s, bad_request "missing name") ≡ (after, done) = rw empty at h in absurd cc
        | inr full ↦
            let (changed, row, set, live, found, text) =
              set_workflow_enabled-keeps name enabled wf s there in
            let (ready, synced, last) =
              then_reply-done (sync_cron sch types (parse decode) exe name enabled changed) _ _
                after (rw (full, set) at h) in
            let same : ready ≡ after = cc in
            rw (← live) (
              sync_cron-task name enabled row w head changed after found (rw text parses) origin
                (rw same at synced))
      ]
