-- ===== src/Daemon/Schedule/Tasks.antt =====
-- The tasks that the scheduler holds after a workflow's were registered or removed.
use servitor.Prelude.{
  ℕ, suc, ◌≡◌, refl, ap, ◌∙◌, String, Bool, true, false, Option, none, some, List, [], ◌∷◌, inl,
  inr, arith, str_eq, if◌then◌else◌, ◌||◌, ◌&&◌, Bool-cases, Option-cases,
}
use servitor.Job.{NodeJob}
use servitor.Registry.{Capability}
use servitor.Honker.{Store}
use servitor.Honker.Deps.{init_run_deps}
use servitor.Wafer.{Trigger, Wafer}
use servitor.Runner.{made}
use servitor.Runner.Build.{from_wafer}
use servitor.Runner.Start.{assign_run_id, init_deps}
use servitor.Runner.Schedule.{
  CronTask, PollTask, poll_job, register_task, schedule_head, register_cron, register_poll,
}
use servitor.Daemon.{Scheduler}
use servitor.Daemon.Schedule.{
  task_name, text_at, cron_event, cron_task, poll_schedule, poll_task, lacks_access,
  register_each_cron, register_each_email, unregister_each,
}

-- What honker-go documents of its scheduler: a task is kept by its name, a later one of the name
-- replacing it, until it is removed. `task` is the schedule that it is kept with.
pub record IsTable {L : Type 0} (sch : Scheduler L) (task : String → L → Option String)
    : Type 0 where
  pub task-add :
      (name at : String) (j : NodeJob) (live after : L) (wanted : String)
      → sch.add name at j live ≡ some after
      → task wanted after ≡ (if str_eq name wanted then some at else task wanted live)
  pub task-remove :
      (name : String) (live after : L) (wanted : String)
      → sch.remove name live ≡ some after
      → task wanted after ≡ (if str_eq name wanted then none else task wanted live)

abbrev pub or_else : Option String → Option String → Option String
or_else none d = d
or_else (some t) d = some t

-- The schedule under which the triggers, counted from `i`, register a task of a name.
pub planned :
    (Trigger → Option String) → String → String → ℕ → List Trigger → String → Option String
planned at workflow kind i [] wanted = none
planned at workflow kind i (tr ∷ on) wanted =
    or_else (planned at workflow kind (suc i) on wanted)
      (if str_eq (task_name workflow kind i) wanted then at tr else none)

abbrev pub cron_at : Trigger → Option String
cron_at tr = if str_eq tr.type "cron" then some (text_at "schedule" tr) else none

abbrev pub email_at : Trigger → Option String
email_at tr = if str_eq tr.type "email_received" then some (poll_schedule tr) else none

-- Some trigger of the type, counted from `i`, has the task's name.
pub names_task : String → String → String → ℕ → List Trigger → String → Bool
names_task typ workflow kind i [] wanted = false
names_task typ workflow kind i (tr ∷ on) wanted =
    str_eq tr.type typ && str_eq (task_name workflow kind i) wanted
    || names_task typ workflow kind (suc i) on wanted

or_else_step :
    (later : Option String) (here : Bool) (at : String) (before : Option String)
    → or_else later (if here then some at else before)
      ≡ or_else (or_else later (if here then some at else none)) before
or_else_step none true at before = refl
or_else_step none false at before = refl
or_else_step (some t) here at before = refl

or_else_skip :
    (later : Option String) (here : Bool) (before : Option String)
    → or_else later before ≡ or_else (or_else later (if here then none else none)) before
or_else_skip none true before = refl
or_else_skip none false before = refl
or_else_skip (some t) here before = refl

either_gone :
    (later here : Bool) (before : Option String)
    → (if later then none else if here then none else before)
      ≡ (if here || later then none else before)
either_gone true true before = refl
either_gone true false before = refl
either_gone false here before = ground arith

module _ {L : Type 0} (sch : Scheduler L) (task : String → L → Option String)
    (table : IsTable sch task) (wanted : String) where
  live-init_deps :
      (w : Wafer) (run : String) (s ready : Store L)
      → init_deps w run s ≡ some ready
      → ready.live ≡ s.live
  unfolding init_deps init_run_deps
  live-init_deps w run s ready h = ground arith

  register_task-task :
      (name at : String) (j : NodeJob) (s after : Store L)
      → register_task sch.add name at j s ≡ (after, true)
      → task wanted after.live ≡ (if str_eq name wanted then some at else task wanted s.live)
  unfolding register_task
  register_task-task name at j s after h = elim (Option-cases (sch.add name at j s.live)) [
    | inl e ↦ let bad : (s, false) ≡ (after, true) = rw (register_task, e) at h in absurd cc
    | inr (live, e) ↦
        let same : (record s { live = live }, true) ≡ (after, true) = rw (register_task, e) at h in
        let is_after : record s { live = live } ≡ after = cc in
        rw (← is_after) (table.task-add name at j s.live live wanted e)
  ]

  register_cron-task :
      (types : List Capability) (w : Wafer) (t : CronTask) (head : NodeJob) (s after : Store L)
      → from_wafer types w t.event ≡ made head
      → register_cron sch.add types w t s ≡ (after, true)
      → task wanted after.live
        ≡ (if str_eq t.name wanted then some t.schedule else task wanted s.live)
  unfolding register_cron schedule_head
  register_cron-task types w t head s after origin h =
      elim (Option-cases (init_deps w t.run_id s)) [
        | inl e ↦
            let bad : (s, false) ≡ (after, true) =
              rw (register_cron, origin, schedule_head, e) at h in
            absurd cc
        | inr (ready, e) ↦
            let taken : register_task sch.add t.name t.schedule (assign_run_id t.run_id head) ready
                ≡ (after, true) =
              rw (register_cron, origin, schedule_head, e) at h in
            rw (← live-init_deps w t.run_id s ready e)
              (register_task-task t.name t.schedule (assign_run_id t.run_id head) ready after taken)
      ]

  -- A round of registerCron that reports no error, taken apart.
  register_each_cron-cons :
      (types : List Capability) (w : Wafer) (i : ℕ) (tr : Trigger) (on : List Trigger)
      (s after : Store L)
      → str_eq tr.type "cron" ≡ true
      → register_each_cron sch types w i (tr ∷ on) s ≡ (after, true)
      → (next : Store L) × (register_cron sch.add types w
            (cron_task w.name i (text_at "schedule" tr))
            s
          ≡ (next, true))
        × (register_each_cron sch types w (suc i) on next ≡ (after, true))
  unfolding register_each_cron
  register_each_cron-cons types w i tr on s after cron h =
      elim (Bool-cases (str_eq (text_at "schedule" tr) "")) [
        | inl empty ↦ let bad : (s, false) ≡ (after, true) = rw (cron, empty) at h in absurd cc
        | inr full ↦
            by_result (register_cron sch.add types w (cron_task w.name i (text_at "schedule" tr)) s)
              refl full
      ]
    where
      by_result :
          (r : Store L × Bool)
          → register_cron sch.add types w (cron_task w.name i (text_at "schedule" tr)) s ≡ r
          → str_eq (text_at "schedule" tr) "" ≡ false
          → (next : Store L) × (register_cron sch.add types w
                (cron_task w.name i (text_at "schedule" tr))
                s
              ≡ (next, true))
            × (register_each_cron sch types w (suc i) on next ≡ (after, true))
      by_result (next, true) e full = (next, e, rw (cron, full, e) at h)
      by_result (next, false) e full =
          let bad : (next, false) ≡ (after, true) = rw (cron, full, e) at h in absurd cc

  pub register_each_cron-task :
      (types : List Capability) (w : Wafer) (head : NodeJob) (i : ℕ) (on : List Trigger)
      (s after : Store L)
      → from_wafer types w (some cron_event) ≡ made head
      → register_each_cron sch types w i on s ≡ (after, true)
      → task wanted after.live
        ≡ or_else (planned cron_at w.name "cron" i on wanted) (task wanted s.live)
  unfolding register_each_cron planned
  register_each_cron-task types w head i [] s after origin h =
      let same : s ≡ after = cc in rw same refl
  register_each_cron-task types w head i (tr ∷ on) s after origin h =
      elim (Bool-cases (str_eq tr.type "cron")) [
        | inr other ↦ rw other (
            register_each_cron-task types w head (suc i) on s after origin (rw other at h)
            ∙ or_else_skip _ (str_eq (task_name w.name "cron" i) wanted) _)
        | inl cron ↦
            let (next, here, later) = register_each_cron-cons types w i tr on s after cron h in
            rw cron (
              register_each_cron-task types w head (suc i) on next after origin later
              ∙ ap (or_else (planned cron_at w.name "cron" (suc i) on wanted)) (
                  register_cron-task types w (cron_task w.name i (text_at "schedule" tr)) head s
                    next origin here)
              ∙ or_else_step _ (str_eq (task_name w.name "cron" i) wanted) (text_at "schedule" tr)
                  _)
      ]

  register_poll-task :
      (t : PollTask) (s after : Store L)
      → register_poll sch.add t s ≡ (after, true)
      → task wanted after.live
        ≡ (if str_eq t.name wanted then some t.schedule else task wanted s.live)
  unfolding register_poll
  register_poll-task t s after h = by_command t.command h
    where
      by_command :
          (argv : List String)
          → ◌≡◌ {A = Store L × Bool}
              (elim argv [
                | [] ↦ (s, false)
                | _ ↦ register_task sch.add t.name t.schedule (poll_job t) s
              ])
              (after, true)
          → task wanted after.live
            ≡ (if str_eq t.name wanted then some t.schedule else task wanted s.live)
      by_command [] bad = absurd cc
      by_command (a ∷ rest) taken = register_task-task t.name t.schedule (poll_job t) s after taken

  register_each_email-cons :
      (exe : Option String) (w : Wafer) (i : ℕ) (tr : Trigger) (on : List Trigger)
      (s after : Store L)
      → str_eq tr.type "email_received" ≡ true
      → register_each_email sch exe w i (tr ∷ on) s ≡ (after, true)
      → (next : Store L) × (path : String) × (register_poll sch.add (poll_task path w.name i tr) s
          ≡ (next, true))
        × (register_each_email sch exe w (suc i) on next ≡ (after, true))
  unfolding register_each_email
  register_each_email-cons exe w i tr on s after email h = elim (Bool-cases (lacks_access tr)) [
    | inl lacks ↦ let bad : (s, false) ≡ (after, true) = rw (email, lacks) at h in absurd cc
    | inr full ↦ elim (Option-cases exe) [
      | inl gone ↦ let bad : (s, false) ≡ (after, true) = rw (email, full, gone) at h in absurd cc
      | inr (path, there) ↦
          by_result path there full (register_poll sch.add (poll_task path w.name i tr) s) refl
    ]
  ]
    where
      by_result :
          (path : String)
          → exe ≡ some path
          → lacks_access tr ≡ false
          → (r : Store L × Bool) → register_poll sch.add (poll_task path w.name i tr) s ≡ r
          → (next : Store L) × (path : String) × (register_poll sch.add
                (poll_task path w.name i tr)
                s
              ≡ (next, true))
            × (register_each_email sch exe w (suc i) on next ≡ (after, true))
      by_result path there full (next, true) e =
          (next, path, e, rw there (rw (email, full, there, e) at h))
      by_result path there full (next, false) e =
          let bad : (next, false) ≡ (after, true) = rw (email, full, there, e) at h in absurd cc

  pub register_each_email-task :
      (exe : Option String) (w : Wafer) (i : ℕ) (on : List Trigger) (s after : Store L)
      → register_each_email sch exe w i on s ≡ (after, true)
      → task wanted after.live
        ≡ or_else (planned email_at w.name "email" i on wanted) (task wanted s.live)
  unfolding register_each_email planned
  register_each_email-task exe w i [] s after h = let same : s ≡ after = cc in rw same refl
  register_each_email-task exe w i (tr ∷ on) s after h =
      elim (Bool-cases (str_eq tr.type "email_received")) [
        | inr other ↦ rw other (
            register_each_email-task exe w (suc i) on s after (rw other at h)
            ∙ or_else_skip _ (str_eq (task_name w.name "email" i) wanted) _)
        | inl email ↦
            let (next, path, here, later) =
              register_each_email-cons exe w i tr on s after email h in
            rw email (
              register_each_email-task exe w (suc i) on next after later
              ∙ ap (or_else (planned email_at w.name "email" (suc i) on wanted))
                  (register_poll-task (poll_task path w.name i tr) s next here)
              ∙ or_else_step _ (str_eq (task_name w.name "email" i) wanted) (poll_schedule tr) _)
      ]

  pub unregister_each-task :
      (typ workflow kind : String) (i : ℕ) (on : List Trigger) (s after : Store L)
      → unregister_each sch typ workflow kind i on s ≡ (after, true)
      → task wanted after.live
        ≡ (if names_task typ workflow kind i on wanted then none else task wanted s.live)
  unfolding unregister_each names_task
  unregister_each-task typ workflow kind i [] s after h = let same : s ≡ after = cc in rw same refl
  unregister_each-task typ workflow kind i (tr ∷ on) s after h =
      elim (Bool-cases (str_eq tr.type typ)) [
        | inr other ↦
            rw other (unregister_each-task typ workflow kind (suc i) on s after (rw other at h))
        | inl ours ↦ elim (Option-cases (sch.remove (task_name workflow kind i) s.live)) [
          | inl e ↦ let bad : (s, false) ≡ (after, true) = rw (ours, e) at h in absurd cc
          | inr (live, e) ↦ rw ours (
              unregister_each-task typ workflow kind (suc i) on (record s { live = live }) after
                (rw (ours, e) at h)
              ∙ ap (λ t. if names_task typ workflow kind (suc i) on wanted then none else t)
                  (table.task-remove (task_name workflow kind i) s.live live wanted e)
              ∙ either_gone (names_task typ workflow kind (suc i) on wanted)
                  (str_eq (task_name workflow kind i) wanted) (task wanted s.live))
        ]
      ]
