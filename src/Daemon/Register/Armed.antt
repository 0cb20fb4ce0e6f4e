-- ===== src/Daemon/Register/Armed.antt =====
-- What the handlers leave with the scheduler.
use servitor.Prelude.{
  ◌≡◌, refl, ap, ◌∙◌, String, Bool, true, false, Option, none, some, List, ◌⊎◌, inl, inr, arith,
  str_eq, if◌then◌else◌, ◌||◌, ◌&&◌, Bool-cases, Option-cases,
}
use servitor.Value.{Value}
use servitor.Job.{NodeJob}
use servitor.Registry.{Capability}
use servitor.Honker.{WorkflowRow, Store}
use servitor.Honker.Registry.{get_workflow, register_workflow}
use servitor.Wafer.{Wafer}
use servitor.Wafer.Text.{parse}
use servitor.Runner.{made}
use servitor.Runner.Build.{from_wafer}
use servitor.Daemon.{Scheduler, Reply, done, internal_error, not_found, then_do, then_reply}
use servitor.Daemon.Schedule.{
  cron_event, register_cron_tasks, register_email, unregister_cron_tasks, unregister_email,
}
use servitor.Daemon.Schedule.Tasks.{
  IsTable, or_else, planned, cron_at, email_at, names_task, register_each_cron-task,
  register_each_email-task, unregister_each-task,
}
use servitor.Daemon.Register.{store_workflow, replace_workflow, register_checked, unregistered}

-- The schedule that a workflow's triggers ask for under a task's name.
abbrev pub asked : Wafer → String → Option String
asked w wanted =
    or_else (planned email_at w.name "email" 0 w.on wanted)
      (planned cron_at w.name "cron" 0 w.on wanted)

-- Some cron or email trigger of the workflow has the task's name.
abbrev pub has_task : Wafer → String → Bool
has_task w wanted =
    names_task "cron" w.name "cron" 0 w.on wanted
    || names_task "email_received" w.name "email" 0 w.on wanted

or_else_assoc : (a b c : Option String) → or_else a (or_else b c) ≡ or_else (or_else a b) c
or_else_assoc none b c = refl
or_else_assoc (some t) b c = refl

gone_twice :
    (a b : Bool) (t : Option String)
    → (if b then none else if a then none else t) ≡ (if a || b then none else t)
gone_twice true true t = refl
gone_twice true false t = refl
gone_twice false b t = ground arith

module _ {L : Type 0} where
  -- A chain whose reply is `done` went through its first step.
  pub then_reply-done :
      (r : Store L × Bool) (failure : String) (f : Store L → Store L × Reply) (after : Store L)
      → then_reply r failure f ≡ (after, done)
      → (next : Store L) × (r ≡ (next, true)) × (f next ≡ (after, done))
  then_reply-done (s, true) failure f after h = (s, refl, h)
  then_reply-done (s, false) failure f after h = absurd cc

  pub then_do-true :
      (r : Store L × Bool) (f : Store L → Store L × Bool) (after : Store L)
      → then_do r f ≡ (after, true)
      → (next : Store L) × (r ≡ (next, true)) × (f next ≡ (after, true))
  then_do-true (s, true) f after h = (s, refl, h)
  then_do-true (s, false) f after h = absurd cc

  live-register_workflow :
      (name wafer : String) (s after : Store L)
      → register_workflow name wafer s ≡ some after
      → after.live ≡ s.live
  unfolding register_workflow
  live-register_workflow name wafer s after h = elim (Bool-cases (str_eq name "")) [
    | inl empty ↦ let bad : none ≡ some after = rw empty at h in absurd cc
    | inr full ↦ ground (arith, full)
  ]

module _ {L : Type 0} (decode : String → String ⊎ Value) (wanted : String) where
  -- A name of a task of the definition that an update replaces, where that parses.
  abbrev pub is_replaced : Bool → Wafer → Store L → Bool
  is_replaced require_existing w s = require_existing && (elim (get_workflow w.name s) [
    | none ↦ false
    | some existing ↦ elim (parse decode existing.wafer) [
      | none ↦ false
      | some old ↦ has_task old wanted
    ]
  ])

module _ {L : Type 0} (sch : Scheduler L) (types : List Capability)
    (decode : String → String ⊎ Value) (exe : Option String) (task : String → L → Option String)
    (table : IsTable sch task) (wanted : String) where
  pub armed :
      (w : Wafer) (head : NodeJob) (s next after : Store L)
      → from_wafer types w (some cron_event) ≡ made head
      → register_cron_tasks sch types w s ≡ (next, true)
      → register_email sch exe w next ≡ (after, true)
      → task wanted after.live ≡ or_else (asked w wanted) (task wanted s.live)
  unfolding register_cron_tasks register_email
  armed w head s next after origin cron email =
      register_each_email-task sch task table wanted exe w 0 w.on next after email
      ∙ ap (or_else (planned email_at w.name "email" 0 w.on wanted))
          (register_each_cron-task sch task table wanted types w head 0 w.on s next origin cron)
      ∙ or_else_assoc (planned email_at w.name "email" 0 w.on wanted)
          (planned cron_at w.name "cron" 0 w.on wanted) (task wanted s.live)

  pub disarmed :
      (w : Wafer) (s next after : Store L)
      → unregister_cron_tasks sch w s ≡ (next, true)
      → unregister_email sch w next ≡ (after, true)
      → task wanted after.live ≡ (if has_task w wanted then none else task wanted s.live)
  unfolding unregister_cron_tasks unregister_email
  disarmed w s next after cron email =
      unregister_each-task sch task table wanted "email_received" w.name "email" 0 w.on next after
        email
      ∙ ap (λ t. if names_task "email_received" w.name "email" 0 w.on wanted then none else t)
          (unregister_each-task sch task table wanted "cron" w.name "cron" 0 w.on s next cron)
      ∙ gone_twice (names_task "cron" w.name "cron" 0 w.on wanted)
          (names_task "email_received" w.name "email" 0 w.on wanted) (task wanted s.live)

  store_workflow-task :
      (w : Wafer) (body : String) (head : NodeJob) (s after : Store L)
      → from_wafer types w (some cron_event) ≡ made head
      → store_workflow sch types decode exe w body s ≡ (after, done)
      → task wanted after.live ≡ or_else (asked w wanted) (task wanted s.live)
  unfolding store_workflow
  store_workflow-task w body head s after origin h =
      elim (Option-cases (register_workflow w.name body s)) [
        | inl e ↦
            let bad : (s, internal_error "honker: register workflow: empty name") ≡ (after, done) =
              rw (store_workflow, e) at h in
            absurd cc
        | inr (stored, e) ↦
            let (next, cron, later) =
              then_reply-done (register_cron_tasks sch types w stored) _ _ after
                (rw (store_workflow, e) at h) in
            let (ready, email, last) =
              then_reply-done (register_email sch exe w next) _ _ after later in
            let same : ready ≡ after = cc in
            armed w head stored next after origin cron (rw same at email)
            ∙ ap (λ l. or_else (asked w wanted) (task wanted l))
                (live-register_workflow w.name body s stored e)
      ]

  replace_workflow-task :
      (w : Wafer) (body : String) (head : NodeJob) (existing : WorkflowRow) (s after : Store L)
      → from_wafer types w (some cron_event) ≡ made head
      → replace_workflow sch types decode exe w body existing s ≡ (after, done)
      → task wanted after.live
        ≡ or_else (asked w wanted) (
            if (elim (parse decode existing.wafer) [
              | none ↦ false
              | some old ↦ has_task old wanted
            ])
            then none
            else task wanted s.live)
  unfolding replace_workflow
  replace_workflow-task w body head existing s after origin h =
      elim (Option-cases (parse decode existing.wafer)) [
        | inl e ↦
            rw e (store_workflow-task w body head s after origin (rw (replace_workflow, e) at h))
        | inr (old, e) ↦
            let (next, cron, later) =
              then_reply-done (unregister_cron_tasks sch old s) _ _ after
                (rw (replace_workflow, e) at h) in
            let (bare, email, last) =
              then_reply-done (unregister_email sch old next) _ _ after later in
            rw e (
              store_workflow-task w body head bare after origin last
              ∙ ap (or_else (asked w wanted)) (disarmed old s next bare cron email))
      ]

  -- Where the scheduler keeps tasks by their names, a registration that replies `ok` leaves under every name
  -- the schedule that the new definition's triggers ask for; under a name that they do not ask for an
  -- update leaves nothing of the old definition's tasks, and all else, in a submission also the tasks of
  -- the definition that it replaces, stays as it was. The definition is one that FromWafer makes jobs of.
  pub register_checked-task :
      (require_existing : Bool) (w : Wafer) (body : String) (head : NodeJob) (s after : Store L)
      → from_wafer types w (some cron_event) ≡ made head
      → register_checked sch types decode exe require_existing w body s ≡ (after, done)
      → task wanted after.live
        ≡ or_else
            (asked w wanted)
            (if is_replaced decode wanted require_existing w s then none else task wanted s.live)
  unfolding register_checked
  register_checked-task false w body head s after origin h =
      store_workflow-task w body head s after origin h
  register_checked-task true w body head s after origin h =
      elim (Option-cases (get_workflow w.name s)) [
        | inl e ↦
            let bad : (s, not_found (unregistered w.name)) ≡ (after, done) =
              rw (register_checked, e) at h in
            absurd cc
        | inr (existing, e) ↦ rw e (
            replace_workflow-task w body head existing s after origin
              (rw (register_checked, e) at h))
      ]
