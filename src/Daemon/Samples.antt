-- ===== src/Daemon/Samples.antt =====
-- Workflows registered, replaced, toggled and refused by the daemon, and the theorems at them.
use servitor.Prelude.{
  ◌≡◌, ◌↔◌, refl, String, true, false, Option, none, some, List, [], ◌∷◌, ◌⊎◌, inl, inr, arith,
  str_eq, if◌then◌else◌, lookup, insert, remove, lookup-insert, lookup-remove, has, itoa, quote,
  any, select_row, update_rows, sort_by,
}
use servitor.Value.{
  as_list, copy_map, Value, str, arr, obj, Items, nil, cons, Fields, end, field, index,
  string_or_empty,
}
use servitor.Job.{NodeJob, job, stop, no_body}
use servitor.Registry.Samples.{types}
use servitor.Registry.{command_for}
use servitor.Components.Secret.{declared}
use servitor.Honker.{WorkflowRow, Store}
use servitor.Honker.Registry.{get_workflow, register_workflow, set_workflow_enabled}
use servitor.Wafer.{Wafer, from_raw, referenced_secrets}
use servitor.Wafer.Dag.{resolve_dag}
use servitor.Wafer.Text.{validate, parse}
use servitor.Wafer.Validate.Parts.{is_valid}
use servitor.Runner.{Made, made}
use servitor.Runner.Build.{from_wafer}
use servitor.Runner.Schedule.{register_cron}
use servitor.Daemon.{Scheduler, Reply, done, status}
use servitor.Daemon.Schedule.{
  cron_event, register_cron_tasks, register_email, unregister_cron_tasks, unregister_email,
  sync_cron,
}
use servitor.Daemon.Schedule.Tasks.{IsTable, or_else}
use servitor.Daemon.Register.{register_checked, handle_register, set_enabled, check_body}
use servitor.Daemon.Register.Armed.{asked, is_replaced, has_task, register_checked-task}
use servitor.Daemon.Register.Toggled.{set_enabled-task}
use servitor.Daemon.Register.Guards.{all_declared, is_mismatched, check_body_iff}
use servitor.Daemon.Register.Refusals.{handle_register-refused}

-- A scheduler that keeps the schedules by their names.
abbrev Tasks : Type 0
Tasks = List (String × String)

abbrev scheduler : Scheduler Tasks
scheduler = record {
  add = λ name at j live. some (insert name at live);
  remove = λ name live. some (remove name live);
}

some-injective : {A : Type 0} (a b : A) → some a ≡ some b → a ≡ b
some-injective a b h = cc

scheduler-IsTable : IsTable scheduler (λ wanted live. lookup wanted live)
scheduler-IsTable = record {
  task-add = λ name at j live after wanted h.
      rw (← some-injective (insert name at live) after h) (lookup-insert name wanted at live);
  task-remove = λ name live after wanted h.
      rw (← some-injective (remove name live) after h) (lookup-remove name wanted live);
}

abbrev cron_trigger : String → Value
cron_trigger at = obj (field "type" (str "cron") (field "schedule" (str at) end))

abbrev document : Items → Value
document on = obj (
    field "name" (str "line") (
      field "triggers" (arr on) (
        field "nodes"
          (arr (
            cons
              (obj (
                field "type" (str "shell")
                  (field "name" (str "first") (field "command" (str "true") end))))
              nil))
          end)))

abbrev one_cron : Value
one_cron = document (cons (cron_trigger "@daily") nil)

abbrev two_crons : Value
two_crons = document (cons (cron_trigger "@hourly") (cons (cron_trigger "@weekly") nil))

abbrev decode : String → String ⊎ Value
decode text =
    if str_eq text "one"
    then inr one_cron
    else if str_eq text "two"
    then inr two_crons
    else inl "bad"

abbrev fields_of : Value → Fields
fields_of (obj m) = m
fields_of _ = end

abbrev line : Wafer
line = from_raw (fields_of one_cron)

abbrev old_line : Wafer
old_line = from_raw (fields_of two_crons)

-- The old definition is registered, with its two tasks.
abbrev row : WorkflowRow
row = record { name = "line"; wafer = "two"; enabled = true }

abbrev store : Store Tasks
store = record {
  node_results = [];
  node_dedupe = [];
  workflows = row ∷ [];
  runs = [];
  singer_state = [];
  run_deps = [];
  suspended = [];
  buffered = [];
  failed_continuations = [];
  live = ("line:cron-0", "@hourly") ∷ ("line:cron-1", "@weekly") ∷ [];
}

program : Unit {0}
unfolding from_raw from_wafer resolve_dag lookup insert remove has itoa quote command_for index
    string_or_empty get_workflow register_workflow set_workflow_enabled select_row update_rows parse
    validate register_cron_tasks register_email unregister_cron_tasks unregister_email
    register_checked handle_register set_enabled check_body is_valid referenced_secrets declared
    sort_by as_list copy_map register_cron sync_cron
program = tt

abbrev after_update : Store Tasks
after_update = (register_checked scheduler types decode (some "servitor") true line "one" store).0

updates :
    register_checked scheduler types decode (some "servitor") true line "one" store
    ≡ (after_update, done)
unfolding program
updates = refl

-- The task of the trigger that the new definition does not have is gone; a submission leaves it.
update_drops : after_update.live ≡ ("line:cron-0", "@daily") ∷ []
unfolding program
update_drops = refl

submit_leaves :
    (register_checked scheduler types decode (some "servitor") false line "one" store).0.live
    ≡ ("line:cron-0", "@daily") ∷ ("line:cron-1", "@weekly") ∷ []
unfolding program
submit_leaves = refl

abbrev job_of : Made → NodeJob → NodeJob
job_of (made j) d = j
job_of _ d = d

abbrev no_job : NodeJob
no_job =
    job
      (record {
        run_id = "";
        workflow_id = "";
        node_id = "";
        node_name = "";
        node_type = "";
        config = end;
        input = end;
        dedupe_key = "";
        command = [];
        secrets = [];
        skip = false;
        dependents = [];
        body_as = "";
        rejoins = [];
        collect_from = "";
        collect_as = "";
        collect_count = 0;
        collect_name = "";
      })
      stop no_body

abbrev line_head : NodeJob
line_head = job_of (from_wafer types line (some cron_event)) no_job

line_made : from_wafer types line (some cron_event) ≡ made line_head
unfolding program
line_made = refl

register_checked-task_example :
    lookup "line:cron-1" after_update.live
    ≡ or_else (asked line "line:cron-1") (
        if is_replaced decode "line:cron-1" true line store
        then none
        else lookup "line:cron-1" store.live)
register_checked-task_example =
    register_checked-task scheduler types decode (some "servitor")
      (λ wanted live. lookup wanted live) scheduler-IsTable "line:cron-1" true line "one" line_head
      store after_update line_made updates

abbrev after_disable : Store Tasks
after_disable = (set_enabled scheduler types decode (some "servitor") "line" false store).0

disables :
    set_enabled scheduler types decode (some "servitor") "line" false store ≡ (after_disable, done)
unfolding program
disables = refl

registered : get_workflow "line" store ≡ some row
unfolding program
registered = refl

old_parses : parse decode row.wafer ≡ some old_line
unfolding program
old_parses = refl

old_head : NodeJob
old_head = job_of (from_wafer types old_line (some cron_event)) no_job

old_made : from_wafer types old_line (some cron_event) ≡ made old_head
unfolding program old_head
old_made = refl

set_enabled-task_example : lookup "line:cron-1" after_disable.live ≡ (
    if false
    then or_else (asked old_line "line:cron-1") (lookup "line:cron-1" store.live)
    else if has_task old_line "line:cron-1"
    then none
    else lookup "line:cron-1" store.live)
set_enabled-task_example =
    set_enabled-task scheduler types decode (some "servitor") (λ wanted live. lookup wanted live)
      scheduler-IsTable "line:cron-1" "line" false row old_line old_head store after_disable
      registered old_parses old_made disables

check_body_iff_example : (check_body types decode none [] "one" ≡ inr line) ↔ (
    (is_valid (validate decode types "one") ≡ true)
    × (parse decode "one" ≡ some line)
    × (all_declared none line ≡ true)
    × (any (is_mismatched []) line.on ≡ false))
check_body_iff_example = check_body_iff types decode none [] "one" line

abbrev submission : String → Option (Store Tasks) × Reply
submission body =
    handle_register scheduler types decode (some "servitor") none [] false body (some store)

bad_status : status (submission "broken").1 ≡ 422
unfolding program
bad_status = refl

handle_register-refused_example : (submission "broken").0 ≡ some store
handle_register-refused_example =
    handle_register-refused scheduler types decode (some "servitor") none [] false "broken"
      (some store) (omega (arith, bad_status)) (omega (arith, bad_status))
