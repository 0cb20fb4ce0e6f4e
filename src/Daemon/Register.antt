-- ===== src/Daemon/Register.antt =====
-- handleRegister, which serves both `submit` and `update`, and handleSetEnabled, which serves `enable` and
-- `disable` (internal/daemon/daemon.go). `decode` is the YAML package, `exe` os.Executable.
pub mod Armed
pub mod Toggled
pub mod Guards
pub mod Refusals
use servitor.Prelude.{
  String, Bool, true, false, Option, none, some, List, [], ◌∷◌, ◌⊎◌, inl, inr, str_eq,
  if◌then◌else◌, ◌<>◌, not, lookup,
}
use servitor.Value.{Value}
use servitor.Registry.{Capability}
use servitor.Components.Secret.{Resolver, declared}
use servitor.Honker.{WorkflowRow, Store}
use servitor.Honker.Registry.{get_workflow, register_workflow, set_workflow_enabled}
use servitor.Wafer.{Trigger, Wafer, referenced_secrets}
use servitor.Wafer.Validate.Parts.{Result, is_valid}
use servitor.Wafer.Text.{validate, parse}
use servitor.Trigger.{is_webhook_type, match_path, scheme_for_type}
use servitor.Trigger.Verify.{Receiver}
use servitor.Daemon.{
  Scheduler, Reply, done, bad_request, not_found, invalid, undeclared_secrets, scheme_mismatch,
  internal_error, then_reply, with_store,
}
use servitor.Daemon.Schedule.{
  register_cron_tasks, register_email, unregister_cron_tasks, unregister_email, sync_cron,
}

-- The names without a declared source, in their order.
unfoldable pub undeclared_of : Resolver → List String → List String
undeclared_of r [] = []
undeclared_of r (name ∷ names) =
    let rest = undeclared_of r names in if declared r name then rest else name ∷ rest

abbrev pub undeclared_names : Option Resolver → Wafer → List String
undeclared_names none w = []
undeclared_names (some r) w = undeclared_of r (referenced_secrets w)

-- The first webhook trigger whose type is not the one of the receiver declared for its path.
unfoldable pub first_mismatch : List (String × Receiver) → List Trigger → Option Reply
first_mismatch receivers [] = none
first_mismatch receivers (tr ∷ on) =
    let rest = first_mismatch receivers on in
    if is_webhook_type tr.type
    then elim (lookup (match_path tr) receivers) [
      | none ↦ rest
      | some r ↦
          if str_eq (scheme_for_type tr.type) r.scheme
          then rest
          else some (scheme_mismatch tr.type (match_path tr) r.scheme)
    ]
    else rest

-- The two checks of a parsed workflow.
unfoldable pub check_workflow : Option Resolver → List (String × Receiver) → Wafer → Reply ⊎ Wafer
unfolding undeclared_of first_mismatch
check_workflow resolver receivers w = elim (undeclared_names resolver w) [
  | [] ↦ elim (first_mismatch receivers w.on) [ none ↦ inr w | some reply ↦ inl reply ]
  | (name ∷ names) ↦ inl (undeclared_secrets (name ∷ names))
]

abbrev pub unregistered : String → String
unregistered name = "workflow " <> name <> " is not registered; use submit to register it"

abbrev pub never_registered : String → String
never_registered name = "honker: workflow " <> name <> " is not registered"

module _ (types : List Capability) (decode : String → String ⊎ Value) where
  -- The error of the parser follows the text of `bad_request`.
  unfoldable pub check_body : Option Resolver → List (String × Receiver) → String → Reply ⊎ Wafer
  unfolding validate parse check_workflow
  check_body resolver receivers body =
      if is_valid (validate decode types body)
      then elim (parse decode body) [
        | none ↦ inl (bad_request "parse wafer: ")
        | some w ↦ check_workflow resolver receivers w
      ]
      else inl (invalid (validate decode types body))

module _ {L : Type 0} (sch : Scheduler L) (types : List Capability)
    (decode : String → String ⊎ Value) (exe : Option String) where
  -- What both do last: the definition, its cron tasks and its polls.
  unfoldable pub store_workflow : Wafer → String → Store L → Store L × Reply
  store_workflow w body s = elim (register_workflow w.name body s) [
    | none ↦ (s, internal_error "honker: register workflow: empty name")
    | some stored ↦ then_reply (register_cron_tasks sch types w stored) "register cron" (λ armed.
        then_reply (register_email sch exe w armed) "register email" (λ ready. (ready, done)))
  ]

  -- An update first removes the tasks of the old definition, where that parses.
  unfoldable pub replace_workflow : Wafer → String → WorkflowRow → Store L → Store L × Reply
  unfolding store_workflow
  replace_workflow w body existing s = elim (parse decode existing.wafer) [
    | none ↦ store_workflow w body s
    | some old ↦ then_reply (unregister_cron_tasks sch old s) "unregister old cron" (λ bare.
        then_reply (unregister_email sch old bare) "unregister old email" (store_workflow w body))
  ]

  unfoldable pub register_checked : Bool → Wafer → String → Store L → Store L × Reply
  unfolding replace_workflow
  register_checked require_existing w body s =
      if require_existing
      then elim (get_workflow w.name s) [
        | none ↦ (s, not_found (unregistered w.name))
        | some existing ↦ replace_workflow w body existing s
      ]
      else store_workflow w body s

  unfoldable pub handle_register :
      Option Resolver
      → List (String × Receiver)
      → Bool
      → String
      → Option (Store L)
      → Option (Store L) × Reply
  unfolding check_body register_checked
  handle_register resolver receivers require_existing body store = with_store store (λ s.
      elim (check_body types decode resolver receivers body) [
        | inl reply ↦ (s, reply)
        | inr w ↦ register_checked require_existing w body s
      ])

  -- The name is the one of the query.
  unfoldable pub set_enabled : String → Bool → Store L → Store L × Reply
  set_enabled name enabled s =
      if str_eq name ""
      then (s, bad_request "missing name")
      else elim (set_workflow_enabled name enabled s) [
        | none ↦ (s, not_found (never_registered name))
        | some changed ↦
            then_reply (sync_cron sch types (parse decode) exe name enabled changed) "sync cron"
              (λ ready. (ready, done))
      ]

  unfoldable pub handle_set_enabled : String → Bool → Option (Store L) → Option (Store L) × Reply
  unfolding set_enabled
  handle_set_enabled name enabled store = with_store store (set_enabled name enabled)
