-- ===== src/Honker/Registry.antt =====
-- internal/honker/registry.go: the registered workflows.
use servitor.Prelude.{
  String, Bool, true, Option, none, some, [], ◌∷◌, ◌++◌, str_eq, if◌then◌else◌, select_row,
  update_rows, select_row-update_rows, ◌≡◌, refl, ap, ◌∙◌, arith,
}
use mathlib.Core.Option
use servitor.Honker.{WorkflowRow, Store}

abbrev pub is_workflow : String → WorkflowRow → Bool
is_workflow name w = str_eq w.name name

module _ {L : Type 0} where
  unfoldable pub get_workflow : String → Store L → Option WorkflowRow
  get_workflow name s = select_row (is_workflow name) s.workflows

  -- INSERT … ON CONFLICT(name) DO UPDATE SET wafer: a workflow that is there keeps `enabled`, a new
  -- one is enabled (the column's default). An empty name is refused.
  unfoldable pub register_workflow : String → String → Store L → Option (Store L)
  unfolding get_workflow
  register_workflow name wafer s =
      if str_eq name ""
      then none
      else some (record s {
        workflows = elim (get_workflow name s) [
          | none ↦ s.workflows ++ record { name = name; wafer = wafer; enabled = true } ∷ []
          | some _ ↦ update_rows (is_workflow name) (λ w. record w { wafer = wafer }) s.workflows
        ];
      })

  -- A name that is not registered is an error.
  unfoldable pub set_workflow_enabled : String → Bool → Store L → Option (Store L)
  unfolding get_workflow
  set_workflow_enabled name enabled s = elim (get_workflow name s) [
    | none ↦ none
    | some _ ↦ some (record s {
      workflows = update_rows (is_workflow name) (λ w. record w { enabled = enabled }) s.workflows;
    })
  ]

  -- Toggling a registered workflow changes only its row, and in it only the flag.
  pub set_workflow_enabled-keeps :
      (name : String) (enabled : Bool) (wf : WorkflowRow) (s : Store L)
      → get_workflow name s ≡ some wf
      → (changed : Store L) × (row : WorkflowRow) × (set_workflow_enabled name enabled s
          ≡ some changed)
        × (changed.live ≡ s.live)
        × (get_workflow name changed ≡ some row)
        × (row.wafer ≡ wf.wafer)
  unfolding set_workflow_enabled get_workflow
  set_workflow_enabled-keeps name enabled wf s there = (
    record s {
      workflows = update_rows (is_workflow name) (λ w. record w { enabled = enabled }) s.workflows;
    },
    (if is_workflow name wf then record wf { enabled = enabled } else wf),
    rw (set_workflow_enabled, get_workflow, there) refl,
    refl,
    select_row-update_rows (is_workflow name) (is_workflow name)
          (λ w. record w { enabled = enabled }) s.workflows (λ r. refl)
        ∙ ap
            (Option.map (λ (r : WorkflowRow).
              if is_workflow name r then record r { enabled = enabled } else r))
            there,
    ground arith,
  )
