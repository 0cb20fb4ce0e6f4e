-- ===== src/Daemon/Register/Refusals.antt =====
-- A refusal of a definition changes nothing.
use servitor.Prelude.{
  ◌≡◌, refl, ap, ◌<◌, ◌≤◌, String, Bool, true, false, Option, none, some, List, ◌⊎◌, inl, inr,
  arith, Option-cases,
}
use servitor.Value.{Value}
use servitor.Registry.{Capability}
use servitor.Components.Secret.{Resolver}
use servitor.Honker.{WorkflowRow, Store}
use servitor.Honker.Registry.{get_workflow, register_workflow}
use servitor.Wafer.{Wafer}
use servitor.Wafer.Text.{parse}
use servitor.Trigger.Verify.{Receiver}
use servitor.Daemon.{Scheduler, Reply, status, then_reply}
use servitor.Daemon.Schedule.{
  register_cron_tasks, register_email, unregister_cron_tasks, unregister_email,
}
use servitor.Daemon.Register.{
  check_body, store_workflow, replace_workflow, register_checked, handle_register,
}

-- Not a refusal: the reply of a handler that went on to the store.
abbrev IsServed : Reply → Type 0
IsServed reply = (status reply ≡ 200) ⊎ (status reply ≡ 500)

module _ {L : Type 0} where
  then_reply-IsServed :
      (r : Store L × Bool) (failure : String) (f : Store L → Store L × Reply)
      → ((s : Store L) → IsServed (f s).1)
      → IsServed (then_reply r failure f).1
  then_reply-IsServed (s, true) failure f h = h s
  then_reply-IsServed (s, false) failure f h = inr refl

module _ {L : Type 0} (sch : Scheduler L) (types : List Capability)
    (decode : String → String ⊎ Value) (exe : Option String) where
  store_workflow-IsServed :
      (w : Wafer) (body : String) (s : Store L)
      → IsServed (store_workflow sch types decode exe w body s).1
  unfolding store_workflow
  store_workflow-IsServed w body s = elim (Option-cases (register_workflow w.name body s)) [
    | inl e ↦ rw (store_workflow, e) (inr refl)
    | inr (stored, e) ↦
        rw (store_workflow, e)
          (then_reply-IsServed (register_cron_tasks sch types w stored) _ _
            (λ armed. then_reply-IsServed (register_email sch exe w armed) _ _ (λ ready. inl refl)))
  ]

  replace_workflow-IsServed :
      (w : Wafer) (body : String) (existing : WorkflowRow) (s : Store L)
      → IsServed (replace_workflow sch types decode exe w body existing s).1
  unfolding replace_workflow
  replace_workflow-IsServed w body existing s = elim (Option-cases (parse decode existing.wafer)) [
    | inl e ↦ rw (replace_workflow, e) (store_workflow-IsServed w body s)
    | inr (old, e) ↦
        rw (replace_workflow, e)
          (then_reply-IsServed (unregister_cron_tasks sch old s) _ _ (λ bare.
            then_reply-IsServed (unregister_email sch old bare) _ _
              (store_workflow-IsServed w body)))
  ]

  -- A registration that got as far as the store is served, or the workflow is not registered.
  register_checked-refused :
      (require_existing : Bool) (w : Wafer) (body : String) (s : Store L)
      → IsServed (register_checked sch types decode exe require_existing w body s).1
        ⊎ ((register_checked sch types decode exe require_existing w body s).0 ≡ s)
  unfolding register_checked
  register_checked-refused false w body s = inl (store_workflow-IsServed w body s)
  register_checked-refused true w body s = elim (Option-cases (get_workflow w.name s)) [
    | inl e ↦ rw (register_checked, e) (inr refl)
    | inr (existing, e) ↦
        rw (register_checked, e) (inl (replace_workflow-IsServed w body existing s))
  ]

  -- A submission or an update that is answered with a status from 400 to 499, be it an invalid document, an
  -- undeclared secret, a mismatched receiver, an update of what is not registered or a daemon without a
  -- store, leaves the store as it was: the definitions, the scheduled tasks and the runs.
  pub handle_register-refused :
      (resolver : Option Resolver) (receivers : List (String × Receiver)) (require_existing : Bool)
      (body : String) (store : Option (Store L))
      → 400
        ≤ status
            (handle_register sch types decode exe resolver receivers require_existing body store).1
      → status
          (handle_register sch types decode exe resolver receivers require_existing body store).1
        < 500
      → (handle_register sch types decode exe resolver receivers require_existing body store).0
        ≡ store
  unfolding handle_register
  handle_register-refused resolver receivers require_existing body none low high = refl
  handle_register-refused resolver receivers require_existing body (some s) low high =
      by_check (check_body types decode resolver receivers body) refl
    where
      by_check :
          (c : Reply ⊎ Wafer)
          → check_body types decode resolver receivers body ≡ c
          → (handle_register sch types decode exe resolver receivers require_existing body
              (some s)).0
            ≡ some s
      by_check (inl reply) e = rw (handle_register, e) refl
      by_check (inr w) e = elim (register_checked-refused require_existing w body s) [
        | inr same ↦ rw (handle_register, e) (ap some same)
        | inl served ↦
            let same : status
                  (handle_register sch types decode exe resolver receivers require_existing body
                    (some s)).1
                ≡ status (register_checked sch types decode exe require_existing w body s).1 =
              rw (handle_register, e) refl in
            elim served [
              | inl ok ↦ absurd (omega (arith, low, high, same, ok))
              | inr broken ↦ absurd (omega (arith, low, high, same, broken))
            ]
      ]
