-- ===== src/Daemon/Register/Guards.antt =====
-- Which definitions the daemon takes, and that a refusal changes nothing.
use servitor.Prelude.{
  ◌≡◌, ◌↔◌, refl, ap, ◌∙◌, sym, String, Bool, true, false, Option, none, some, List, [], ◌∷◌, ◌⊎◌,
  inl, inr, arith, str_eq, ◌&&◌, not, any, lookup, Bool-cases, Option-cases, List-cases,
}
use servitor.Value.{Value}
use servitor.Registry.{Capability}
use servitor.Components.Secret.{Resolver, declared}
use servitor.Wafer.{Trigger, Wafer, referenced_secrets}
use servitor.Wafer.Validate.Parts.{is_valid}
use servitor.Wafer.Text.{validate, parse}
use servitor.Trigger.{is_webhook_type, match_path, scheme_for_type}
use servitor.Trigger.Verify.{Receiver}
use servitor.Daemon.{Reply, bad_request, invalid, undeclared_secrets}
use servitor.Daemon.Register.{
  undeclared_of, undeclared_names, first_mismatch, check_workflow, check_body,
}

-- Every name that the workflow references has a declared source, where there is a resolver.
abbrev pub all_declared : Option Resolver → Wafer → Bool
all_declared none w = true
all_declared (some r) w = not (any (λ name. not (declared r name)) (referenced_secrets w))

-- A webhook trigger whose path has a receiver of another scheme.
abbrev pub is_mismatched : List (String × Receiver) → Trigger → Bool
is_mismatched receivers tr = is_webhook_type tr.type && (elim (lookup (match_path tr) receivers) [
  | none ↦ false
  | some r ↦ not (str_eq (scheme_for_type tr.type) r.scheme)
])

is_empty : List String → Bool
is_empty [] = true
is_empty (x ∷ xs) = false

is_empty-undeclared_of :
    (r : Resolver) (names : List String)
    → is_empty (undeclared_of r names) ≡ not (any (λ name. not (declared r name)) names)
unfolding undeclared_of is_empty
is_empty-undeclared_of r [] = refl
is_empty-undeclared_of r (name ∷ names) = elim (Bool-cases (declared r name)) [
  | inl e ↦ rw e (is_empty-undeclared_of r names)
  | inr e ↦ rw e refl
]

is_none : Option Reply → Bool
is_none none = true
is_none (some r) = false

is_none-first_mismatch :
    (receivers : List (String × Receiver)) (on : List Trigger)
    → is_none (first_mismatch receivers on) ≡ not (any (is_mismatched receivers) on)
unfolding first_mismatch is_none
is_none-first_mismatch receivers [] = refl
is_none-first_mismatch receivers (tr ∷ on) = elim (Bool-cases (is_webhook_type tr.type)) [
  | inr other ↦ rw other (is_none-first_mismatch receivers on)
  | inl webhook ↦ elim (Option-cases (lookup (match_path tr) receivers)) [
    | inl e ↦ rw (webhook, e) (is_none-first_mismatch receivers on)
    | inr (r, e) ↦ elim (Bool-cases (str_eq (scheme_for_type tr.type) r.scheme)) [
      | inl same ↦ rw (webhook, e, same) (is_none-first_mismatch receivers on)
      | inr differ ↦ rw (webhook, e, differ) refl
    ]
  ]
]

is_empty-undeclared_names :
    (resolver : Option Resolver) (w : Wafer)
    → is_empty (undeclared_names resolver w) ≡ all_declared resolver w
is_empty-undeclared_names none w = unfold is_empty in refl
is_empty-undeclared_names (some r) w = is_empty-undeclared_of r (referenced_secrets w)

not-true : (b : Bool) → not b ≡ true → b ≡ false
not-true true h = cc
not-true false h = refl

not-false : (b : Bool) → b ≡ false → not b ≡ true
not-false b h = ground arith

check_workflow-accepts :
    (resolver : Option Resolver) (receivers : List (String × Receiver)) (w taken : Wafer)
    → check_workflow resolver receivers w ≡ inr taken
    → (w ≡ taken) × (all_declared resolver w ≡ true) × (any (is_mismatched receivers) w.on ≡ false)
unfolding check_workflow is_empty is_none
check_workflow-accepts resolver receivers w taken h =
    elim (List-cases (undeclared_names resolver w)) [
      | inr (name, names, e) ↦
          let bad : ◌≡◌ {A = Reply ⊎ Wafer} (inl (undeclared_secrets (name ∷ names))) (inr taken) =
            rw (check_workflow, e) at h in
          absurd cc
      | inl e ↦ elim (Option-cases (first_mismatch receivers w.on)) [
        | inr (reply, m) ↦
            let bad : ◌≡◌ {A = Reply ⊎ Wafer} (inl reply) (inr taken) =
              rw (check_workflow, e, m) at h in
            absurd cc
        | inl m ↦
            let same : ◌≡◌ {A = Reply ⊎ Wafer} (inr w) (inr taken) =
              rw (check_workflow, e, m) at h in
            (
              cc,
              sym (is_empty-undeclared_names resolver w) ∙ ap is_empty e,
              not-true (any (is_mismatched receivers) w.on)
                  (sym (is_none-first_mismatch receivers w.on) ∙ ap is_none m),
            )
      ]
    ]

is_empty-nil : (xs : List String) → is_empty xs ≡ true → xs ≡ []
unfolding is_empty
is_empty-nil [] h = refl
is_empty-nil (x ∷ xs) h = cc

is_none-none : (o : Option Reply) → is_none o ≡ true → o ≡ none
unfolding is_none
is_none-none none h = refl
is_none-none (some r) h = cc

check_workflow-taken :
    (resolver : Option Resolver) (receivers : List (String × Receiver)) (w : Wafer)
    → all_declared resolver w ≡ true
    → any (is_mismatched receivers) w.on ≡ false
    → check_workflow resolver receivers w ≡ inr w
unfolding check_workflow
check_workflow-taken resolver receivers w known matched =
    let no_names : undeclared_names resolver w ≡ [] =
      is_empty-nil (undeclared_names resolver w) (is_empty-undeclared_names resolver w ∙ known) in
    let no_reply : first_mismatch receivers w.on ≡ none =
      is_none-none (first_mismatch receivers w.on) (
        is_none-first_mismatch receivers w.on
        ∙ not-false (any (is_mismatched receivers) w.on) matched) in
    rw (check_workflow, no_names, no_reply) refl

module _ (types : List Capability) (decode : String → String ⊎ Value) (resolver : Option Resolver)
    (receivers : List (String × Receiver)) where
  -- The body of a request passes the checks with a workflow exactly when it is a valid document that parses
  -- to this workflow, every secret that the workflow references is declared, where the daemon has a
  -- resolver, and no webhook trigger of it has a path whose receiver is of another scheme.
  pub check_body_iff :
      (body : String) (w : Wafer)
      → (check_body types decode resolver receivers body ≡ inr w) ↔ (
          (is_valid (validate decode types body) ≡ true)
          × (parse decode body ≡ some w)
          × (all_declared resolver w ≡ true)
          × (any (is_mismatched receivers) w.on ≡ false))
  unfolding check_body
  check_body_iff body w =
      (forth, λ h. rw (check_body, h.0, h.1) (check_workflow-taken resolver receivers w h.2 h.3))
    where
      forth :
          check_body types decode resolver receivers body ≡ inr w
          → (is_valid (validate decode types body) ≡ true)
            × (parse decode body ≡ some w)
            × (all_declared resolver w ≡ true)
            × (any (is_mismatched receivers) w.on ≡ false)
      forth h = elim (Bool-cases (is_valid (validate decode types body))) [
        | inr bad ↦
            let wrong : ◌≡◌ {A = Reply ⊎ Wafer} (inl (invalid (validate decode types body)))
                (inr w) =
              rw (check_body, bad) at h in
            absurd cc
        | inl fine ↦ elim (Option-cases (parse decode body)) [
          | inl e ↦
              let wrong : ◌≡◌ {A = Reply ⊎ Wafer} (inl (bad_request "parse wafer: ")) (inr w) =
                rw (check_body, fine, e) at h in
              absurd cc
          | inr (v, e) ↦
              let (same, known, matched) =
                check_workflow-accepts resolver receivers v w (rw (check_body, fine, e) at h) in
              (fine, e ∙ ap some same, rw (← same) known, rw (← same) matched)
        ]
      ]
