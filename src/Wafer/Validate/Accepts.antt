-- ===== src/Wafer/Validate/Accepts.antt =====
-- internal/wafer/validate.go: which documents the validator accepts.
use servitor.Prelude.{
  ℕ, suc, String, true, false, Option, none, some, List, [], ◌≡◌, ◌↔◌, refl, sym, ◌∙◌, str_eq, itoa,
  if◌then◌else◌, Option-cases, Bool-cases, List-cases, inl, inr, has,
}
use servitor.Value.{
  Value, obj, arr, str, float, int, bool, null, Items, nil, cons, Fields, index, as_string,
}
use servitor.Registry.{Capability, lookup_node, lookup_trigger}
use servitor.Wafer.Validate.Parts.{
  Result, add_error, validate_config, validate_wait, validate_mode, validate_known, is_blank,
  rerun_modes, is_valid,
}
use servitor.Wafer.Validate.{
  validate_typed, validate_node, validate_nodes, validate_known_trigger, validate_trigger,
  validate_each_trigger, validate_triggers, validate_name, validate_on_failure, validate_node_list,
  validate_root, validate_value,
}
use servitor.Wafer.Validate.Pointer.{ptr}
use servitor.Wafer.Validate.Config.{
  IsClean, Checks, refuses, passes, chain, checks_where, FitsFields, FitsNode,
  validate_config-Checks, validate_wait-Checks, validate_mode-Checks, validate_dedupe-Checks,
}

-- There is a value, and `P` holds of it.
abbrev pub Has {ℓ} : {A : Type ℓ} → Option A → (A → Type 0) → Type 0
Has none P = ⊥
Has (some a) P = P a

abbrev pub IsNode : List Capability → Value → Type 0
IsNode types (obj m) =
    Has (as_string (index "type" m)) (λ typ. Has (lookup_node typ types) (λ st. FitsNode st m))
IsNode types _ = ⊥

abbrev pub IsTrigger : List Capability → Value → Type 0
IsTrigger types (obj m) =
    Has (as_string (index "type" m))
      (λ typ. Has (lookup_trigger typ types) (λ tt. FitsFields m tt.fields))
IsTrigger types _ = ⊥

abbrev pub Each : (Value → Type 0) → Items → Type 0
Each P nil = Unit
Each P (cons v vs) = P v × Each P vs

validate_known-Checks :
    (p : String) (st : Capability) (m : Fields) (res : Result)
    → Checks (validate_known p st m res) res (FitsNode st m)
unfolding validate_known
validate_known-Checks p st m res =
    let checked = validate_config "node" st.name p m st.fields res in
    let waits = if str_eq st.name "wait" then validate_wait p m checked else checked in
    let reruns = if str_eq st.name "rerun-failed" then validate_mode p m waits else waits in
    let waits_lem =
      checks_where (str_eq st.name "wait") (validate_wait p m checked) checked
        (validate_wait-Checks p m checked) in
    let reruns_lem =
      checks_where (str_eq st.name "rerun-failed") (validate_mode p m waits) waits
        (validate_mode-Checks p m waits) in
    let same = validate_dedupe-Checks p st m reruns in
    let all = chain waits reruns checked reruns_lem waits_lem in
    let every =
      chain checked reruns res all (validate_config-Checks "node" st.name p m st.fields res) in
    (λ clean. every.0 (sym same ∙ clean), λ fits. same ∙ every.1 fits)

abbrev pub IsName : Option Value → Type 0
IsName (some (str v)) = is_blank v ≡ false
IsName _ = ⊥

abbrev pub IsOnFailure : Option Value → Type 0
IsOnFailure none = Unit
IsOnFailure (some (str s)) = has s rerun_modes ≡ true
IsOnFailure (some _) = ⊥

validate_name-Checks :
    (v : Option Value) (res : Result) → Checks (validate_name v res) res (IsName v)
unfolding validate_name
validate_name-Checks none res = refuses _ res (λ bad. bad)
validate_name-Checks (some (str s)) res = elim (Bool-cases (is_blank s)) [
  | inl e ↦ rw (validate_name, e) (refuses _ res (λ bad. cc))
  | inr e ↦ rw (validate_name, e) (passes res refl)
]
validate_name-Checks (some (obj _)) res = refuses _ res (λ bad. bad)
validate_name-Checks (some (arr _)) res = refuses _ res (λ bad. bad)
validate_name-Checks (some (float _)) res = refuses _ res (λ bad. bad)
validate_name-Checks (some (int _)) res = refuses _ res (λ bad. bad)
validate_name-Checks (some (bool _)) res = refuses _ res (λ bad. bad)
validate_name-Checks (some null) res = refuses _ res (λ bad. bad)

validate_on_failure-Checks :
    (v : Option Value) (res : Result) → Checks (validate_on_failure v res) res (IsOnFailure v)
unfolding validate_on_failure
validate_on_failure-Checks none res = passes res tt
validate_on_failure-Checks (some (str s)) res = elim (Bool-cases (has s rerun_modes)) [
  | inl e ↦ rw (validate_on_failure, e) (passes res refl)
  | inr e ↦ rw (validate_on_failure, e) (refuses _ res (λ bad. cc))
]
validate_on_failure-Checks (some (obj _)) res = refuses _ res (λ bad. bad)
validate_on_failure-Checks (some (arr _)) res = refuses _ res (λ bad. bad)
validate_on_failure-Checks (some (float _)) res = refuses _ res (λ bad. bad)
validate_on_failure-Checks (some (int _)) res = refuses _ res (λ bad. bad)
validate_on_failure-Checks (some (bool _)) res = refuses _ res (λ bad. bad)
validate_on_failure-Checks (some null) res = refuses _ res (λ bad. bad)

module _ (types : List Capability) where
  validate_node-Checks :
      (p : String) (v : Value) (res : Result)
      → Checks (validate_node types p v res) res (IsNode types v)
  unfolding validate_node validate_typed
  validate_node-Checks p (obj m) res = elim (Option-cases (as_string (index "type" m))) [
    | inl e ↦ rw (validate_node, e) (refuses _ res (λ bad. bad))
    | inr (typ, e) ↦ elim (Option-cases (lookup_node typ types)) [
      | inl f ↦ rw (validate_node, validate_typed, e, f) (refuses _ res (λ bad. bad))
      | inr (st, f) ↦ rw (validate_node, validate_typed, e, f) (validate_known-Checks p st m res)
    ]
  ]
  validate_node-Checks p (arr _) res = refuses _ res (λ bad. bad)
  validate_node-Checks p (str _) res = refuses _ res (λ bad. bad)
  validate_node-Checks p (float _) res = refuses _ res (λ bad. bad)
  validate_node-Checks p (int _) res = refuses _ res (λ bad. bad)
  validate_node-Checks p (bool _) res = refuses _ res (λ bad. bad)
  validate_node-Checks p null res = refuses _ res (λ bad. bad)

  validate_trigger-Checks :
      (p : String) (v : Value) (res : Result)
      → Checks (validate_trigger types p v res) res (IsTrigger types v)
  unfolding validate_trigger validate_known_trigger
  validate_trigger-Checks p (obj m) res = elim (Option-cases (as_string (index "type" m))) [
    | inl e ↦ rw (validate_trigger, e) (refuses _ res (λ bad. bad))
    | inr (typ, e) ↦ elim (Option-cases (lookup_trigger typ types)) [
      | inl f ↦ rw (validate_trigger, validate_known_trigger, e, f) (refuses _ res (λ bad. bad))
      | inr (st, f) ↦
          rw (validate_trigger, validate_known_trigger, e, f)
            (validate_config-Checks "trigger" st.name p m st.fields res)
    ]
  ]
  validate_trigger-Checks p (arr _) res = refuses _ res (λ bad. bad)
  validate_trigger-Checks p (str _) res = refuses _ res (λ bad. bad)
  validate_trigger-Checks p (float _) res = refuses _ res (λ bad. bad)
  validate_trigger-Checks p (int _) res = refuses _ res (λ bad. bad)
  validate_trigger-Checks p (bool _) res = refuses _ res (λ bad. bad)
  validate_trigger-Checks p null res = refuses _ res (λ bad. bad)

  -- `chain` puts the first check's part first.
  validate_nodes-Checks :
      (i : ℕ) (vs : Items) (res : Result)
      → Checks (validate_nodes types i vs res) res (Each (IsNode types) vs)
  unfolding validate_nodes
  validate_nodes-Checks i nil res = passes res tt
  validate_nodes-Checks i (cons v vs) res =
      let first = validate_node types (ptr "/nodes" (itoa i)) v res in
      chain first (validate_nodes types (suc i) vs first) res
        (validate_nodes-Checks (suc i) vs first)
        (validate_node-Checks (ptr "/nodes" (itoa i)) v res)

  validate_each_trigger-Checks :
      (i : ℕ) (vs : Items) (res : Result)
      → Checks (validate_each_trigger types i vs res) res (Each (IsTrigger types) vs)
  unfolding validate_each_trigger
  validate_each_trigger-Checks i nil res = passes res tt
  validate_each_trigger-Checks i (cons v vs) res =
      let first = validate_trigger types (ptr "/on" (itoa i)) v res in
      chain first (validate_each_trigger types (suc i) vs first) res
        (validate_each_trigger-Checks (suc i) vs first)
        (validate_trigger-Checks (ptr "/on" (itoa i)) v res)

  abbrev pub AreTriggers : Option Value → Type 0
  AreTriggers none = Unit
  AreTriggers (some (arr vs)) = Each (IsTrigger types) vs
  AreTriggers (some _) = ⊥

  abbrev pub AreNodes : Option Value → Type 0
  AreNodes (some (arr (cons v vs))) = Each (IsNode types) (cons v vs)
  AreNodes _ = ⊥

  abbrev pub IsDocument : Value → Type 0
  IsDocument (obj root) =
      IsName (index "name" root)
      × (IsOnFailure (index "on_failure" root)
          × (AreTriggers (index "triggers" root) × AreNodes (index "nodes" root)))
  IsDocument _ = ⊥

  validate_triggers-Checks :
      (v : Option Value) (res : Result) → Checks (validate_triggers types v res) res (AreTriggers v)
  unfolding validate_triggers
  validate_triggers-Checks none res = passes res tt
  validate_triggers-Checks (some (arr vs)) res = validate_each_trigger-Checks 0 vs res
  validate_triggers-Checks (some (obj _)) res = refuses _ res (λ bad. bad)
  validate_triggers-Checks (some (str _)) res = refuses _ res (λ bad. bad)
  validate_triggers-Checks (some (float _)) res = refuses _ res (λ bad. bad)
  validate_triggers-Checks (some (int _)) res = refuses _ res (λ bad. bad)
  validate_triggers-Checks (some (bool _)) res = refuses _ res (λ bad. bad)
  validate_triggers-Checks (some null) res = refuses _ res (λ bad. bad)

  validate_node_list-Checks :
      (v : Option Value) (res : Result) → Checks (validate_node_list types v res) res (AreNodes v)
  unfolding validate_node_list
  validate_node_list-Checks none res = refuses _ res (λ bad. bad)
  validate_node_list-Checks (some (arr nil)) res = refuses _ res (λ bad. bad)
  validate_node_list-Checks (some (arr (cons v vs))) res = validate_nodes-Checks 0 (cons v vs) res
  validate_node_list-Checks (some (obj _)) res = refuses _ res (λ bad. bad)
  validate_node_list-Checks (some (str _)) res = refuses _ res (λ bad. bad)
  validate_node_list-Checks (some (float _)) res = refuses _ res (λ bad. bad)
  validate_node_list-Checks (some (int _)) res = refuses _ res (λ bad. bad)
  validate_node_list-Checks (some (bool _)) res = refuses _ res (λ bad. bad)
  validate_node_list-Checks (some null) res = refuses _ res (λ bad. bad)

  validate_root-Checks :
      (root : Fields) (res : Result)
      → Checks (validate_root types root res) res (IsDocument (obj root))
  unfolding validate_root
  validate_root-Checks root res =
      let named = validate_name (index "name" root) res in
      let failing = validate_on_failure (index "on_failure" root) named in
      let triggered = validate_triggers types (index "triggers" root) failing in
      let nodes = validate_node_list types (index "nodes" root) triggered in
      chain named nodes res
        (chain failing nodes named
          (chain triggered nodes failing (validate_node_list-Checks (index "nodes" root) triggered)
            (validate_triggers-Checks (index "triggers" root) failing))
          (validate_on_failure-Checks (index "on_failure" root) named))
        (validate_name-Checks (index "name" root) res)

  is_valid-IsClean : (res : Result) → (is_valid res ≡ true) ↔ IsClean res
  unfolding is_valid
  is_valid-IsClean res = elim (List-cases res.errors) [
    | inl e ↦ rw e (λ _. refl, λ _. refl)
    | inr (i, is, e) ↦ rw e (λ bad. absurd cc, λ bad. absurd cc)
  ]

  -- The validator accepts just the documents of the shape.
  pub validate_value-IsDocument :
      (v : Value) → (is_valid (validate_value types v) ≡ true) ↔ IsDocument v
  unfolding validate_value is_valid add_error
  validate_value-IsDocument (obj root) =
      let checks = validate_root-Checks root (record { errors = []; warnings = [] }) in
      let valid = is_valid-IsClean (validate_value types (obj root)) in
      (λ ok. (checks.0 (valid.0 ok)).1, λ shape. valid.1 (checks.1 (refl, shape)))
  validate_value-IsDocument (arr _) = (λ ok. absurd cc, λ bad. absurd bad)
  validate_value-IsDocument (str _) = (λ ok. absurd cc, λ bad. absurd bad)
  validate_value-IsDocument (float _) = (λ ok. absurd cc, λ bad. absurd bad)
  validate_value-IsDocument (int _) = (λ ok. absurd cc, λ bad. absurd bad)
  validate_value-IsDocument (bool _) = (λ ok. absurd cc, λ bad. absurd bad)
  validate_value-IsDocument null = (λ ok. absurd cc, λ bad. absurd bad)
