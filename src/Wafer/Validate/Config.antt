-- ===== src/Wafer/Validate/Config.antt =====
-- internal/wafer/validate.go: when the checks of a config and of a node add no error.
use servitor.Prelude.{
  String, Bool, true, false, Option, none, some, List, [], ◌∷◌, ◌++◌, ◌≡◌, ◌≢◌, ◌↔◌, refl, str_eq,
  if◌then◌else◌, Option-cases, Bool-cases, inl, inr, has, not, ◌&&◌,
}
use servitor.Value.{Value, Fields, index, as_string}
use servitor.Registry.{Field, Capability}
use servitor.Wafer.{Issue}
use servitor.Wafer.Validate.Parts.{
  Result, add_error, add_warning, type_matches, validate_field, validate_config, validate_wait,
  validate_mode, validate_dedupe, rerun_modes,
}

-- `IsClean res`: no error was found so far.
abbrev pub IsClean : Result → Type 0
IsClean res = res.errors ≡ []

-- A check that adds no error just where `P` holds.
abbrev pub Checks : Result → Result → Type 0 → Type 0
Checks after before P = IsClean after ↔ (IsClean before × P)

append-nonempty : (is : List Issue) (i : Issue) → is ++ i ∷ [] ≢ []
append-nonempty [] i h = cc
append-nonempty (j ∷ is) i h = cc

pub add_error-Checks : (i : Issue) (res : Result) → ¬ IsClean (add_error i res)
unfolding add_error
add_error-Checks i res = append-nonempty res.errors i

pub refuses : {P : Type 0} (i : Issue) (res : Result) → ¬ P → Checks (add_error i res) res P
refuses i res fails = (λ bad. absurd (add_error-Checks i res bad), λ (_, p). absurd (fails p))

pub passes : {P : Type 0} (res : Result) → P → Checks res res P
passes res p = (λ h. (h, p), λ (h, _). h)

-- One check after another.
pub chain :
    {P Q : Type 0} (first second res : Result)
    → Checks second first Q
    → Checks first res P
    → Checks second res (P × Q)
chain first second res f g = (
  λ clean. let (h, q) = f.0 clean in let (k, p) = g.0 h in (k, (p, q)),
  λ (clean, (p, q)). f.1 (g.1 (clean, p), q),
)

-- What a field must be: there if it is required, and of its type.
abbrev pub Fits : Field → Option Value → Type 0
Fits f none = f.required ≡ false
Fits f (some v) = type_matches f.type v ≡ true

abbrev pub FitsFields : Fields → List (String × Field) → Type 0
FitsFields m [] = Unit
FitsFields m ((name, f) ∷ fields) = Fits f (index name m) × FitsFields m fields

pub validate_field-Checks :
    (kind type_name at : String) (m : Fields) (name : String) (f : Field) (res : Result)
    → Checks (validate_field kind type_name at m name f res) res (Fits f (index name m))
unfolding validate_field
validate_field-Checks kind type_name at m name f res = elim (Option-cases (index name m)) [
  | inl e ↦
      rw (validate_field, e)
        (elim (Bool-cases f.required) [
          | inl r ↦ rw r (refuses _ res (λ p. cc))
          | inr r ↦ rw r (passes res refl)
        ])
  | inr (v, e) ↦
      rw (validate_field, e)
        (elim (Bool-cases (type_matches f.type v)) [
          | inl r ↦ rw r (passes res refl)
          | inr r ↦ rw r (refuses _ res (λ p. cc))
        ])
]

pub validate_config-Checks :
    (kind type_name at : String) (m : Fields) (fields : List (String × Field)) (res : Result)
    → Checks (validate_config kind type_name at m fields res) res (FitsFields m fields)
unfolding validate_config
validate_config-Checks kind type_name at m [] res = passes res tt
validate_config-Checks kind type_name at m ((name, f) ∷ fields) res =
    chain (validate_field kind type_name at m name f res)
      (validate_config kind type_name at m fields (validate_field kind type_name at m name f res))
      res
      (validate_config-Checks kind type_name at m fields
        (validate_field kind type_name at m name f res))
      (validate_field-Checks kind type_name at m name f res)

-- What `wait`, `rerun-failed` and the rest ask for.
abbrev pub HasSource : Fields → Type 0
HasSource m = elim (index "signal" m) [
  | some _ ↦ Unit
  | none ↦ elim (index "timer" m) [ some _ ↦ Unit | none ↦ ⊥ ]
]

abbrev pub IsMode : Option String → Type 0
IsMode none = Unit
IsMode (some mode) = (not (str_eq mode "") && not (has mode rerun_modes)) ≡ false

-- `P` where the test holds.
abbrev pub Where : Bool → Type 0 → Type 0
Where true P = P
Where false P = Unit

pub validate_wait-Checks :
    (p : String) (m : Fields) (res : Result) → Checks (validate_wait p m res) res (HasSource m)
unfolding validate_wait
validate_wait-Checks p m res = elim (Option-cases (index "signal" m)) [
  | inr (v, e) ↦ rw (validate_wait, HasSource, e) (passes res tt)
  | inl e ↦ elim (Option-cases (index "timer" m)) [
    | inr (v, f) ↦ rw (validate_wait, HasSource, e, f) (passes res tt)
    | inl f ↦ rw (validate_wait, HasSource, e, f) (refuses _ res (λ bad. bad))
  ]
]

pub validate_mode-Checks :
    (p : String) (m : Fields) (res : Result)
    → Checks (validate_mode p m res) res (IsMode (as_string (index "mode" m)))
unfolding validate_mode
validate_mode-Checks p m res = elim (Option-cases (as_string (index "mode" m))) [
  | inl e ↦ rw (validate_mode, e) (passes res tt)
  | inr (mode, e) ↦
      rw (validate_mode, e)
        (elim (Bool-cases (not (str_eq mode "") && not (has mode rerun_modes))) [
          | inl f ↦ rw f (refuses _ res (λ bad. cc))
          | inr f ↦ rw f (passes res refl)
        ])
]

pub validate_dedupe-Checks :
    (p : String) (st : Capability) (m : Fields) (res : Result)
    → (validate_dedupe p st m res).errors ≡ res.errors
unfolding validate_dedupe add_warning
validate_dedupe-Checks p st m res = elim (Bool-cases st.side_effect) [
  | inr e ↦ rw e refl
  | inl e ↦ elim (Option-cases (index "dedupe_key" m)) [
    | inr (v, f) ↦ rw (e, f) refl
    | inl f ↦ rw (e, f) refl
  ]
]

-- A check that is made where a test holds.
pub checks_where :
    {P : Type 0} (b : Bool) (after res : Result)
    → Checks after res P
    → Checks (if b then after else res) res (Where b P)
checks_where true after res f = f
checks_where false after res f = passes res tt

-- A node of this capability with this config.
abbrev pub FitsNode : Capability → Fields → Type 0
FitsNode st m =
    FitsFields m st.fields
    × (Where (str_eq st.name "wait") (HasSource m)
        × Where (str_eq st.name "rerun-failed") (IsMode (as_string (index "mode" m))))
