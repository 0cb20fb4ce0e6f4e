-- ===== src/Components/Secret/Varlock.antt =====
-- internal/components/secret/varlock.go: the pull provider, which loads once and answers from its copy.
use servitor.Prelude.{
  ◌≡◌, refl, ap, Bool, true, false, Option, none, some, List, [], ◌∷◌, String, arith, str_eq,
  if◌then◌else◌, lookup, insert,
}
use servitor.Components.Secret.{Answer, value, fail, wrap, source_unreachable, secret_missing}

pub record Varlock : Type 0 where
  pub loaded : Bool
  pub vals : List (String × String)
  pub err : Option String

abbrev pub new_varlock : Varlock
new_varlock = record { loaded = false; vals = []; err = none }

-- What the command and the decoding of its output give: an error, or the values of its `config`.
pub data Output : Type 0 where
  no_output : String → Output
  config : List (String × String) → Output

-- The names whose value is not empty.
unfoldable pub non_empty : List (String × String) → List (String × String) → List (String × String)
non_empty [] vals = vals
non_empty ((name, v) ∷ rest) vals =
    non_empty rest (if str_eq v "" then vals else insert name v vals)

unfoldable pub load : Output → Varlock → Varlock
unfolding non_empty
load (no_output e) p = record p { err = some e }
load (config full) p = record p { vals = non_empty full [] }

-- p.once.Do(p.load): `output` is what the command would give now.
unfoldable pub load_once : Output → Varlock → Varlock
unfolding load
load_once output p = if p.loaded then p else record (load output p) { loaded = true }

unfoldable pub found : Varlock → String → Answer
found p name = elim p.err [
  | some e ↦ fail (wrap source_unreachable e)
  | none ↦ elim (lookup name p.vals) [
    | none ↦ fail (wrap secret_missing name)
    | some v ↦ if str_eq v "" then fail (wrap secret_missing name) else value v
  ]
]

unfoldable pub resolve_varlock : Output → String → String → Varlock → Answer × Varlock
unfolding load_once found
resolve_varlock output node name p = let ready = load_once output p in (found ready name, ready)

-- The answers to a sequence of calls, each with what the command would give at its time.
unfoldable pub answers : List (Output × String) → Varlock → List Answer
answers [] p = []
answers ((output, name) ∷ calls) p =
    let (a, after) = resolve_varlock output "" name p in a ∷ answers calls after

-- The answers for the same names out of one copy.
abbrev pub all_found : Varlock → List (Output × String) → List Answer
all_found p [] = []
all_found p ((output, name) ∷ calls) = found p name ∷ all_found p calls

load_once-loaded : (output : Output) (p : Varlock) → p.loaded ≡ true → load_once output p ≡ p
unfolding load_once
load_once-loaded output p h = ground arith

loaded-load_once : (output : Output) → (load_once output new_varlock).loaded ≡ true
unfolding load_once
loaded-load_once output = refl

answers-all_found :
    (calls : List (Output × String)) (p : Varlock)
    → p.loaded ≡ true
    → answers calls p ≡ all_found p calls
unfolding answers resolve_varlock
answers-all_found [] p h = refl
answers-all_found ((output, name) ∷ calls) p h =
    rw (load_once-loaded output p h)
      (ap (λ rest. found p name ∷ rest) (answers-all_found calls p h))

-- However the store changes or fails after the first call, and whatever names the calls ask for, a new
-- provider answers all of them out of the one copy that its first call has loaded.
answers_from_first_load :
    (output : Output) (name : String) (calls : List (Output × String))
    → answers ((output, name) ∷ calls) new_varlock
      ≡ all_found (load_once output new_varlock) ((output, name) ∷ calls)
unfolding answers resolve_varlock
answers_from_first_load output name calls =
    ap (λ rest. found (load_once output new_varlock) name ∷ rest)
      (answers-all_found calls (load_once output new_varlock) (loaded-load_once output))
