-- ===== src/Components/Refs/Agreement.antt =====
-- EachRef and Substitute of internal/components/refs/refs.go scan a template alike, and the rounds
-- that they are given are enough.
use mathlib.Core.Option
use servitor.Prelude.{
  ℕ, zero, suc, String, Option, none, some, List, [], ◌∷◌, ◌≡◌, ◌<◌, ◌<>◌, arith, refl, lookup,
  length, codes, Option-cases, Bool-cases, inl, inr, str_eq,
}
use servitor.Components.Refs.{
  each_ref_from, each_ref, substitute_from, substitute, Substituted, done, undeclared,
  before_dollar, after_dollar, name_of, past_name,
}
use servitor.Components.Refs.Names.{count-past_name, count-after_dollar}

-- The reference that Substitute reports, if any.
abbrev pub verdict : Substituted → Option String
verdict (done _) = none
verdict (undeclared name) = some name

-- The first reference without a value.
abbrev pub first_missing : List (String × String) → List String → Option String
first_missing vals [] = none
first_missing vals (name ∷ names) = elim (lookup name vals) [
  | none ↦ some name
  | some _ ↦ first_missing vals names
]

-- Both scans return, and Substitute fails where EachRef passes a name without a value.
abbrev pub Agrees : Option (List String) → Option Substituted → List (String × String) → Type 0
Agrees refs result vals =
    (names : List String) × (refs ≡ some names)
    × (Option.map verdict result ≡ some (first_missing vals names))

each_ref_from-substitute_from :
    (fuel : ℕ) (rest out : String) (vals : List (String × String))
    → length (codes rest) < fuel
    → Agrees (each_ref_from fuel rest) (substitute_from fuel rest out vals) vals
unfolding each_ref_from substitute_from
each_ref_from-substitute_from zero rest out vals h = absurd (omega arith)
each_ref_from-substitute_from (suc fuel) rest out vals h = elim (Option-cases (after_dollar rest)) [
  | inl e ↦ rw (each_ref_from, substitute_from, e) ([], refl, refl)
  | inr (after, e) ↦
      let short = count-after_dollar rest after e in
      let long = count-past_name after in
      elim (Bool-cases (str_eq (name_of after) "")) [
        | inl empty ↦
            rw (each_ref_from, substitute_from, e, empty)
              (each_ref_from-substitute_from fuel after (out <> before_dollar rest <> "$") vals
                (omega arith))
        | inr named ↦ elim (Option-cases (lookup (name_of after) vals)) [
          | inl missing ↦
              let (names, refs, _) =
                each_ref_from-substitute_from fuel (past_name after) "" vals (omega arith) in
              rw (each_ref_from, substitute_from, e, named, missing, refs)
                (name_of after ∷ names, refl, rw (first_missing, missing) refl)
          | inr (value, found) ↦
              let (names, refs, same) =
                each_ref_from-substitute_from fuel (past_name after)
                  (out <> before_dollar rest <> value) vals (omega arith) in
              rw (each_ref_from, substitute_from, e, named, found, refs)
                (name_of after ∷ names, refl, rw (first_missing, found) same)
        ]
      ]
]

pub each_ref-substitute :
    (template : String) (vals : List (String × String))
    → Agrees (each_ref template) (substitute template vals) vals
unfolding each_ref substitute
each_ref-substitute template vals =
    each_ref_from-substitute_from (suc (length (codes template))) template "" vals (omega arith)
