-- ===== src/Components/Refs/Identity.antt =====
-- What Substitute of internal/components/refs/refs.go keeps of a template.
use text.Mathlib.TextLemmas.{append_assoc, nil-append}
use servitor.Prelude.{
  ℕ, zero, suc, String, some, List, ◌≡◌, ◌<>◌, arith, ◌∙◌, ap, lookup, length, codes, Option-cases,
  Bool-cases, inl, inr, str_eq,
}
use servitor.Components.Refs.{
  substitute_from, substitute, done, undeclared, before_dollar, after_dollar, name_of, past_name,
}
use servitor.Components.Refs.Names.{before_dollar-append, name_of-append}

-- Every value is the reference to its own name.
abbrev IsSelf : List (String × String) → Type 0
IsSelf vals = (name value : String) → lookup name vals ≡ some value → value ≡ "$" <> name

-- A round writes what it takes off the text.
round-append :
    (out rest after : String)
    → after_dollar rest ≡ some after
    → out <> before_dollar rest <> ("$" <> name_of after) <> past_name after ≡ out <> rest
round-append out rest after e =
    grind (arith, append_assoc, before_dollar-append rest after e, name_of-append after)

substitute_from-IsSelf :
    (fuel : ℕ) (rest out text : String) (vals : List (String × String))
    → IsSelf vals
    → substitute_from fuel rest out vals ≡ some (done text)
    → text ≡ out <> rest
unfolding substitute_from
substitute_from-IsSelf zero rest out text vals self h = cc
substitute_from-IsSelf (suc fuel) rest out text vals self h =
    elim (Option-cases (after_dollar rest)) [
      | inl e ↦
          let same : some (done (out <> rest)) ≡ some (done text) =
            (rw (substitute_from, e) at h) in
          cc
      | inr (after, e) ↦ elim (Bool-cases (str_eq (name_of after) "")) [
        | inl empty ↦
            let same =
              substitute_from-IsSelf fuel after (out <> before_dollar rest <> "$") text vals self
                (rw (substitute_from, e, empty) at h) in
            same
            ∙ append_assoc (out <> before_dollar rest) "$" after
            ∙ append_assoc out (before_dollar rest) ("$" <> after)
            ∙ ap (λ s. out <> s) (before_dollar-append rest after e)
        | inr named ↦ elim (Option-cases (lookup (name_of after) vals)) [
          | inl missing ↦
              let same : some (undeclared (name_of after)) ≡ some (done text) =
                (rw (substitute_from, e, named, missing) at h) in
              cc
          | inr (value, found) ↦
              let same =
                substitute_from-IsSelf fuel (past_name after) (out <> before_dollar rest <> value)
                  text vals self (rw (substitute_from, e, named, found) at h) in
              (let self_value = self (name_of after) value found in
                let moved = rw self_value at same in moved ∙ round-append out rest after e)
        ]
      ]
    ]

substitute-IsSelf :
    (template text : String) (vals : List (String × String))
    → IsSelf vals
    → substitute template vals ≡ some (done text)
    → text ≡ template
unfolding substitute
substitute-IsSelf template text vals self h =
    substitute_from-IsSelf (suc (length (codes template))) template "" text vals self h
    ∙ nil-append template
