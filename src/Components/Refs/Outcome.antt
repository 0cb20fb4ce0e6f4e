-- ===== src/Components/Refs/Outcome.antt =====
-- ResolveHeaders of internal/components/refs/refs.go over all the headers.
use servitor.Prelude.{
  String, none, some, List, [], ◌∷◌, ◌++◌, ◌≡◌, refl, lookup, has, str_eq_iff, Option-cases, inl,
  inr, true, ◌⊎◌, arith, append_assoc, append-nil as list_append-nil,
}
use servitor.Components.Refs.{
  each_ref, substitute, done, undeclared, Headers, resolved, in_header, resolve_from,
  resolve_headers, env_values,
}
use servitor.Components.Refs.Agreement.{first_missing, each_ref-substitute}

-- A name that Substitute reports has no value.
first_missing-lookup :
    (vals : List (String × String)) (names : List String) (name : String)
    → first_missing vals names ≡ some name
    → lookup name vals ≡ none
first_missing-lookup vals [] name h = cc
first_missing-lookup vals (n ∷ names) name h = elim (Option-cases (lookup n vals)) [
  | inl missing ↦
      let same : some n ≡ some name = (rw (first_missing, missing) at h) in
      let eq : n ≡ name = cc in rw eq at missing
  | inr (value, found) ↦ first_missing-lookup vals names name (rw (first_missing, found) at h)
]

-- It is one of the references.
first_missing-has :
    (vals : List (String × String)) (names : List String) (name : String)
    → first_missing vals names ≡ some name
    → has name names ≡ true
unfolding has
first_missing-has vals [] name h = cc
first_missing-has vals (n ∷ names) name h = elim (Option-cases (lookup n vals)) [
  | inl missing ↦
      let same : some n ≡ some name = (rw (first_missing, missing) at h) in
      let eq : n ≡ name = cc in rw (eq, (str_eq_iff name name).1 refl) refl
  | inr (value, found) ↦
      let later = first_missing-has vals names name (rw (first_missing, found) at h) in
      ground (arith, later)
]

-- A reference of the template that has no value.
abbrev pub IsUnset : String → List (String × String) → String → Type 0
IsUnset template vals name =
    (names : List String) × (each_ref template ≡ some names)
    × (has name names ≡ true)
    × (lookup name vals ≡ none)

-- Substitute returns, and what it reports is a reference without a value.
substitute-cases :
    (template : String) (vals : List (String × String))
    → ((text : String) × (substitute template vals ≡ some (done text)))
      ⊎ ((name : String) × (substitute template vals ≡ some (undeclared name))
          × IsUnset template vals name)
substitute-cases template vals =
    let (names, refs, agrees) = each_ref-substitute template vals in
    elim (Option-cases (substitute template vals)) [
      | inl e ↦ let bad : none ≡ some (first_missing vals names) = rw e at agrees in absurd cc
      | inr (done text, e) ↦ inl (text, e)
      | inr (undeclared name, e) ↦
          let same : some (some name) ≡ some (first_missing vals names) = rw e at agrees in
          let first : first_missing vals names ≡ some name = cc in
          inr (
            name,
            e,
            (
              names,
              refs,
              first_missing-has vals names name first,
              first_missing-lookup vals names name first,
            ),
          )
    ]

-- The headers with the values substituted: the same keys in the same order.
abbrev pub Written :
    List (String × String) → List (String × String) → List (String × String) → Type 0
Written vals [] out = out ≡ []
Written vals ((k, v) ∷ headers) out =
    (text : String) × (rest : List (String × String)) × (out ≡ (k, text) ∷ rest)
    × (substitute v vals ≡ some (done text))
    × Written vals headers rest

-- The outcome: every header with the text of its substitution, or an error that names a header and a
-- reference of its template without a value.
abbrev pub Explains : List (String × String) → List (String × String) → Headers → Type 0
Explains headers vals (resolved out) = Written vals headers out
Explains headers vals (in_header k name) =
    (v : String) × (before : List (String × String)) × (later : List (String × String)) × (headers
      ≡ before ++ (k, v) ∷ later)
    × IsUnset v vals name

Written-append :
    (vals headers out : List (String × String)) (k v text : String)
    → Written vals headers out
    → substitute v vals ≡ some (done text)
    → Written vals (headers ++ (k, v) ∷ []) (out ++ (k, text) ∷ [])
Written-append vals [] out k v text e h = rw e (text, [], refl, h, refl)
Written-append vals ((k', v') ∷ headers) out k v text (text', rest, e, h', more) h =
    rw e (text', rest ++ (k, text) ∷ [], refl, h', Written-append vals headers rest k v text more h)

resolve_from-Explains :
    (rest vals out before headers : List (String × String))
    → headers ≡ before ++ rest
    → Written vals before out
    → (r : Headers) × (resolve_from rest vals out ≡ some r) × Explains headers vals r
unfolding resolve_from
resolve_from-Explains [] vals out before headers h written =
    (resolved out, refl, rw (h, list_append-nil before) written)
resolve_from-Explains ((k, v) ∷ rest) vals out before headers h written =
    elim (substitute-cases v vals) [
      | inl (text, e) ↦ rw e (
          resolve_from-Explains rest vals (out ++ (k, text) ∷ []) (before ++ (k, v) ∷ []) headers
            (rw (append_assoc before ((k, v) ∷ []) rest) h)
            (Written-append vals before out k v text written e))
      | inr (name, e, unset) ↦ rw e (in_header k name, refl, (v, before, rest, h, unset))
    ]

-- ResolveHeaders ends, either with just the given headers, in their order, each with the text that
-- Substitute makes of its template, or with an error that names one of the headers and a reference of that
-- header's template for which the environment has no value.
pub resolve_headers-Explains :
    (headers : List (String × String)) (env : List String)
    → (r : Headers) × (resolve_headers headers env ≡ some r)
      × Explains headers (env_values env []) r
unfolding resolve_headers
resolve_headers-Explains [] env = (resolved [], refl, refl)
resolve_headers-Explains (h ∷ headers) env =
    resolve_from-Explains (h ∷ headers) (env_values env []) [] [] (h ∷ headers) refl refl
