-- ===== src/Components/Secret/Routes.antt =====
-- What the resolver returns: the first fatal answer, or all the values and the missing names.
use servitor.Prelude.{
  String, Bool, true, false, Option, none, some, List, [], ◌∷◌, ◌++◌, ◌≡◌, refl, ap, ◌∙◌, not, inl,
  inr, arith, str_eq, str_eq_iff, if◌then◌else◌, has, lookup, insert, lookup-insert, append-nil,
  append_assoc, Option-cases, Bool-cases,
}
use servitor.Components.Secret.{
  Resolver, Answer, value, fail, Failure, is_missing, answer, resolve_from, resolve,
}

-- The value that an answer delivers: not an empty one.
abbrev pub value_of : Answer → Option String
value_of (value v) = if str_eq v "" then none else some v
value_of (fail e) = none

-- The answer says that the secret has no value.
abbrev pub lacks : Answer → Bool
lacks (value v) = str_eq v ""
lacks (fail e) = is_missing e.reason

abbrev pub fatal : Answer → Option Failure
fatal (value v) = none
fatal (fail e) = if is_missing e.reason then none else some e

abbrev prefer : Option String → Option String → Option String
prefer none d = d
prefer (some v) d = some v

abbrev pub is_some {ℓ} : {A : Type ℓ} → Option A → Bool
is_some none = false
is_some (some a) = true

fall_back :
    (b : Bool) (o : Option String) → (if b then prefer o none else none) ≡ (if b then o else none)
fall_back false o = refl
fall_back true none = refl
fall_back true (some v) = refl

fatal-some :
    (a : Answer) (f : Failure) → fatal a ≡ some f → (a ≡ fail f) × (is_missing f.reason ≡ false)
fatal-some (value v) f h = absurd cc
fatal-some (fail e) f h = elim (Bool-cases (is_missing e.reason)) [
  | inl gone ↦ let bad : none ≡ some f = rw gone at h in absurd cc
  | inr kept ↦
      let same : some e ≡ some f = rw kept at h in
      let eq : e ≡ f = cc in (ap fail eq, rw (← eq) kept)
]

module _ (r : Resolver) (node : String) where
  unfoldable pub first_fatal : List String → Option Failure
  first_fatal [] = none
  first_fatal (name ∷ names) =
      let rest = first_fatal names in
      elim (fatal (answer r node name)) [ none ↦ rest | some e ↦ some e ]

  unfoldable pub lacking : List String → List String
  lacking [] = []
  lacking (name ∷ names) =
      let rest = lacking names in if lacks (answer r node name) then name ∷ rest else rest

  add_found : Option String → String → List (String × String) → List (String × String)
  add_found none name values = values
  add_found (some v) name values = insert name v values

  gathered : List String → List (String × String) → List (String × String)
  gathered [] values = values
  gathered (name ∷ names) values =
      gathered names (add_found (value_of (answer r node name)) name values)

  one_lacking : Bool → String → List String
  one_lacking true name = name ∷ []
  one_lacking false name = []

  lacking-cons :
      (name : String) (names : List String)
      → lacking (name ∷ names) ≡ one_lacking (lacks (answer r node name)) name ++ lacking names
  unfolding lacking one_lacking
  lacking-cons name names = ground arith

  -- One round of the loop whose answer is not fatal.
  resolve_from-cons :
      (name : String) (names : List String) (values : List (String × String))
      (missing : List String)
      → fatal (answer r node name) ≡ none
      → resolve_from r node (name ∷ names) values missing
        ≡ resolve_from r node names
            (add_found (value_of (answer r node name)) name values)
            (missing ++ one_lacking (lacks (answer r node name)) name)
  unfolding resolve_from add_found one_lacking
  resolve_from-cons name names values missing h = step (answer r node name) refl
    where
      step :
          (a : Answer)
          → answer r node name ≡ a
          → resolve_from r node (name ∷ names) values missing
            ≡ resolve_from r node names
                (add_found (value_of (answer r node name)) name values)
                (missing ++ one_lacking (lacks (answer r node name)) name)
      step (value v) e = elim (Bool-cases (str_eq v "")) [
        | inl empty ↦ rw (resolve_from, e, empty) refl
        | inr full ↦ rw (resolve_from, e, full, append-nil) refl
      ]
      step (fail f) e = elim (Bool-cases (is_missing f.reason)) [
        | inl gone ↦ rw (resolve_from, e, gone) refl
        | inr bad ↦ let wrong : some f ≡ none = rw (e, bad) at h in absurd cc
      ]

  -- A loop that meets no fatal answer.
  resolve_from-full :
      (names : List String) (values : List (String × String)) (missing : List String)
      → first_fatal names ≡ none
      → resolve_from r node names values missing ≡ record {
        values = some (gathered names values);
        missing = missing ++ lacking names;
        error = none;
      }
  unfolding resolve_from first_fatal gathered lacking
  resolve_from-full [] values missing h = rw append-nil refl
  resolve_from-full (name ∷ names) values missing h =
      elim (Option-cases (fatal (answer r node name))) [
        | inl calm ↦
            resolve_from-cons name names values missing calm
            ∙ resolve_from-full names _ _ (rw (first_fatal, calm) at h)
            ∙ rw (lacking-cons name names, append_assoc) refl
        | inr (e, bad) ↦ let wrong : some e ≡ none = rw (first_fatal, bad) at h in absurd cc
      ]

  lookup-add_found :
      (o : Option String) (name wanted : String) (values : List (String × String))
      → lookup wanted (add_found o name values)
        ≡ (if str_eq name wanted then prefer o (lookup wanted values) else lookup wanted values)
  unfolding add_found
  lookup-add_found none name wanted values = ground arith
  lookup-add_found (some v) name wanted values = lookup-insert name wanted v values

  -- What the loop leaves under a name: the value delivered for it.
  lookup-gathered :
      (wanted : String) (names : List String) (values : List (String × String))
      → lookup wanted (gathered names values) ≡ (
          if has wanted names
          then prefer (value_of (answer r node wanted)) (lookup wanted values)
          else lookup wanted values)
  unfolding gathered has
  lookup-gathered wanted [] values = refl
  lookup-gathered wanted (name ∷ names) values = elim (Bool-cases (str_eq wanted name)) [
    | inl e ↦
        let same : wanted ≡ name = (str_eq_iff wanted name).0 e in
        rw same ground (
          arith,
          lookup-gathered name names (add_found (value_of (answer r node name)) name values),
          lookup-add_found (value_of (answer r node name)) name name values,
          str_eq_iff name name,
        )
    | inr e ↦ ground (
      arith,
      lookup-gathered wanted names (add_found (value_of (answer r node name)) name values),
      lookup-add_found (value_of (answer r node name)) name wanted values,
      str_eq_iff name wanted,
      str_eq_iff wanted name,
    )
  ]

  lookup-gathered_nil :
      (wanted : String) (names : List String)
      → lookup wanted (gathered names [])
        ≡ (if has wanted names then value_of (answer r node wanted) else none)
  unfolding lookup
  lookup-gathered_nil wanted names =
      lookup-gathered wanted names []
      ∙ fall_back (has wanted names) (value_of (answer r node wanted))

  resolve_from-error :
      (names : List String) (values : List (String × String)) (missing : List String) (e : Failure)
      → first_fatal names ≡ some e
      → (resolve_from r node names values missing).error ≡ some e
        × ((resolve_from r node names values missing).values ≡ none)
  unfolding first_fatal resolve_from
  resolve_from-error [] values missing e h = absurd cc
  resolve_from-error (name ∷ names) values missing e h =
      elim (Option-cases (fatal (answer r node name))) [
        | inl calm ↦
            rw (resolve_from-cons name names values missing calm)
              (resolve_from-error names _ _ e (rw (first_fatal, calm) at h))
        | inr (f, bad) ↦
            let same : some f ≡ some e = rw (first_fatal, bad) at h in
            let (failed, kept) = fatal-some (answer r node name) f bad in
            rw (resolve_from, failed, kept) (same, refl)
      ]

  -- Resolving names of which none has a fatal answer: there is no error, the values map every wanted
  -- name to the value its provider gave where that is not empty and every other name to nothing, and
  -- the missing names are those whose provider has none, in the order of the names.
  pub resolve-delivers :
      (names : List String)
      → first_fatal names ≡ none
      → (values : List (String × String)) × ((resolve r node names).values ≡ some values)
        × ((wanted : String)
            → lookup wanted values
              ≡ (if has wanted names then value_of (answer r node wanted) else none))
        × ((resolve r node names).missing ≡ lacking names)
        × ((resolve r node names).error ≡ none)
  unfolding resolve
  resolve-delivers names h =
      let full = resolve_from-full names [] [] h in
      (
        gathered names [],
        rw full refl,
        λ wanted. lookup-gathered_nil wanted names,
        rw full refl,
        rw full refl,
      )

  -- The first fatal answer, of an undeclared name, a source that cannot be reached or a stale secret, is
  -- the error of the whole resolution; there are values exactly where there is no such answer.
  pub resolve-first_fatal :
      (names : List String)
      → ((resolve r node names).error ≡ first_fatal names)
        × (is_some (resolve r node names).values ≡ not (is_some (first_fatal names)))
  unfolding resolve
  resolve-first_fatal names = elim (Option-cases (first_fatal names)) [
    | inl calm ↦ rw (resolve_from-full names [] [] calm, calm) (refl, refl)
    | inr (e, bad) ↦
        let (said, empty) = resolve_from-error names [] [] e bad in
        rw (said, empty, bad) (refl, refl)
  ]
