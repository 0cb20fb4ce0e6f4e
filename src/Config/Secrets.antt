-- ===== src/Config/Secrets.antt =====
-- The declared secrets as the sources that a resolver routes on.
use servitor.Prelude.{
  ◌≡◌, refl, ap, ◌∙◌, Bool, Option, none, some, List, [], ◌∷◌, inl, inr, Option-cases, sym, String,
  arith, str_eq, ◌||◌, ◌&&◌, not, lookup, insert, lookup-insert, remove, lookup-remove, Bool-cases,
}
use servitor.Components.Secret.{Providers, new_resolver, declared}
use servitor.Config.{
  Config, SecretEntry, Table, Outcome, done, error, panicked, declares, add_secret, remove_secret,
  sources_from, secret_sources,
}

sources_from-step :
    (old : String) (kept : SecretEntry) (rest : Table SecretEntry) (out : List (String × String))
    → sources_from rest ≡ done out
    → sources_from ((old, some kept) ∷ rest) ≡ done ((old, kept.source) ∷ out)
unfolding sources_from
sources_from-step old kept rest out h = rw h refl

-- The sources of a table, taken apart.
sources_from-cons :
    (old : String) (entry : Option SecretEntry) (rest : Table SecretEntry)
    (sources : List (String × String))
    → sources_from ((old, entry) ∷ rest) ≡ done sources
    → (kept : SecretEntry) × (out : List (String × String)) × (entry ≡ some kept)
      × (sources_from rest ≡ done out)
      × (sources ≡ (old, kept.source) ∷ out)
unfolding sources_from
sources_from-cons old none rest sources h = absurd cc
sources_from-cons old (some kept) rest sources h = by_rest (sources_from rest) refl
  where
    by_rest :
        (o : Outcome (List (String × String)))
        → sources_from rest ≡ o
        → (s : SecretEntry) × (out : List (String × String)) × (some kept ≡ some s)
          × (sources_from rest ≡ done out)
          × (sources ≡ (old, s.source) ∷ out)
    by_rest (done out) e =
        let same : done ((old, kept.source) ∷ out) ≡ done sources = rw e at h in
        (kept, out, refl, e, cc)
    by_rest (error m) e = let bad : error m ≡ done sources = rw e at h in absurd cc
    by_rest panicked e = let bad : panicked ≡ done sources = rw e at h in absurd cc

sources_from-insert :
    (name : String) (s : SecretEntry) (entries : Table SecretEntry)
    (sources : List (String × String))
    → sources_from entries ≡ done sources
    → sources_from (insert name (some s) entries) ≡ done (insert name s.source sources)
unfolding insert
sources_from-insert name s [] sources h =
    let none_there : sources ≡ [] = unfold sources_from in cc in
    rw none_there (sources_from-step name s [] [] (unfold sources_from in refl))
sources_from-insert name s ((old, entry) ∷ rest) sources h =
    let (kept, out, there, more, parts) = sources_from-cons old entry rest sources h in
    rw (there, parts)
      (elim (Bool-cases (str_eq old name)) [
        | inl here ↦ rw here (sources_from-step name s rest out more)
        | inr later ↦ rw later (
            sources_from-step old kept (insert name (some s) rest) (insert name s.source out)
              (sources_from-insert name s rest out more))
      ])

sources_from-remove :
    (name : String) (entries : Table SecretEntry) (sources : List (String × String))
    → sources_from entries ≡ done sources
    → sources_from (remove name entries) ≡ done (remove name sources)
unfolding remove
sources_from-remove name [] sources h =
    let none_there : sources ≡ [] = unfold sources_from in cc in
    rw none_there (unfold sources_from in refl)
sources_from-remove name ((old, entry) ∷ rest) sources h =
    let (kept, out, there, more, parts) = sources_from-cons old entry rest sources h in
    rw (there, parts)
      (elim (Bool-cases (str_eq old name)) [
        | inl here ↦ rw here (sources_from-remove name rest out more)
        | inr later ↦ rw later (
            sources_from-step old kept (remove name rest) (remove name out)
              (sources_from-remove name rest out more))
      ])

remove-undeclared {ℓ} :
    {V : Type ℓ} (key : String) (entries : List (String × V))
    → lookup key entries ≡ none
    → remove key entries ≡ entries
unfolding remove lookup
remove-undeclared key [] h = refl
remove-undeclared key ((old, kept) ∷ rest) h = elim (Bool-cases (str_eq old key)) [
  | inl here ↦ let bad : some kept ≡ none = rw here at h in absurd cc
  | inr later ↦ rw later (ap (λ t. (old, kept) ∷ t) (remove-undeclared key rest (rw later at h)))
]

-- Whether the secret was declared or not, the table is the one without it.
secrets-remove_secret :
    (name : String) (c : Config) → (remove_secret name c).0.secrets ≡ remove name c.secrets
unfolding remove_secret declares
secrets-remove_secret name c = elim (Option-cases (lookup name c.secrets)) [
  | inl none_there ↦ rw (declares, none_there) (sym (remove-undeclared name c.secrets none_there))
  | inr (entry, there) ↦ rw (declares, there) refl
]

-- What the resolver over the sources of a config says is declared.
abbrev pub knows : Option Providers → List (String × String) → String → Bool
knows reg sources name = declared (new_resolver reg (some sources)) name

knows-insert :
    (reg : Option Providers) (name source wanted : String) (sources : List (String × String))
    → knows reg (insert name source sources) wanted
      ≡ (str_eq name wanted || knows reg sources wanted)
unfolding declared new_resolver
knows-insert reg name source wanted sources =
    rw (declared, lookup-insert name wanted source sources) (ground arith)

knows-remove :
    (reg : Option Providers) (name wanted : String) (sources : List (String × String))
    → knows reg (remove name sources) wanted
      ≡ (not (str_eq name wanted) && knows reg sources wanted)
unfolding declared new_resolver
knows-remove reg name wanted sources =
    rw (declared, lookup-remove name wanted sources) (ground arith)

-- Once a secret is added to a config without nil entries, its sources can be taken and a resolver over them
-- has declared that name and what was declared before; once it is removed, what was declared but that
-- name.
pub secret_sources-declared :
    (reg : Option Providers) (c : Config) (name : String) (s : SecretEntry)
    (sources : List (String × String))
    → secret_sources c ≡ done sources
    → (more less : List (String × String)) × (secret_sources (add_secret name (some s) c)
        ≡ done more)
      × (secret_sources (remove_secret name c).0 ≡ done less)
      × ((wanted : String)
          → knows reg more wanted ≡ (str_eq name wanted || knows reg sources wanted))
      × ((wanted : String)
          → knows reg less wanted ≡ (not (str_eq name wanted) && knows reg sources wanted))
unfolding secret_sources add_secret remove_secret
secret_sources-declared reg c name s sources h = (
  insert name s.source sources,
  remove name sources,
  sources_from-insert name s c.secrets sources h,
  ap sources_from (secrets-remove_secret name c) ∙ sources_from-remove name c.secrets sources h,
  λ wanted. knows-insert reg name s.source wanted sources,
  λ wanted. knows-remove reg name wanted sources,
)
