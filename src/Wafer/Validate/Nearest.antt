-- ===== src/Wafer/Validate/Nearest.antt =====
-- nearest of internal/wafer/validate.go: the suggestion for an unknown name.
use servitor.Prelude.{
  ℕ, ◌≤◌, ◌<◌, String, true, false, Option, none, some, List, [], ◌∷◌, ◌≡◌, refl, sym, subst, arith,
  ltb, leb, str_eq, str_eq_iff, if◌then◌else◌, any, Bool-cases, inl, inr, ◌⊎◌,
}
use servitor.Wafer.Validate.Distance.{edit_distance}

-- `best` and `bestDist`, `none` where that is -1: a later candidate must be nearer.
unfoldable pub nearer : String → String → Option (String × ℕ) → Option (String × ℕ)
nearer unknown c none = some (c, edit_distance unknown c)
nearer unknown c (some (best, d)) =
    if ltb (edit_distance unknown c) d then some (c, edit_distance unknown c) else some (best, d)

unfoldable pub nearest_from : String → List String → Option (String × ℕ) → Option (String × ℕ)
unfolding nearer
nearest_from unknown [] best = best
nearest_from unknown (c ∷ candidates) best = nearest_from unknown candidates (nearer unknown c best)

-- A distance of at most 2 makes a suggestion.
unfoldable pub nearest : String → List String → String
unfolding nearest_from
nearest unknown candidates = elim (nearest_from unknown candidates none) [
  | none ↦ ""
  | some (best, d) ↦ if leb d 2 then best else ""
]

-- `c` stands in the list.
abbrev pub IsIn : String → List String → Type 0
IsIn c candidates = any (str_eq c) candidates ≡ true

abbrev IsNearest : String → List String → String → ℕ → Type 0
IsNearest unknown candidates best d =
    (d ≡ edit_distance unknown best)
    × ((c : String) → IsIn c candidates → d ≤ edit_distance unknown c)

-- What `nearest_from` makes of a best candidate so far: one that is at least as near, that is this one
-- or one of the others, and that none of them beats.
abbrev Beats : String → List String → String → ℕ → String → ℕ → Type 0
Beats unknown candidates best d b e =
    (nearest_from unknown candidates (some (best, d)) ≡ some (b, e))
    × (e ≡ edit_distance unknown b)
    × (e ≤ d)
    × ((b ≡ best) ⊎ IsIn b candidates)
    × ((c : String) → IsIn c candidates → e ≤ edit_distance unknown c)

others :
    (unknown c : String) (candidates : List String) (b : String) (e : ℕ)
    → e ≤ edit_distance unknown c
    → ((k : String) → IsIn k candidates → e ≤ edit_distance unknown k)
    → (k : String) → IsIn k (c ∷ candidates)
    → e ≤ edit_distance unknown k
others unknown c candidates b e le least k listed = elim (Bool-cases (str_eq k c)) [
  | inl same ↦ let eq_c = (str_eq_iff k c).0 same in rw eq_c (omega arith)
  | inr other ↦ least k (rw other at listed)
]

-- One more candidate `c` in front, not better than the one that is found in the end.
Beats-cons :
    (unknown c : String) (candidates : List String) (best next : String) (d n : ℕ)
    → nearer unknown c (some (best, d)) ≡ some (next, n)
    → n ≤ d
    → n ≤ edit_distance unknown c
    → (next ≡ best) ⊎ (next ≡ c)
    → (b : String) (e : ℕ) → Beats unknown candidates next n b e
    → Beats unknown (c ∷ candidates) best d b e
unfolding nearest_from
Beats-cons unknown c candidates best next d n step le near origin b e
      (eq, dist, below, where_b, least) =
    (rw step eq, dist, omega arith, place, others unknown c candidates b e (omega arith) least)
  where
    place : (b ≡ best) ⊎ IsIn b (c ∷ candidates)
    place = grind (arith, where_b, origin, str_eq_iff b c)

nearest_from-Beats :
    (unknown : String) (candidates : List String) (best : String) (d : ℕ)
    → d ≡ edit_distance unknown best
    → (b : String) × (e : ℕ) × Beats unknown candidates best d b e
unfolding nearest_from nearer
nearest_from-Beats unknown [] best d h =
    (best, d, (refl, h, omega arith, inl refl, λ c bad. absurd cc))
nearest_from-Beats unknown (c ∷ candidates) best d h =
    elim (Bool-cases (ltb (edit_distance unknown c) d)) [
      | inl lt ↦
          let (b, e, beats) =
            nearest_from-Beats unknown candidates c (edit_distance unknown c) refl in
          (
            b,
            e,
            Beats-cons unknown c candidates best c d (edit_distance unknown c)
                (rw (nearer, lt) refl) (ground arith) (omega arith) (inr refl) b e beats,
          )
      | inr ge ↦
          let (b, e, beats) = nearest_from-Beats unknown candidates best d h in
          (
            b,
            e,
            Beats-cons unknown c candidates best best d d (rw (nearer, ge) refl) (omega arith)
                (ground arith) (inl refl) b e beats,
          )
    ]

nearest_from-cons :
    (unknown c : String) (candidates : List String)
    → (b : String) × (e : ℕ) × (nearest_from unknown (c ∷ candidates) none ≡ some (b, e))
      × IsIn b (c ∷ candidates)
      × IsNearest unknown (c ∷ candidates) b e
unfolding nearest_from nearer
nearest_from-cons unknown c candidates =
    let (b, e, (eq, dist, below, place, least)) =
      nearest_from-Beats unknown candidates c (edit_distance unknown c) refl in
    (
      b,
      e,
      eq,
      grind (arith, place, str_eq_iff b c),
      (dist, others unknown c candidates b e below least),
    )

-- `best` is a candidate, and none is nearer to `unknown`.
abbrev pub IsBest : String → List String → String → Type 0
IsBest unknown candidates best =
    IsIn best candidates
    × ((k : String) → IsIn k candidates → edit_distance unknown best ≤ edit_distance unknown k)

-- A candidate within two edits makes a suggestion, and no other candidate is nearer than it.
nearest-IsIn :
    (unknown c : String) (candidates : List String)
    → IsIn c candidates
    → edit_distance unknown c ≤ 2
    → IsBest unknown candidates (nearest unknown candidates)
unfolding nearest
nearest-IsIn unknown c [] listed close = absurd cc
nearest-IsIn unknown c (d ∷ candidates) listed close =
    let (b, e, eq, at_b, (dist, least)) = nearest_from-cons unknown d candidates in
    let le = least c listed in
    let small : leb e 2 ≡ true = ground arith in
    let same : nearest unknown (d ∷ candidates) ≡ b = rw (nearest, eq, small) refl in
    subst (IsBest unknown (d ∷ candidates)) (sym same)
      (at_b, λ k at_k. omega (arith, dist, least k at_k))

-- Without one there is no suggestion.
nearest-empty :
    (unknown : String) (candidates : List String)
    → ((c : String) → IsIn c candidates → 2 < edit_distance unknown c)
    → nearest unknown candidates ≡ ""
unfolding nearest nearest_from
nearest-empty unknown [] far = refl
nearest-empty unknown (d ∷ candidates) far =
    let (b, e, eq, at_b, (dist, least)) = nearest_from-cons unknown d candidates in
    let apart = far b at_b in
    let large : leb e 2 ≡ false = ground arith in rw (nearest, eq, large) refl
