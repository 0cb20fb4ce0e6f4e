-- ===== src/Wafer/Validate/Distance/Scripts.antt =====
-- The edit distance of internal/wafer/validate.go as the least number of edits.
use native.Mathlib.Decide.{ℕ_discrete}
use servitor.Prelude.{
  ℕ, suc, ◌+◌, ◌≤◌, String, List, [], ◌∷◌, ◌≡◌, refl, ◌∙◌, sym, subst, arith, codes, length, ◌⊎◌,
  inl, inr,
}
use servitor.Wafer.Validate.Distance.{
  distance, distance-nil, least3, cost, edit_distance, edit_distance-distance, backwards,
}

-- `Edits xs ys n`: `n` edits make `ys` of `xs`.
pub data Edits : List ℕ → List ℕ → ℕ → Type 0 where
  same : Edits [] [] 0
  keep : (x : ℕ) {xs ys : List ℕ} {n : ℕ} → Edits xs ys n → Edits (x ∷ xs) (x ∷ ys) n
  replace : (x y : ℕ) {xs ys : List ℕ} {n : ℕ} → Edits xs ys n → Edits (x ∷ xs) (y ∷ ys) (suc n)
  drop : (x : ℕ) {xs ys : List ℕ} {n : ℕ} → Edits xs ys n → Edits (x ∷ xs) ys (suc n)
  add : (y : ℕ) {xs ys : List ℕ} {n : ℕ} → Edits xs ys n → Edits xs (y ∷ ys) (suc n)

-- The three bounds that the recursion takes the least of.
distance-drop : (x : ℕ) (xs ys : List ℕ) → distance (x ∷ xs) ys ≤ suc (distance xs ys)
unfolding distance
distance-drop x xs [] = omega (arith, distance-nil xs)
distance-drop x xs (y ∷ ys) = ground arith

distance-add : (y : ℕ) (xs ys : List ℕ) → distance xs (y ∷ ys) ≤ suc (distance xs ys)
unfolding distance
distance-add y [] ys = omega arith
distance-add y (x ∷ xs) ys = ground arith

distance-step : (x y : ℕ) (xs ys : List ℕ) → distance (x ∷ xs) (y ∷ ys) ≤ distance xs ys + cost x y
unfolding distance
distance-step x y xs ys = ground arith

distance-le : (xs ys : List ℕ) (n : ℕ) → Edits xs ys n → distance xs ys ≤ n
unfolding distance
distance-le _ _ _ same = omega arith
distance-le _ _ _ (keep x {xs} {ys} {n} e) =
    ground (arith, distance-step x x xs ys, distance-le xs ys n e)
distance-le _ _ _ (replace x y {xs} {ys} {n} e) =
    ground (arith, distance-step x y xs ys, distance-le xs ys n e)
distance-le _ _ _ (drop x {xs} {ys} {n} e) =
    omega (arith, distance-drop x xs ys, distance-le xs ys n e)
distance-le _ _ _ (add y {xs} {ys} {n} e) =
    omega (arith, distance-add y xs ys, distance-le xs ys n e)

add_all : (ys : List ℕ) → Edits [] ys (length ys)
add_all [] = same
add_all (y ∷ ys) = add y (add_all ys)

drop_all : (xs : List ℕ) → Edits xs [] (length xs)
drop_all [] = same
drop_all (x ∷ xs) = drop x (drop_all xs)

least3-cases : (a b c : ℕ) → (least3 a b c ≡ a) ⊎ ((least3 a b c ≡ b) ⊎ (least3 a b c ≡ c))
least3-cases a b c = ground arith

step : (x y : ℕ) {xs ys : List ℕ} {n : ℕ} → Edits xs ys n → Edits (x ∷ xs) (y ∷ ys) (n + cost x y)
step x y {xs} {ys} {n} e = elim (ℕ_discrete x y) [
  | yes eq ↦
      subst (λ z. Edits (x ∷ xs) (z ∷ ys) (n + cost x z)) eq
        (subst (Edits (x ∷ xs) (x ∷ ys)) (ground arith) (keep x e))
  | no ne ↦ subst (Edits (x ∷ xs) (y ∷ ys)) (ground arith) (replace x y e)
]

distance-Edits : (xs ys : List ℕ) → Edits xs ys (distance xs ys)
unfolding distance
distance-Edits [] ys = add_all ys
distance-Edits (x ∷ xs) [] = drop_all (x ∷ xs)
distance-Edits (x ∷ xs) (y ∷ ys) =
    elim (least3-cases (suc (distance xs (y ∷ ys))) (suc (distance (x ∷ xs) ys))
      (distance xs ys + cost x y)) [
        | inl e ↦ subst (Edits (x ∷ xs) (y ∷ ys)) (sym e) (drop x (distance-Edits xs (y ∷ ys)))
        | inr (inl e) ↦ subst (Edits (x ∷ xs) (y ∷ ys)) (sym e) (add y (distance-Edits (x ∷ xs) ys))
        | inr (inr e) ↦ subst (Edits (x ∷ xs) (y ∷ ys)) (sym e) (step x y (distance-Edits xs ys))
      ]

-- Edits read backwards: a script goes on at the other end.
Edits-backwards :
    (xs ys us vs : List ℕ) (m n : ℕ)
    → Edits xs ys n
    → Edits us vs m
    → Edits (backwards xs us) (backwards ys vs) (n + m)
Edits-backwards _ _ us vs m _ same f = subst (Edits us vs) (omega arith) f
Edits-backwards _ _ us vs m _ (keep x {xs} {ys} {n} e) f =
    Edits-backwards xs ys (x ∷ us) (x ∷ vs) m n e (keep x f)
Edits-backwards _ _ us vs m _ (replace x y {xs} {ys} {n} e) f =
    subst (Edits (backwards xs (x ∷ us)) (backwards ys (y ∷ vs))) (omega arith)
      (Edits-backwards xs ys (x ∷ us) (y ∷ vs) (suc m) n e (replace x y f))
Edits-backwards _ _ us vs m _ (drop x {xs} {ys} {n} e) f =
    subst (Edits (backwards xs (x ∷ us)) (backwards ys vs)) (omega arith)
      (Edits-backwards xs ys (x ∷ us) vs (suc m) n e (drop x f))
Edits-backwards _ _ us vs m _ (add y {xs} {ys} {n} e) f =
    subst (Edits (backwards xs us) (backwards ys (y ∷ vs))) (omega arith)
      (Edits-backwards xs ys us (y ∷ vs) (suc m) n e (add y f))

backwards-twice : (xs us : List ℕ) → backwards (backwards xs us) [] ≡ backwards us xs
backwards-twice [] us = refl
backwards-twice (x ∷ xs) us = backwards-twice xs (x ∷ us) ∙ refl

abbrev pub IsLeast : (ℕ → Type 0) → ℕ → Type 0
IsLeast P n = P n × ((m : ℕ) → P m → n ≤ m)

pub edit_distance-IsLeast : (a b : String) → IsLeast (Edits (codes a) (codes b)) (edit_distance a b)
edit_distance-IsLeast a b =
    let same_distance = edit_distance-distance a b in
    (
      subst (Edits (codes a) (codes b)) (omega (arith, same_distance)) (
          subst2 (codes a) (codes b) (
            Edits-backwards (backwards (codes a) []) (backwards (codes b) []) [] [] 0
              (distance (backwards (codes a) []) (backwards (codes b) []))
              (distance-Edits (backwards (codes a) []) (backwards (codes b) [])) same)),
      λ m e. omega (
        arith,
        same_distance,
        distance-le (backwards (codes a) []) (backwards (codes b) []) (m + 0)
            (Edits-backwards (codes a) (codes b) [] [] 0 m e same),
      ),
    )
  where
    subst2 :
        (xs ys : List ℕ) {n : ℕ}
        → Edits (backwards (backwards xs []) []) (backwards (backwards ys []) []) n
        → Edits xs ys n
    subst2 xs ys {n} e = rw (backwards-twice xs [], backwards-twice ys []) at e
