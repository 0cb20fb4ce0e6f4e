-- ===== src/Prelude/Sort.antt =====
-- sort.Slice by a name: the order of Go's texts, which is that of their code points, and insertion
-- sort as the sorting routine. The lists that the code sorts hold no name twice.
use Prim.Native.Nat.{ℕ}
use Prim.Native.String.{String}
use mathlib.Core.Path.{◌≡◌, refl, ◌∙◌, ap}
use mathlib.Core.Bool.{Bool, true, false, ◌||◌, ◌&&◌}
use mathlib.Core.List.{List, [], ◌∷◌}
use native.Mathlib.Omega.{arith}
use servitor.Prelude.Tests.{ltb, ◌==◌, if◌then◌else◌, Bool-cases}
use servitor.Prelude.Lists.{any}
use servitor.Prelude.Text.{codes}
use mathlib.Core.Logic.{inl, inr}

-- s < t, on code points.
codes_lt : List ℕ → List ℕ → Bool
codes_lt xs [] = false
codes_lt [] (y ∷ ys) = true
codes_lt (x ∷ xs) (y ∷ ys) = ltb x y || x == y && codes_lt xs ys

unfoldable pub text_lt : String → String → Bool
unfolding codes_lt
text_lt s t = codes_lt (codes s) (codes t)

codes_lt_asym : (xs ys : List ℕ) → codes_lt xs ys ≡ true → codes_lt ys xs ≡ false
unfolding codes_lt
codes_lt_asym [] [] h = refl
codes_lt_asym [] (y ∷ ys) h = refl
codes_lt_asym (x ∷ xs) [] h = cc
codes_lt_asym (x ∷ xs) (y ∷ ys) h = ground (arith, codes_lt_asym xs ys)

-- What is not below is not below anything that is below.
codes_lt_trans :
    (xs ys zs : List ℕ) → codes_lt ys xs ≡ false → codes_lt zs ys ≡ false → codes_lt zs xs ≡ false
unfolding codes_lt
codes_lt_trans xs [] [] h k = h
codes_lt_trans xs (y ∷ ys) [] h k = absurd cc
codes_lt_trans [] ys (z ∷ zs) h k = refl
codes_lt_trans (x ∷ xs) [] (z ∷ zs) h k = absurd cc
codes_lt_trans (x ∷ xs) (y ∷ ys) (z ∷ zs) h k = ground (arith, codes_lt_trans xs ys zs)

pub text_lt_asym : (s t : String) → text_lt s t ≡ true → text_lt t s ≡ false
unfolding text_lt
text_lt_asym s t = codes_lt_asym (codes s) (codes t)

pub text_lt_trans :
    (r s t : String) → text_lt s r ≡ false → text_lt t s ≡ false → text_lt t r ≡ false
unfolding text_lt
text_lt_trans r s t = codes_lt_trans (codes r) (codes s) (codes t)

module _ {ℓ} {A : Type ℓ} (name : A → String) where
  unfoldable pub insert_sorted : A → List A → List A
  unfolding text_lt
  insert_sorted a [] = a ∷ []
  insert_sorted a (x ∷ xs) =
      let rest = insert_sorted a xs in if text_lt (name x) (name a) then x ∷ rest else a ∷ x ∷ xs

  unfoldable pub sort_by : List A → List A
  unfolding insert_sorted
  sort_by [] = []
  sort_by (x ∷ xs) = insert_sorted x (sort_by xs)

  -- No name stands before a smaller one.
  abbrev pub IsSorted : List A → Type 0
  IsSorted [] = Unit
  IsSorted (x ∷ xs) = (any (λ y. text_lt (name y) (name x)) xs ≡ false) × IsSorted xs

  pub any-insert_sorted :
      (p : A → Bool) (a : A) (xs : List A) → any p (insert_sorted a xs) ≡ (p a || any p xs)
  unfolding insert_sorted
  any-insert_sorted p a [] = refl
  any-insert_sorted p a (x ∷ xs) = ground (arith, any-insert_sorted p a xs)

  -- Sorting keeps what stands in the list.
  pub any-sort_by : (p : A → Bool) (xs : List A) → any p (sort_by xs) ≡ any p xs
  unfolding sort_by
  any-sort_by p [] = refl
  any-sort_by p (x ∷ xs) =
      any-insert_sorted p x (sort_by xs) ∙ ap (λ b. p x || b) (any-sort_by p xs)

  -- Nothing below `y` stands in a list of which nothing is below `x`, where `y` is not above `x`.
  any-below :
      (x y : A) (xs : List A)
      → text_lt (name x) (name y) ≡ false
      → any (λ z. text_lt (name z) (name x)) xs ≡ false
      → any (λ z. text_lt (name z) (name y)) xs ≡ false
  any-below x y [] h none_below = refl
  any-below x y (z ∷ zs) h none_below =
      ground (arith, any-below x y zs h, text_lt_trans (name y) (name x) (name z) h)

  insert_sorted-IsSorted : (a : A) (xs : List A) → IsSorted xs → IsSorted (insert_sorted a xs)
  unfolding insert_sorted
  insert_sorted-IsSorted a [] h = (refl, tt)
  insert_sorted-IsSorted a (x ∷ xs) h = elim (Bool-cases (text_lt (name x) (name a))) [
    | inl e ↦ rw e (
      any-insert_sorted (λ y. text_lt (name y) (name x)) a xs
          ∙ rw (text_lt_asym (name x) (name a) e, h.0) refl,
      insert_sorted-IsSorted a xs h.1,
    )
    | inr e ↦ rw e (rw (e) (any-below x a xs e h.0), h)
  ]

  pub sort_by-IsSorted : (xs : List A) → IsSorted (sort_by xs)
  unfolding sort_by
  sort_by-IsSorted [] = tt
  sort_by-IsSorted (x ∷ xs) = insert_sorted-IsSorted x (sort_by xs) (sort_by-IsSorted xs)
