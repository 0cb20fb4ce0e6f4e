-- ===== src/Prelude/Sums.antt =====
-- Sums of a function over a list and over the numbers below a bound.
use Prim.Native.Nat.{ℕ, zero, suc, ◌+◌, ◌*◌, ◌≤◌, ◌<◌}
use mathlib.Core.Path.{◌≡◌, refl, ◌∙◌, ap}
use mathlib.Core.List.{List, [], ◌∷◌, ◌++◌}
use native.Mathlib.Omega.{arith}
use native.Mathlib.Decide.{ℕ_discrete}
use servitor.Prelude.Tests.{◌==◌, if◌then◌else◌}
use servitor.Prelude.Lists.{count, count-cons, length}

unfoldable pub sum_over : (ℕ → ℕ) → List ℕ → ℕ
sum_over f [] = 0
sum_over f (x ∷ xs) = f x + sum_over f xs

pub sum_below : ℕ → (ℕ → ℕ) → ℕ
sum_below zero f = 0
sum_below (suc n) f = f n + sum_below n f

pub sum_over-append :
    (f : ℕ → ℕ) (xs ys : List ℕ) → sum_over f (xs ++ ys) ≡ sum_over f xs + sum_over f ys
unfolding sum_over
sum_over-append f [] ys = omega arith
sum_over-append f (x ∷ xs) ys = omega (arith, sum_over-append f xs ys)

pub sum_over-snoc :
    (f : ℕ → ℕ) (xs : List ℕ) (y : ℕ) → sum_over f (xs ++ y ∷ []) ≡ sum_over f xs + f y
unfolding sum_over
sum_over-snoc f xs y = omega (arith, sum_over-append f xs (y ∷ []))

-- Every number of the list is below `n`.
abbrev pub IsBelow : ℕ → List ℕ → Type 0
IsBelow n xs = (m : ℕ) → 0 < count m xs → m < n

-- No number stands in the list twice.
abbrev pub IsOnce : List ℕ → Type 0
IsOnce xs = (m : ℕ) → count m xs ≤ 1

IsBelow-head : (n x : ℕ) (xs : List ℕ) → IsBelow n (x ∷ xs) → x < n
IsBelow-head n x xs h = h x (ground (arith, count-cons x x xs))

IsBelow-tail : (n x : ℕ) (xs : List ℕ) → IsBelow n (x ∷ xs) → IsBelow n xs
IsBelow-tail n x xs h m pos = h m (ground (arith, count-cons m x xs))

-- The sum of `f` below `n`, each value as often as the list holds it.
weighted : ℕ → (ℕ → ℕ) → List ℕ → ℕ
weighted zero f xs = 0
weighted (suc n) f xs = count n xs * f n + weighted n f xs

weighted-nil : (n : ℕ) (f : ℕ → ℕ) → weighted n f [] ≡ 0
unfolding weighted count
weighted-nil zero f = refl
weighted-nil (suc n) f = omega (arith, weighted-nil n f)

weighted-cons_above :
    (n : ℕ) (f : ℕ → ℕ) (x : ℕ) (xs : List ℕ) → n ≤ x → weighted n f (x ∷ xs) ≡ weighted n f xs
unfolding weighted
weighted-cons_above zero f x xs h = refl
weighted-cons_above (suc n) f x xs h =
    ground (arith, weighted-cons_above n f x xs, count-cons n x xs)

weighted-cons :
    (n : ℕ) (f : ℕ → ℕ) (x : ℕ) (xs : List ℕ)
    → x < n
    → weighted n f (x ∷ xs) ≡ f x + weighted n f xs
unfolding weighted
weighted-cons zero f x xs h = absurd (omega arith)
weighted-cons (suc n) f x xs h = elim (ℕ_discrete n x) [
  | yes e ↦ rw (count-cons n x xs) (grind (arith, weighted-cons_above n f x xs (omega arith)))
  | no ne ↦ ground (arith, weighted-cons n f x xs, count-cons n x xs)
]

weighted_lem : (n : ℕ) (f : ℕ → ℕ) (xs : List ℕ) → IsBelow n xs → weighted n f xs ≡ sum_over f xs
unfolding sum_over
weighted_lem n f [] h = weighted-nil n f
weighted_lem n f (x ∷ xs) h =
    weighted-cons n f x xs (IsBelow-head n x xs h)
    ∙ ap (λ s. f x + s) (weighted_lem n f xs (IsBelow-tail n x xs h))

weighted-le : (n : ℕ) (f : ℕ → ℕ) (xs : List ℕ) → IsOnce xs → weighted n f xs ≤ sum_below n f
unfolding weighted sum_below
weighted-le zero f xs h = omega arith
weighted-le (suc n) f xs h = grind (arith, weighted-le n f xs h, h n)

-- A smaller sum leaves out an index at which the function is not zero.
weighted-missing :
    (n : ℕ) (f : ℕ → ℕ) (xs : List ℕ)
    → IsOnce xs
    → weighted n f xs < sum_below n f
    → (m : ℕ) × (m < n) × (count m xs ≡ 0) × (0 < f m)
unfolding weighted sum_below
weighted-missing zero f xs once h = absurd (omega arith)
weighted-missing (suc n) f xs once h = elim (ℕ_discrete (count n xs) 0) [
  | yes e ↦ elim (ℕ_discrete (f n) 0) [
    | yes z ↦
        let (m, lt, absent, pos) = weighted-missing n f xs once (grind arith) in
        (m, omega arith, absent, pos)
    | no ne ↦ (n, omega arith, e, omega arith)
  ]
  | no ne ↦
      let (m, lt, absent, pos) = weighted-missing n f xs once (grind (arith, once n)) in
      (m, omega arith, absent, pos)
]

weighted-top :
    (n : ℕ) (f : ℕ → ℕ) (xs : List ℕ)
    → IsOnce xs
    → weighted (suc n) f xs ≡ sum_below (suc n) f
    → 0 < f n
    → 0 < count n xs
unfolding weighted sum_below
weighted-top n f xs once e pos = elim (ℕ_discrete (count n xs) 0) [
  | yes z ↦ absurd (grind (arith, weighted-le n f xs once))
  | no ne ↦ omega arith
]

weighted-present :
    (n : ℕ) (f : ℕ → ℕ) (xs : List ℕ) (m : ℕ)
    → IsOnce xs
    → weighted n f xs ≡ sum_below n f
    → m < n
    → 0 < f m
    → 0 < count m xs
unfolding weighted sum_below
weighted-present zero f xs m once e lt pos = absurd (omega arith)
weighted-present (suc n) f xs m once e lt pos = elim (ℕ_discrete n m) [
  | yes same ↦ rw (← same) (weighted-top n f xs once e (rw (← same) at pos))
  | no ne ↦
      weighted-present n f xs m once (grind (arith, weighted-le n f xs once, once n)) (omega arith)
        pos
]

-- The two ways in which a list of indices below `n` meets a sum below `n`.
module _ (n : ℕ) (f : ℕ → ℕ) (xs : List ℕ) (once : IsOnce xs) (below : IsBelow n xs) where
  pub sum_over-le : sum_over f xs ≤ sum_below n f
  sum_over-le = rw (← weighted_lem n f xs below) (weighted-le n f xs once)

  pub sum_over-missing :
      sum_over f xs < sum_below n f → (m : ℕ) × (m < n) × (count m xs ≡ 0) × (0 < f m)
  sum_over-missing h = weighted-missing n f xs once (rw (weighted_lem n f xs below) h)

  pub sum_over-present : (m : ℕ) → sum_over f xs ≡ sum_below n f → m < n → 0 < f m → 0 < count m xs
  sum_over-present m e = weighted-present n f xs m once (weighted_lem n f xs below ∙ e)

abbrev pub one : ℕ → ℕ
one _ = 1

pub sum_over-one : (xs : List ℕ) → sum_over one xs ≡ length xs
unfolding sum_over
sum_over-one [] = refl
sum_over-one (x ∷ xs) = omega (arith, sum_over-one xs)

pub sum_below-one : (n : ℕ) → sum_below n one ≡ n
unfolding sum_below
sum_below-one zero = refl
sum_below-one (suc n) = omega (arith, sum_below-one n)

-- A list without repetition of numbers below `n` has at most `n` members.
pub length-le_of_IsOnce : (n : ℕ) (xs : List ℕ) → IsOnce xs → IsBelow n xs → length xs ≤ n
length-le_of_IsOnce n xs once below =
    omega (arith, sum_over-le n one xs once below, sum_over-one xs, sum_below-one n)

-- If it has `n` members, it has them all.
pub count-pos_of_length :
    (n : ℕ) (xs : List ℕ)
    → IsOnce xs
    → IsBelow n xs
    → length xs ≡ n
    → (m : ℕ) → m < n
    → 0 < count m xs
count-pos_of_length n xs once below e m lt =
    sum_over-present n one xs once below m (omega (arith, sum_over-one xs, sum_below-one n)) lt
      (omega arith)

-- If it has them all, it has `n` members.
pub length_of_count-pos :
    (n : ℕ) (xs : List ℕ)
    → IsOnce xs
    → IsBelow n xs
    → ((m : ℕ) → m < n → 0 < count m xs)
    → length xs ≡ n
length_of_count-pos n xs once below all = omega (arith, length-le_of_IsOnce n xs once below, full)
  where
    full : ¬ (length xs < n)
    full short =
        let (m, lt, absent, pos) =
          sum_over-missing n one xs once below (omega (arith, sum_over-one xs, sum_below-one n)) in
        omega (arith, all m lt)

pub sum_below-eq :
    (n : ℕ) (f g : ℕ → ℕ) → ((j : ℕ) → j < n → g j ≡ f j) → sum_below n g ≡ sum_below n f
unfolding sum_below
sum_below-eq zero f g h = refl
sum_below-eq (suc n) f g h = ground (arith, h n, sum_below-eq n f g (λ j lt. h j (omega arith)))

pub sum_below-add_at :
    (n k c : ℕ) (f g : ℕ → ℕ)
    → ((j : ℕ) → g j ≡ f j + (if j == k then c else 0))
    → k < n
    → sum_below n g ≡ sum_below n f + c
unfolding sum_below
sum_below-add_at zero k c f g h lt = absurd (omega arith)
sum_below-add_at (suc n) k c f g h lt = elim (ℕ_discrete n k) [
  | yes e ↦ ground (arith, h n, sum_below-eq n f g (λ j below. ground (arith, h j)))
  | no ne ↦ ground (arith, h n, sum_below-add_at n k c f g h)
]

pub sum_below-nil : (n : ℕ) → sum_below n (λ _. 0) ≡ 0
unfolding sum_below
sum_below-nil zero = refl
sum_below-nil (suc n) = omega (arith, sum_below-nil n)
