-- ===== src/Prelude/Dict.antt =====
-- A Go map or a table with one key, as an association list in which the first entry counts.
use Prim.Native.String.{String}
use mathlib.Core.Path.{◌≡◌, refl}
use mathlib.Core.Bool.{Bool, ◌||◌}
use mathlib.Core.Option.{Option, none, some}
use mathlib.Core.List.{List, [], ◌∷◌, ◌++◌}
use native.Mathlib.Omega.{arith}
use text.Mathlib.Text.{◌==◌ as str_eq}
use text.Mathlib.TextEquality.{eq_iff}
use servitor.Prelude.Tests.{if◌then◌else◌}
use servitor.Prelude.Lists.{any}

-- A Go set of texts: map[string]bool, of which only membership is read.
unfoldable pub has : String → List String → Bool
has k = any (str_eq k)

pub has-snoc : (k j : String) (xs : List String) → has k (xs ++ j ∷ []) ≡ (has k xs || str_eq k j)
unfolding has
has-snoc k j [] = ground arith
has-snoc k j (x ∷ xs) = ground (arith, has-snoc k j xs)

module _ {ℓ} {V : Type ℓ} where
  unfoldable pub lookup : String → List (String × V) → Option V
  lookup wanted ((key, value) ∷ rest) = if str_eq key wanted then some value else lookup wanted rest
  lookup wanted [] = none

  -- m[k] = v
  unfoldable pub insert : String → V → List (String × V) → List (String × V)
  insert key value ((old, kept) ∷ rest) =
      if str_eq old key then (key, value) ∷ rest else (old, kept) ∷ insert key value rest
  insert key value [] = (key, value) ∷ []

  pub lookup-insert :
      (key wanted : String) (value : V) (entries : List (String × V))
      → lookup wanted (insert key value entries)
        ≡ (if str_eq key wanted then some value else lookup wanted entries)
  unfolding lookup insert
  lookup-insert key wanted value [] = refl
  lookup-insert key wanted value ((old, kept) ∷ rest) = ground (
    arith,
    lookup-insert key wanted value rest,
    eq_iff old key,
    eq_iff old wanted,
    eq_iff key wanted,
  )

  -- delete(m, key)
  unfoldable pub remove : String → List (String × V) → List (String × V)
  remove key [] = []
  remove key ((old, kept) ∷ rest) =
      let later = remove key rest in if str_eq old key then later else (old, kept) ∷ later

  pub lookup-remove :
      (key wanted : String) (entries : List (String × V))
      → lookup wanted (remove key entries)
        ≡ (if str_eq key wanted then none else lookup wanted entries)
  unfolding lookup remove
  lookup-remove key wanted [] = ground arith
  lookup-remove key wanted ((old, kept) ∷ rest) =
      ground
        (arith, lookup-remove key wanted rest, eq_iff old key, eq_iff old wanted, eq_iff key wanted)
