-- ===== src/Prelude/Rows.antt =====
-- A table of the SQLite store as the list of its rows, and the statements that the code runs on it.
-- A table with a primary key has at most one row for each key.
use servitor.Prelude.Tests.{if◌then◌else◌}
use servitor.Prelude.Lists.{length}
use Prim.Native.Nat.{ℕ}
use mathlib.Core.Path.{◌≡◌, refl}
use mathlib.Core.Bool.{Bool, true, false}
use mathlib.Core.Option
use mathlib.Core.Option.{Option, none, some}
use mathlib.Core.List.{List, [], ◌∷◌, ◌++◌}
use native.Mathlib.Omega.{arith}

module _ {ℓ} {R : Type ℓ} (p : R → Bool) where
  -- SELECT … WHERE p
  unfoldable pub select : List R → List R
  select [] = []
  select (r ∷ rs) = let rest = select rs in if p r then r ∷ rest else rest

  -- The first row of SELECT … WHERE p, where QueryRow reports ErrNoRows as `none`.
  unfoldable pub select_row : List R → Option R
  select_row [] = none
  select_row (r ∷ rs) = if p r then some r else select_row rs

  -- DELETE … WHERE p
  unfoldable pub delete : List R → List R
  delete [] = []
  delete (r ∷ rs) = let rest = delete rs in if p r then rest else r ∷ rest

  -- SELECT COUNT(*) … WHERE p
  unfoldable pub count_rows : List R → ℕ
  unfolding select
  count_rows rs = length (select rs)

  -- UPDATE … SET f WHERE p
  unfoldable pub update_rows : (R → R) → List R → List R
  update_rows f [] = []
  update_rows f (r ∷ rs) = (if p r then f r else r) ∷ update_rows f rs

  -- INSERT OR REPLACE, where `p` holds of the rows with the key of the new one.
  unfoldable pub replace : R → List R → List R
  unfolding delete
  replace r rs = delete rs ++ r ∷ []

module _ {ℓ} {R : Type ℓ} (p : R → Bool) where
  pub select_row-append :
      (rs ts : List R)
      → select_row p (rs ++ ts)
        ≡ elim (select_row p rs) [ none ↦ select_row p ts | some r ↦ some r ]
  unfolding select_row
  select_row-append [] ts = refl
  select_row-append (r ∷ rs) ts = ground (arith, select_row-append rs ts)

  pub select_row-delete_self : (rs : List R) → select_row p (delete p rs) ≡ none
  unfolding select_row delete
  select_row-delete_self [] = refl
  select_row-delete_self (r ∷ rs) = ground (arith, select_row-delete_self rs)

  -- A row that is written is read back.
  pub select_row-replace :
      (r : R) (rs : List R) → p r ≡ true → select_row p (replace p r rs) ≡ some r
  unfolding replace
  select_row-replace r rs h = ground (
    arith,
    select_row-append (delete p rs) (r ∷ []),
    select_row-delete_self rs,
    select_row-single r h,
  )
    where
      select_row-single : (r : R) → p r ≡ true → select_row p (r ∷ []) ≡ some r
      select_row-single r h = unfold select_row in rw h

  pub select_row-update_rows :
      (q : R → Bool) (f : R → R) (rs : List R)
      → ((r : R) → p (f r) ≡ p r)
      → select_row p (update_rows q f rs)
        ≡ Option.map (λ r. if q r then f r else r) (select_row p rs)
  unfolding select_row update_rows
  select_row-update_rows q f [] keeps = refl
  select_row-update_rows q f (r ∷ rs) keeps =
      ground (arith, select_row-update_rows q f rs keeps, keeps r)

  -- Writing and deleting other rows changes nothing that is read by `p`.
  pub select_row-delete_other :
      (q : R → Bool) (rs : List R)
      → ((r : R) → p r ≡ true → q r ≡ false)
      → select_row p (delete q rs) ≡ select_row p rs
  unfolding select_row delete
  select_row-delete_other q [] apart = refl
  select_row-delete_other q (r ∷ rs) apart =
      ground (arith, select_row-delete_other q rs apart, apart r)
