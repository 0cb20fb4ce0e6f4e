-- ===== src/Honker/Deps/Total.antt =====
-- Completions go through where the rows of the dependents are there (internal/honker/deps.go).
use servitor.Prelude.{
  ◌≡◌, refl, String, true, some, List, [], ◌∷◌, str_eq_iff, if◌then◌else◌, Option-cases, inl, inr,
  arith, select_row, update_rows, has, any,
}
use servitor.Prelude.Int.{ℤ}
use servitor.Honker.{DepRow, is_dep}
use servitor.Honker.Deps.{decrement, decrement_dependents, is_zero}
use servitor.Honker.Deps.FanIn.{remaining_of, complete_all, remaining_of-hit}

-- Every node of the list has a row.
abbrev pub HasRows : String → List String → List DepRow → Type 0
HasRows run nodes rows =
    (node : String) → has node nodes ≡ true → (z : ℤ) × (remaining_of run node rows ≡ some z)

HasRows-after :
    (run dep : String) (nodes : List String) (rows : List DepRow)
    → HasRows run nodes rows
    → HasRows run nodes (update_rows (is_dep run dep) decrement rows)
HasRows-after run dep nodes rows have node listed =
    let (z, at) = have node listed in (_, remaining_of-hit run node dep rows at)

select_row-some :
    (run node : String) (rows : List DepRow) {z : ℤ}
    → remaining_of run node rows ≡ some z
    → (r : DepRow) × (select_row (is_dep run node) rows ≡ some r)
unfolding remaining_of
select_row-some run node rows at = elim (Option-cases (select_row (is_dep run node) rows)) [
  | inl missing ↦ ground (arith, at, missing)
  | inr found ↦ found
]

has-head : (k : String) (xs : List String) → has k (k ∷ xs) ≡ true
unfolding has
has-head k xs = let same = (str_eq_iff k k).1 refl in ground (arith, same)

has-tail : (k x : String) (xs : List String) → has k xs ≡ true → has k (x ∷ xs) ≡ true
unfolding has
has-tail k x xs h = ground (arith, h)

-- A completion whose dependents all have rows goes through.
decrement_dependents-some :
    (run : String) (nodes deps : List String) (rows : List DepRow)
    → HasRows run nodes rows
    → ((node : String) → has node deps ≡ true → has node nodes ≡ true)
    → (ready : List String) × (final : List DepRow) × (decrement_dependents run deps rows
        ≡ some (ready, final))
      × HasRows run nodes final
unfolding decrement_dependents has
decrement_dependents-some run nodes [] rows have within = ([], rows, refl, have)
decrement_dependents-some run nodes (dep ∷ rest) rows have within =
    let after = update_rows (is_dep run dep) decrement rows in
    let have' = HasRows-after run dep nodes rows have in
    let (r, found) = select_row-some run dep after (have' dep (within dep (has-head dep rest))).1 in
    let (ready, final, eq, kept) =
      decrement_dependents-some run nodes rest after have'
        (λ node listed. within node (has-tail node dep rest listed)) in
    (if is_zero r.remaining then dep ∷ ready else ready, final, rw (found, eq), kept)

-- Completions of nodes whose dependents all have rows in the table go through, one after another.
complete_all-some :
    (run : String) (nodes : List String) (completions : List (List String)) (rows : List DepRow)
    → HasRows run nodes rows
    → ((node : String) → any (has node) completions ≡ true → has node nodes ≡ true)
    → (readies : List (List String)) × (final : List DepRow) × (complete_all run completions rows
        ≡ some (readies, final))
unfolding complete_all
complete_all-some run nodes [] rows have within = ([], rows, refl)
complete_all-some run nodes (deps ∷ rest) rows have within =
    let (ready, rows', eq, have') =
      decrement_dependents-some run nodes deps rows have
        (λ node h. within node (ground (arith, h))) in
    let (readies, final, eq') =
      complete_all-some run nodes rest rows' have' (λ node h. within node (ground (arith, h))) in
    (ready ∷ readies, final, rw (eq, eq'))
