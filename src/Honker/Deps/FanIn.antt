-- ===== src/Honker/Deps/FanIn.antt =====
-- How `decrementDependents` of internal/honker/deps.go counts a node down over the completions of a
-- run, whatever their order.
pub mod Samples
use servitor.Prelude.{
  ℕ, ◌+◌, ◌≡◌, refl, String, Bool, true, false, Option, none, some, List, [], ◌∷◌, str_eq,
  str_eq_iff, ltb, leb, if◌then◌else◌, ◌&&◌, ◌>>=◌, >>=-eq-some, Option-cases, Bool-cases, inl, inr,
  arith, select_row, update_rows, ap, ◌∙◌, sym, has, any,
}
use servitor.Prelude.Int.{ℤ, pos, negsuc, ◌-ℤ◌, int_laws}
use servitor.Honker.{DepRow, is_dep}
use servitor.Honker.Deps.{decrement, decrement_dependents, is_zero}

-- How often a node stands in a list.
unfoldable pub occurrences : String → List String → ℕ
occurrences node [] = 0
occurrences node (x ∷ xs) = (if str_eq x node then 1 else 0) + occurrences node xs

-- The count of a node in the table.
unfoldable pub remaining_of : String → String → List DepRow → Option ℤ
remaining_of run node rows = elim (select_row (is_dep run node) rows) [
  | none ↦ none
  | some r ↦ some r.remaining
]

-- Completions one after another, each with its dependents: what each makes ready, and the rows.
unfoldable pub complete_all :
    String → List (List String) → List DepRow → Option (List (List String) × List DepRow)
unfolding decrement_dependents
complete_all run [] rows = some ([], rows)
complete_all run (deps ∷ rest) rows = do
  (ready, rows') ← decrement_dependents run deps rows
  (readies, final) ← complete_all run rest rows'
  some (ready ∷ readies, final)

unfoldable pub total : String → List (List String) → ℕ
unfolding occurrences
total node [] = 0
total node (xs ∷ rest) = occurrences node xs + total node rest

-- 1 where `k` steps down from the count pass through zero.
unfoldable pub reaches_zero : ℤ → ℕ → ℕ
reaches_zero (pos n) k = if ltb 0 n && leb n k then 1 else 0
reaches_zero (negsuc n) k = 0

lowered : Bool → Option ℤ → Option ℤ
lowered hit none = none
lowered hit (some z) = some (if hit then z -ℤ pos 1 else z)

remaining_of-update_rows :
    (run node dep : String) (rows : List DepRow)
    → remaining_of run node (update_rows (is_dep run dep) decrement rows)
      ≡ lowered (str_eq dep node) (remaining_of run node rows)
unfolding remaining_of select_row update_rows lowered
remaining_of-update_rows run node dep [] = refl
remaining_of-update_rows run node dep (r ∷ rows) = ground (
  arith,
  remaining_of-update_rows run node dep rows,
  str_eq_iff dep node,
  str_eq_iff r.node_id dep,
  str_eq_iff r.node_id node,
  str_eq_iff r.run_id run,
)

-- The run of the loop from one dependent on.
step-inv :
    (run dep : String) (rest : List String) (rows : List DepRow) {ready : List String}
    {final : List DepRow}
    → decrement_dependents run (dep ∷ rest) rows ≡ some (ready, final)
    → (r : DepRow) × (ready' : List String) × (select_row
          (is_dep run dep)
          (update_rows (is_dep run dep) decrement rows)
        ≡ some r)
      × (decrement_dependents run rest (update_rows (is_dep run dep) decrement rows)
          ≡ some (ready', final))
      × (ready ≡ (if is_zero r.remaining then dep ∷ ready' else ready'))
unfolding decrement_dependents
step-inv run dep rest rows h =
    let after = update_rows (is_dep run dep) decrement rows in
    let tail : DepRow → List String × List DepRow → Option (List String × List DepRow) =
      λ r p. some (if is_zero r.remaining then dep ∷ p.0 else p.0, p.1) in
    let (r, hr, h') =
      >>=-eq-some (select_row (is_dep run dep) after)
        (λ r. decrement_dependents run rest after >>= tail r) h in
    let ((ready', final'), hrest, h'') =
      >>=-eq-some (decrement_dependents run rest after) (tail r) h' in
    (r, ready', hr, cc, cc)

remaining_of-select_row :
    (run node dep : String) (rows : List DepRow) {r : DepRow} {z : ℤ}
    → str_eq dep node ≡ true
    → select_row (is_dep run dep) rows ≡ some r
    → remaining_of run node rows ≡ some z
    → r.remaining ≡ z
unfolding remaining_of
remaining_of-select_row run node dep rows same h at =
    let same' = (str_eq_iff dep node).0 same in ground (arith, h, at, same')

pub remaining_of-hit :
    (run node dep : String) (rows : List DepRow) {z : ℤ}
    → remaining_of run node rows ≡ some z
    → remaining_of run node (update_rows (is_dep run dep) decrement rows)
      ≡ some (if str_eq dep node then z -ℤ pos 1 else z)
unfolding lowered
remaining_of-hit run node dep rows at = rw (remaining_of-update_rows run node dep rows, at)

occurrences-ready :
    (node dep : String) (b : Bool) (xs : List String)
    → occurrences node (if b then dep ∷ xs else xs)
      ≡ (if b && str_eq dep node then 1 else 0) + occurrences node xs
unfolding occurrences
occurrences-ready node dep true xs = refl
occurrences-ready node dep false xs = omega arith

minus_minus : (z : ℤ) (k : ℕ) → z -ℤ pos 1 -ℤ pos k ≡ z -ℤ pos (1 + k)
minus_minus z k = omega int_laws

minus_zero : (z : ℤ) → z -ℤ pos 0 ≡ z
minus_zero z = omega int_laws

reaches_zero-step :
    (z : ℤ) (k : ℕ)
    → (if is_zero (z -ℤ pos 1) then 1 else 0) + reaches_zero (z -ℤ pos 1) k ≡ reaches_zero z (1 + k)
unfolding reaches_zero ◌-ℤ◌
reaches_zero-step (pos n) k = ground arith
reaches_zero-step (negsuc n) k = ground arith

reaches_zero-zero : (z : ℤ) → reaches_zero z 0 ≡ 0
unfolding reaches_zero
reaches_zero-zero (pos n) = ground arith
reaches_zero-zero (negsuc n) = refl

-- One completion.
decrement_dependents-count :
    (run node : String) (deps : List String) (rows : List DepRow) {ready : List String}
    {final : List DepRow} {z : ℤ}
    → decrement_dependents run deps rows ≡ some (ready, final)
    → remaining_of run node rows ≡ some z
    → (remaining_of run node final ≡ some (z -ℤ pos (occurrences node deps)))
      × (occurrences node ready ≡ reaches_zero z (occurrences node deps))
unfolding occurrences decrement_dependents
decrement_dependents-count run node [] rows {ready = ready} {z = z} h at =
    ground (arith, h, at, minus_zero z, reaches_zero-zero z)
decrement_dependents-count run node (dep ∷ rest) rows {ready = ready} {z = z} h at =
    let (r, ready', hr, hrest, eq) = step-inv run dep rest rows h in
    let after = update_rows (is_dep run dep) decrement rows in
    let now = remaining_of-hit run node dep rows at in
    let split = occurrences-ready node dep (is_zero r.remaining) ready' in
    let ih = decrement_dependents-count run node rest after hrest now in
    elim (Bool-cases (str_eq dep node)) [
      | inl same ↦
          let same_count = remaining_of-select_row run node dep after same hr now in
          ground (
            arith,
            eq,
            split,
            ih,
            minus_minus z (occurrences node rest),
            reaches_zero-step z (occurrences node rest),
            same,
            same_count,
          )
      | inr apart ↦ ground (arith, eq, split, ih, apart)
    ]

minus_add : (z : ℤ) (a b : ℕ) → z -ℤ pos a -ℤ pos b ≡ z -ℤ pos (a + b)
minus_add z a b = omega int_laws

reaches_zero-add :
    (z : ℤ) (a b : ℕ) → reaches_zero z a + reaches_zero (z -ℤ pos a) b ≡ reaches_zero z (a + b)
unfolding reaches_zero ◌-ℤ◌
reaches_zero-add (pos n) a b = ground arith
reaches_zero-add (negsuc n) a b = ground arith

-- Over any sequence of completions that go through, the count of a node is lowered by one for each
-- dependency on it that completes, and the node is made ready once if its count passes through zero
-- and never otherwise.
pub complete_all-count :
    (run node : String) (completions : List (List String)) (rows : List DepRow)
    {readies : List (List String)} {final : List DepRow} {z : ℤ}
    → complete_all run completions rows ≡ some (readies, final)
    → remaining_of run node rows ≡ some z
    → (remaining_of run node final ≡ some (z -ℤ pos (total node completions)))
      × (total node readies ≡ reaches_zero z (total node completions))
unfolding total complete_all
complete_all-count run node [] rows {z = z} h at =
    ground (arith, h, at, minus_zero z, reaches_zero-zero z)
complete_all-count run node (deps ∷ rest) rows {z = z} h at =
    let tail = λ (p : List String × List DepRow).
      λ (q : List (List String) × List DepRow). some (p.0 ∷ q.0, q.1) in
    let ((ready, rows'), h1, h') =
      >>=-eq-some (decrement_dependents run deps rows) (λ p. complete_all run rest p.1 >>= tail p)
        h in
    let ((readies', final'), h2, h'') =
      >>=-eq-some (complete_all run rest rows') (tail (ready, rows')) h' in
    let first = decrement_dependents-count run node deps rows h1 at in
    let others = complete_all-count run node rest rows' h2 first.0 in
    ground (
      arith,
      h'',
      first,
      others,
      minus_add z (occurrences node deps) (total node rest),
      reaches_zero-add z (occurrences node deps) (total node rest),
    )
