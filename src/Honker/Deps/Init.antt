-- ===== src/Honker/Deps/Init.antt =====
-- The rows that InitRunDeps of internal/honker/deps.go writes.
use servitor.Prelude.{
  String, true, false, Option, none, some, List, [], ◌∷◌, ◌≡◌, refl, ◌∙◌, ap, sym, arith, str_eq,
  str_eq_iff, has, lookup, select_row, replace, delete, select_row-append, select_row-delete_other,
  select_row-replace, Bool-cases, inl, inr,
}
use servitor.Prelude.Int.{ℤ, pos}
use servitor.Honker.{DepRow, Store, is_dep}
use servitor.Honker.Deps.{
  RunDeps, count_of, new_counts, new_run_deps, init_rows, init_run_deps, run_deps_remaining,
}

lookup-new_counts :
    (counts : List (String × ℤ)) (order : List String) (node : String)
    → has node order ≡ true
    → lookup node (new_counts counts order) ≡ some (count_of node counts)
unfolding new_counts lookup has
lookup-new_counts counts [] node h = absurd cc
lookup-new_counts counts (s ∷ order) node h = elim (Bool-cases (str_eq node s)) [
  | inl e ↦
      let same = (str_eq_iff node s).0 e in
      let back = (str_eq_iff s node).1 (sym same) in
      rw (lookup, back) (ap (λ k. some (count_of k counts)) (sym same))
  | inr e ↦
      let later : has node order ≡ true = rw (has, e) at h in
      let back : str_eq s node ≡ false = ground (arith, e, str_eq_iff node s, str_eq_iff s node) in
      rw (lookup, back) (lookup-new_counts counts order node later)
]

-- Writing the row of another node changes nothing for `node`.
select_row-replace_other :
    (run node other : String) (r : DepRow) (rows : List DepRow)
    → is_dep run node r ≡ false
    → str_eq other node ≡ false
    → select_row (is_dep run node) (replace (is_dep run other) r rows)
      ≡ select_row (is_dep run node) rows
unfolding replace select_row
select_row-replace_other run node other r rows new apart =
    select_row-append (is_dep run node) (delete (is_dep run other) rows) (r ∷ [])
    ∙ ground (
      arith,
      new,
      select_row-delete_other (is_dep run node) (is_dep run other) rows (λ row hit. ground (
        arith,
        hit,
        apart,
        str_eq_iff row.node_id node,
        str_eq_iff row.node_id other,
        str_eq_iff other node,
      )),
    )

init_rows-other :
    (rd : RunDeps) (nodes : List String) (rows : List DepRow) (node : String)
    → has node nodes ≡ false
    → select_row (is_dep rd.run_id node) (init_rows rd nodes rows)
      ≡ select_row (is_dep rd.run_id node) rows
unfolding init_rows has
init_rows-other rd [] rows node h = refl
init_rows-other rd (n ∷ nodes) rows node h =
    let apart : str_eq node n ≡ false = ground (arith, h) in
    let later : has node nodes ≡ false = ground (arith, h) in
    let back : str_eq n node ≡ false =
      ground (arith, apart, str_eq_iff node n, str_eq_iff n node) in
    init_rows-other rd nodes _ node later
    ∙ select_row-replace_other rd.run_id node n _ rows (ground (arith, back)) back

init_rows-has :
    (rd : RunDeps) (nodes : List String) (rows : List DepRow) (node : String)
    → has node nodes ≡ true
    → select_row (is_dep rd.run_id node) (init_rows rd nodes rows)
      ≡ some (record { run_id = rd.run_id; node_id = node; remaining = count_of node rd.remaining })
unfolding init_rows has
init_rows-has rd [] rows node h = absurd cc
init_rows-has rd (n ∷ nodes) rows node h = elim (Bool-cases (has node nodes)) [
  | inl e ↦ init_rows-has rd nodes _ node e
  | inr e ↦
      let at_n : str_eq node n ≡ true = ground (arith, h, e) in
      let same = (str_eq_iff node n).0 at_n in
      init_rows-other rd nodes _ node e
      ∙ rw (← same) (
          select_row-replace (is_dep rd.run_id node)
            (record { run_id = rd.run_id; node_id = node; remaining = count_of node rd.remaining })
            rows
            (ground
              (arith, (str_eq_iff rd.run_id rd.run_id).1 refl, (str_eq_iff node node).1 refl)))
]

-- Every node of the order gets its count.
pub run_deps_remaining-init_run_deps :
    {L : Type 0} (run : String) (counts : List (String × ℤ)) (order : List String) (s : Store L)
    (node : String)
    → has node order ≡ true
    → run_deps_remaining run node (init_run_deps (new_run_deps run counts order) s)
      ≡ count_of node counts
unfolding run_deps_remaining init_run_deps new_run_deps count_of
run_deps_remaining-init_run_deps run counts order s node h =
    ap remaining_or_zero (init_rows-has (new_run_deps run counts order) order s.run_deps node h)
    ∙ ap number_or_zero (lookup-new_counts counts order node h)
  where
    remaining_or_zero : Option DepRow → ℤ
    remaining_or_zero o = elim o [ none ↦ pos 0 | some r ↦ r.remaining ]

    number_or_zero : Option ℤ → ℤ
    number_or_zero o = elim o [ none ↦ pos 0 | some n ↦ n ]
