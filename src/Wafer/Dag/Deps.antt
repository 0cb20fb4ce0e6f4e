-- ===== src/Wafer/Dag/Deps.antt =====
-- Which dependencies of a node are in `deps` (internal/wafer/dag.go): all, if there is no issue.
use mathlib.Core.List.{append-eq-nil_iff, cons≢nil}
use servitor.Prelude.{
  ℕ, zero, suc, ◌+◌, ◌≤◌, ◌<◌, ◌≡◌, ◌≢◌, ◌∙◌, refl, String, true, false, some, List, [], ◌∷◌, ◌++◌,
  arith, has, str_eq, str_eq_iff, ◌||◌, inl, inr, get_elem?, Bool-cases, has-snoc, subst,
}
use native.Mathlib.Nat.{add-zero}
use servitor.Wafer.{Node}
use servitor.Wafer.Dag.{Graph, unknown_reference, add_edge, add_dep, add_deps, build}

snoc-ne-nil {ℓ} : {A : Type ℓ} (xs : List A) (x : A) → xs ++ x ∷ [] ≢ []
snoc-ne-nil xs x e = cons≢nil (append-eq-nil_iff.0 e).1

module _ (names : List (String × ℕ)) (i : ℕ) where
  -- Without an issue every dependency of the node has its edge.
  add_dep-has :
      (dep : String) (g : Graph)
      → (add_dep names i dep g).issues ≡ []
      → (g.issues ≡ [])
        × ((d : String)
            → has d ((add_dep names i dep g).deps i) ≡ (has d (g.deps i) || str_eq d dep))
  unfolding add_dep add_edge
  add_dep-has dep g clean = (
    ground (arith, snoc-ne-nil g.issues (unknown_reference i dep)),
    λ d. ground (arith, snoc-ne-nil g.issues (unknown_reference i dep), has-snoc d dep (g.deps i)),
  )

  add_dep-other :
      (dep : String) (g : Graph) (j : ℕ) → j ≢ i → (add_dep names i dep g).deps j ≡ g.deps j
  unfolding add_dep add_edge
  add_dep-other dep g j ne = ground arith

  add_deps-old :
      (dep : String) (rest seen : List String) (g : Graph)
      → has dep seen ≡ true
      → add_deps names i (dep ∷ rest) seen g ≡ add_deps names i rest seen g
  unfolding add_deps
  add_deps-old dep rest seen g old = rw (old, add_deps)

  add_deps-new :
      (dep : String) (rest seen : List String) (g : Graph)
      → has dep seen ≡ false
      → add_deps names i (dep ∷ rest) seen g
        ≡ add_deps names i rest (dep ∷ seen) (add_dep names i dep g)
  unfolding add_deps
  add_deps-new dep rest seen g new = rw (new, add_deps)

  add_deps-other :
      (deps seen : List String) (g : Graph) (j : ℕ)
      → j ≢ i
      → (add_deps names i deps seen g).deps j ≡ g.deps j
  add_deps-other [] seen g j ne = unfold add_deps in refl
  add_deps-other (dep ∷ rest) seen g j ne = elim (Bool-cases (has dep seen)) [
    | inl old ↦ rw (add_deps-old dep rest seen g old) (add_deps-other rest seen g j ne)
    | inr new ↦
        rw (add_deps-new dep rest seen g new)
          (add_deps-other rest (dep ∷ seen) (add_dep names i dep g) j ne ∙ add_dep-other dep g j ne)
  ]

  add_dep-clean : (dep : String) (g : Graph) → (add_dep names i dep g).issues ≡ [] → g.issues ≡ []
  add_dep-clean dep g clean = (add_dep-has dep g clean).0

  add_deps-clean :
      (deps seen : List String) (g : Graph)
      → (add_deps names i deps seen g).issues ≡ []
      → g.issues ≡ []
  add_deps-clean [] seen g clean = unfold add_deps in clean
  add_deps-clean (dep ∷ rest) seen g clean = elim (Bool-cases (has dep seen)) [
    | inl old ↦ add_deps-clean rest seen g (rw (add_deps-old dep rest seen g old) at clean)
    | inr new ↦ add_dep-clean dep g (
        add_deps-clean rest (dep ∷ seen) (add_dep names i dep g)
          (rw (add_deps-new dep rest seen g new) at clean))
  ]

  add_deps-has :
      (deps seen : List String) (g : Graph)
      → ((d : String) → has d seen ≡ has d (g.deps i))
      → (add_deps names i deps seen g).issues ≡ []
      → (d : String)
      → has d ((add_deps names i deps seen g).deps i) ≡ (has d (g.deps i) || has d deps)
  unfolding has
  add_deps-has [] seen g same clean d = unfold add_deps in ground arith
  add_deps-has (dep ∷ rest) seen g same clean d = elim (Bool-cases (has dep seen)) [
    | inl old ↦ rw (add_deps-old dep rest seen g old) (
        ground (
          arith,
          add_deps-has rest seen g same (rw (add_deps-old dep rest seen g old) at clean) d,
          same d,
          str_eq_iff d dep,
        ))
    | inr new ↦
        let g' = add_dep names i dep g in
        let still = rw (add_deps-new dep rest seen g new) at clean in
        let one = (add_dep-has dep g (add_deps-clean rest (dep ∷ seen) g' still)).1 in
        rw (add_deps-new dep rest seen g new) (
          ground (
            arith,
            add_deps-has rest (dep ∷ seen) g' (λ d'. ground (arith, one d', same d')) still d,
            one d,
          ))
  ]

build-clean :
    (names : List (String × ℕ)) (i : ℕ) (nodes : List Node) (g : Graph)
    → (build names i nodes g).issues ≡ []
    → g.issues ≡ []
unfolding build
build-clean names i [] g clean = clean
build-clean names i (node ∷ rest) g clean =
    add_deps-clean names i node.depends_on [] g
      (build-clean names (suc i) rest (add_deps names i node.depends_on [] g) clean)

build-other :
    (names : List (String × ℕ)) (i : ℕ) (nodes : List Node) (g : Graph) (j : ℕ)
    → j < i
    → (build names i nodes g).deps j ≡ g.deps j
unfolding build
build-other names i [] g j lt = refl
build-other names i (node ∷ rest) g j lt =
    build-other names (suc i) rest (add_deps names i node.depends_on [] g) j (omega arith)
    ∙ add_deps-other names i node.depends_on [] g j (omega arith)

-- Without an issue `deps` holds the names of each node's `depends_on`.
pub build-has :
    (names : List (String × ℕ)) (i : ℕ) (nodes : List Node) (g : Graph) (j : ℕ) (node : Node)
    → (build names i nodes g).issues ≡ []
    → ((k : ℕ) → i ≤ k → g.deps k ≡ [])
    → get_elem? nodes j ≡ some node
    → (d : String) → has d ((build names i nodes g).deps (i + j)) ≡ has d node.depends_on
unfolding build has
build-has names i [] g j node clean fresh at d = cc
build-has names i (n ∷ rest) g zero node clean fresh at d =
    let g' = add_deps names i n.depends_on [] g in
    let clean' = build-clean names (suc i) rest g' clean in
    rw add-zero (
      rw (build-other names (suc i) rest g' i (omega arith)) (
        ground (
          arith,
          add_deps-has names i n.depends_on [] g (λ d'. rw (fresh i (omega arith))) clean' d,
          fresh i,
        )))
build-has names i (n ∷ rest) g (suc j) node clean fresh at d =
    let g' = add_deps names i n.depends_on [] g in
    subst (λ (k : ℕ). has d ((build names (suc i) rest g').deps k) ≡ has d node.depends_on)
      (omega arith)
      (build-has names (suc i) rest g' j node clean
        (λ k lt. add_deps-other names i n.depends_on [] g k (omega arith) ∙ fresh k (omega arith))
        at d)
