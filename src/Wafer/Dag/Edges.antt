-- ===== src/Wafer/Dag/Edges.antt =====
-- What the second loop of ResolveDAG (internal/wafer/dag.go) builds: `adj`, `indegree` and `deps`
-- describe one graph, the one that the `depends_on` lists give.
use servitor.Prelude.{
  ℕ, suc, ◌+◌, ◌≤◌, ◌<◌, ◌≡◌, String, true, none, some, List, [], ◌∷◌, ◌++◌, arith, ◌==◌,
  if◌then◌else◌, length, count, count-append, has, lookup, str_eq, str_eq_iff, sum_below,
  sum_below-add_at, ◌||◌, Option-cases, inl, inr, Bool-cases, has-snoc, ◌&&◌,
}
use native.Mathlib.Decide.{dec_lt}
use servitor.Wafer.{Node}
use servitor.Wafer.Dag.{Graph, unknown_reference, add_edge, add_dep, add_deps, build}

module _ (names : List (String × ℕ)) (i : ℕ) where
  pub add_dep-none :
      (dep : String) (g : Graph)
      → lookup dep names ≡ none
      → add_dep names i dep g ≡ record g { issues = g.issues ++ unknown_reference i dep ∷ [] }
  unfolding add_dep
  add_dep-none dep g missing = rw (missing, add_dep)

  pub add_dep-some :
      (k : ℕ) (dep : String) (g : Graph)
      → lookup dep names ≡ some k
      → add_dep names i dep g ≡ add_edge i k dep g
  unfolding add_dep
  add_dep-some k dep g found = rw (found, add_dep)

module _ (names : List (String × ℕ)) (n : ℕ) where
  -- The graph has the edges of `deps`, and `indegree` counts them.
  pub record IsBuilt (g : Graph) : Type 0 where
    pub inside : (k m : ℕ) → 0 < count m (g.adj k) → m < n
    pub balance : (m : ℕ) → g.indegree m ≡ sum_below n (λ k. count m (g.adj k))
    pub edges :
        (m : ℕ) (dep : String)
        → has dep (g.deps m) ≡ true
        → (k : ℕ) × (lookup dep names ≡ some k) × (0 < count m (g.adj k))
    pub back :
        (k m : ℕ)
        → 0 < count m (g.adj k)
        → (dep : String) × (has dep (g.deps m) ≡ true) × (lookup dep names ≡ some k)

  module _ (known : (dep : String) (k : ℕ) → lookup dep names ≡ some k → k < n) where
    module _ (i k : ℕ) (dep : String) (g : Graph) where
      count-add_edge :
          (m j : ℕ)
          → count m ((add_edge i k dep g).adj j)
            ≡ count m (g.adj j) + (if j == k then (if m == i then 1 else 0) else 0)
      unfolding add_edge count
      count-add_edge m j = ground (arith, count-append m (g.adj k) (i ∷ []))

      has-add_edge :
          (m : ℕ) (d : String)
          → has d ((add_edge i k dep g).deps m) ≡ (has d (g.deps m) || (m == i && str_eq d dep))
      unfolding add_edge
      has-add_edge m d = ground (arith, has-snoc d dep (g.deps i))

      add_edge-IsBuilt :
          i < n → lookup dep names ≡ some k → IsBuilt g → IsBuilt (add_edge i k dep g)
      add_edge-IsBuilt lt e b = record {
        inside = λ j m pos. ground (arith, count-add_edge m j, b.inside j m);
        balance = λ m.
            (unfold add_edge in
              ground (
                arith,
                b.balance m,
                sum_below-add_at n k (if m == i then 1 else 0) (λ j. count m (g.adj j))
                    (λ j. count m ((add_edge i k dep g).adj j)) (count-add_edge m) (known dep k e),
              ));
        edges = λ m d h. elim (Bool-cases (has d (g.deps m))) [
          | inl old ↦
              let (j, found, pos) = b.edges m d old in
              (j, found, ground (arith, count-add_edge m j))
          | inr new ↦ (
            k,
            ground (arith, has-add_edge m d, str_eq_iff d dep),
            ground (arith, has-add_edge m d, count-add_edge m k),
          )
        ];
        back = λ j m pos. elim (dec_lt 0 (count m (g.adj j))) [
          | yes old ↦
              let (d, member, found) = b.back j m old in
              (d, ground (arith, has-add_edge m d), found)
          | no new ↦ (
            dep,
            ground (arith, has-add_edge m dep, count-add_edge m j, str_eq_iff dep dep),
            ground (arith, count-add_edge m j),
          )
        ];
      }

    add_dep-IsBuilt :
        (i : ℕ) (dep : String) (g : Graph) → i < n → IsBuilt g → IsBuilt (add_dep names i dep g)
    add_dep-IsBuilt i dep g lt b = elim (Option-cases (lookup dep names)) [
      | inl missing ↦
          rw (add_dep-none names i dep g missing)
            (record { inside = b.inside; balance = b.balance; edges = b.edges; back = b.back })
      | inr (k, found) ↦
          rw (add_dep-some names i k dep g found) (add_edge-IsBuilt i k dep g lt found b)
    ]

    add_deps-IsBuilt :
        (i : ℕ) (deps seen : List String) (g : Graph)
        → i < n
        → IsBuilt g
        → IsBuilt (add_deps names i deps seen g)
    unfolding add_deps
    add_deps-IsBuilt i [] seen g lt b = b
    add_deps-IsBuilt i (dep ∷ rest) seen g lt b = elim (Bool-cases (has dep seen)) [
      | inl old ↦ rw old (add_deps-IsBuilt i rest seen g lt b)
      | inr new ↦ rw new (
          add_deps-IsBuilt i rest (dep ∷ seen) (add_dep names i dep g) lt
            (add_dep-IsBuilt i dep g lt b))
    ]

    pub build-IsBuilt :
        (i : ℕ) (nodes : List Node) (g : Graph)
        → i + length nodes ≤ n
        → IsBuilt g
        → IsBuilt (build names i nodes g)
    unfolding build
    build-IsBuilt i [] g fits b = b
    build-IsBuilt i (node ∷ rest) g fits b =
        build-IsBuilt (suc i) rest (add_deps names i node.depends_on [] g) (omega arith)
          (add_deps-IsBuilt i node.depends_on [] g (omega arith) b)
