-- ===== src/Wafer/Dag/Run.antt =====
-- The run of ResolveDAG (internal/wafer/dag.go): its loops put together.
use servitor.Prelude.{
  ℕ, zero, suc, ◌+◌, ◌<◌, ◌≡◌, Bool, List, [], ◌++◌, arith, ◌==◌, leb, ltb, ◌&&◌, if◌then◌else◌,
  length, count, count-nil, count-append, append-nil, IsBelow, sum_over-missing,
  length_of_count-pos, sum_over, sum_below-nil, sum_below-eq, IsOnce, has, sym, ◌∙◌,
}
use native.Mathlib.Decide.{dec_lt}
use servitor.Wafer.{Node}
use servitor.Wafer.Dag.{Graph, indices, start, graph_of, run_order, names_of}
use servitor.Wafer.Dag.Edges.{IsBuilt, build-IsBuilt}
use servitor.Wafer.Dag.Kahn.{Inv, kahn-Inv}
use servitor.Wafer.Dag.Resolve.{names_of-IsNamed, get_elem?-lt}

pub count-indices :
    (p : ℕ → Bool) (i k m : ℕ)
    → count m (indices p i k) ≡ (if p m && leb i m && ltb m (i + k) then 1 else 0)
unfolding indices count
count-indices p i zero m = ground arith
count-indices p i (suc k) m = ground (arith, count-indices p (suc i) k m)

module _ (nodes : List Node) where
  pub graph_of-IsBuilt : IsBuilt (names_of nodes).index (length nodes) (graph_of nodes)
  unfolding graph_of
  graph_of-IsBuilt =
      build-IsBuilt (names_of nodes).index (length nodes)
        (λ dep k found. get_elem?-lt nodes k (names_of-IsNamed nodes dep k found).at) 0 nodes
        (record {
          deps = λ _. [];
          adj = λ _. [];
          indegree = λ _. 0;
          issues = (names_of nodes).issues;
        })
        (omega arith)
        (record {
          inside = λ k m pos. absurd (omega (arith, count-nil m));
          balance = λ m. sym (
              sum_below-eq (length nodes) (λ _. 0) (λ k. count m []) (λ j _. count-nil m)
              ∙ sum_below-nil (length nodes));
          edges = λ m dep h. unfold has in cc;
          back = λ k m pos. absurd (omega (arith, count-nil m));
        })

  abbrev n : ℕ
  n = length nodes

  abbrev g : Graph
  g = graph_of nodes

  start-Inv : Inv n g.adj (start n g)
  unfolding start
  start-Inv = record {
    once = λ m. ground (arith, count-indices (λ i. g.indegree i == 0) 0 n m);
    below = λ m pos. ground (arith, count-indices (λ i. g.indegree i == 0) 0 n m);
    listed = λ m lt z. ground (arith, count-indices (λ i. g.indegree i == 0) 0 n m);
    free = λ m pos. ground (arith, count-indices (λ i. g.indegree i == 0) 0 n m);
    ledger = λ m. unfold sum_over in omega (arith, graph_of-IsBuilt.balance m);
    sorted = tt;
  }

  -- The loop of Kahn's algorithm ends by its own test, with its invariant.
  pub run_order-Inv : Inv n g.adj (run_order nodes) × ((run_order nodes).queue ≡ [])
  unfolding run_order
  run_order-Inv =
      kahn-Inv n g.adj graph_of-IsBuilt.inside (suc n) (start n g) (unfold start in omega arith)
        start-Inv

  pub order-IsOnce : IsOnce (run_order nodes).order
  order-IsOnce m = omega (
    arith,
    run_order-Inv.0.once m,
    count-append m (run_order nodes).order (run_order nodes).queue,
  )

  pub order-IsBelow : IsBelow n (run_order nodes).order
  order-IsBelow m pos =
      run_order-Inv.0.below m
        (omega (arith, count-append m (run_order nodes).order (run_order nodes).queue))

  queue-empty :
      (m : ℕ)
      → count m ((run_order nodes).order ++ (run_order nodes).queue)
        ≡ count m (run_order nodes).order
  queue-empty m = rw (run_order-Inv.1, append-nil)

  -- A node that is left has an edge from a node that is left.
  left_edge :
      (m : ℕ)
      → m < n
      → count m (run_order nodes).order ≡ 0
      → (k : ℕ) × (k < n) × (count k (run_order nodes).order ≡ 0) × (0 < count m (g.adj k))
  left_edge m lt left =
      sum_over-missing n (λ k. count m (g.adj k)) (run_order nodes).order order-IsOnce order-IsBelow
        (elim (dec_lt 0 ((run_order nodes).indegree m)) [
          | yes pos ↦ omega (arith, run_order-Inv.0.ledger m)
          | no z ↦ absurd (omega (arith, run_order-Inv.0.listed m lt (omega arith), queue-empty m))
        ])

  -- A graph whose edges go up along some rank is taken whole.
  pub ranked-full :
      (rank : ℕ → ℕ)
      → ((k m : ℕ) → 0 < count m (g.adj k) → rank k < rank m)
      → length (run_order nodes).order ≡ n
  ranked-full rank up =
      length_of_count-pos n (run_order nodes).order order-IsOnce order-IsBelow
        (λ m lt. descend (suc (rank m)) m lt (omega arith))
    where
      descend : (bound m : ℕ) → m < n → rank m < bound → 0 < count m (run_order nodes).order
      descend zero m lt h = absurd (omega arith)
      descend (suc bound) m lt h = elim (dec_lt 0 (count m (run_order nodes).order)) [
        | yes done ↦ done
        | no left ↦
            let (k, below, waits, edge) = left_edge m lt (omega arith) in
            absurd (omega (arith, descend bound k below (omega (arith, up k m edge))))
      ]
