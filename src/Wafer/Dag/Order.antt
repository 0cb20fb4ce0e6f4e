-- ===== src/Wafer/Dag/Order.antt =====
-- What ResolveDAG (internal/wafer/dag.go) returns.
use servitor.Prelude.{
  ℕ, ◌<◌, ◌≡◌, refl, String, true, List, [], ◌∷◌, ◌++◌, map, arith, if◌then◌else◌, length,
  length-map, count, ==_iff, ◌≢◌, has, lookup, get_elem?, some, ap, ltb, str_eq_iff, ◌∙◌,
  count-pos_of_length, subst, sym,
}
use mathlib.Core.List.{map-append, append-eq-nil_iff, cons≢nil}
use native.Mathlib.Nat.{zero-add}
use native.Mathlib.Decide.{ℕ_discrete}
use servitor.Wafer.{Wafer, Node, node_id}
use servitor.Wafer.Dag.{
  DagNode, Graph, Progress, names_of, graph_of, run_order, resolve_dag, id_by_index, dag_node,
  circular, cycle_names,
}
use servitor.Wafer.Dag.Kahn.{IsSorted}
use servitor.Wafer.Dag.Deps.{build-has}
use servitor.Wafer.Dag.Resolve.{names_of-IsNamed, IsNamed-id, lt-get_elem?, get_elem?-lt}
use servitor.Wafer.Dag.Run.{
  graph_of-IsBuilt, run_order-Inv, order-IsOnce, order-IsBelow, ranked-full,
}

-- The entry stands for the workflow's node at its index: it has that node's identifier and type,
-- and depends on the names that the node lists.
pub record IsEntry (nodes : List Node) (d : DagNode) : Type 0 where
  pub node : Node
  pub at : get_elem? nodes d.index ≡ some node
  pub name : d.name ≡ node_id node d.index
  pub type : d.type ≡ node.type
  pub deps : (dep : String) → has dep d.depends_on ≡ has dep node.depends_on

-- Every dependency of an entry is the name of an entry before it.
abbrev pub IsOrdered : List Node → List String → List DagNode → Type 0
IsOrdered nodes seen [] = Unit {0}
IsOrdered nodes seen (d ∷ ds) =
    IsEntry nodes d
    × ((dep : String) → has dep d.depends_on ≡ true → has dep seen ≡ true)
    × IsOrdered nodes (seen ++ d.name ∷ []) ds

abbrev pub index_of : DagNode → ℕ
index_of d = d.index

pub record IsRunOrder (nodes : List Node) (dag : List DagNode) : Type 0 where
  pub each_once : (i : ℕ) → count i (map index_of dag) ≡ (if ltb i (length nodes) then 1 else 0)
  pub ordered : IsOrdered nodes [] dag

module _ (nodes : List Node) where
  abbrev g : Graph
  g = graph_of nodes

  abbrev done : Progress
  done = run_order nodes

  has-map :
      (k : ℕ) (seen : List ℕ)
      → 0 < count k seen
      → has (id_by_index nodes k) (map (id_by_index nodes) seen) ≡ true
  unfolding count has
  has-map k [] pos = absurd (omega arith)
  has-map k (x ∷ seen) pos = elim (ℕ_discrete k x) [
    | yes e ↦
        ground
          (arith, str_eq_iff (id_by_index nodes k) (id_by_index nodes x), ap (id_by_index nodes) e)
    | no ne ↦ ground (arith, has-map k seen)
  ]

  module _ (clean : g.issues ≡ []) where
    deps-has :
        (m : ℕ) (node : Node)
        → get_elem? nodes m ≡ some node
        → (dep : String) → has dep (g.deps m) ≡ has dep node.depends_on
    unfolding graph_of
    deps-has m node at dep =
        let fresh : Graph = record {
          deps = λ _. [];
          adj = λ _. [];
          indegree = λ _. 0;
          issues = (names_of nodes).issues;
        } in
        rw zero-add at
          (build-has (names_of nodes).index 0 nodes fresh m node clean (λ _ _. refl) at dep)

    dag_node-IsEntry :
        (m : ℕ) (node : Node) → get_elem? nodes m ≡ some node → IsEntry nodes (dag_node nodes g m)
    unfolding dag_node id_by_index
    dag_node-IsEntry m node at = record {
      node = node;
      at = at;
      name = ground arith;
      type = ground arith;
      deps = deps-has m node at;
    }

    dep_before :
        (seen : List ℕ) (m : ℕ)
        → ((k : ℕ) → k < length nodes → 0 < count m (g.adj k) → 0 < count k seen)
        → (dep : String) → has dep (g.deps m) ≡ true
        → has dep (map (id_by_index nodes) seen) ≡ true
    dep_before seen m before dep member =
        let (k, found, edge) = (graph_of-IsBuilt nodes).edges m dep member in
        let named = names_of-IsNamed nodes dep k found in
        subst (λ (id : String). has id (map (id_by_index nodes) seen) ≡ true)
          (IsNamed-id nodes dep k named)
          (has-map k seen (before k (get_elem?-lt nodes k named.at) edge))

    map-IsOrdered :
        (seen order : List ℕ)
        → IsSorted (length nodes) g.adj seen order
        → ((m : ℕ) → 0 < count m order → m < length nodes)
        → IsOrdered nodes (map (id_by_index nodes) seen) (map (dag_node nodes g) order)
    unfolding dag_node count
    map-IsOrdered seen [] sorted below = tt
    map-IsOrdered seen (m ∷ order) sorted below =
        let (node, at) = lt-get_elem? nodes m (below m (ground arith)) in
        (
          dag_node-IsEntry m node at,
          dep_before seen m sorted.0,
          rw map-append at
              (map-IsOrdered (seen ++ m ∷ []) order sorted.1 (λ k pos. below k (omega arith))),
        )

  map-index_of : (order : List ℕ) → map index_of (map (dag_node nodes g) order) ≡ order
  unfolding dag_node
  map-index_of [] = refl
  map-index_of (m ∷ order) = ap (λ ms. m ∷ ms) (map-index_of order)

  order-IsRunOrder :
      g.issues ≡ []
      → length done.order ≡ length nodes
      → IsRunOrder nodes (map (dag_node nodes g) done.order)
  order-IsRunOrder clean full = record {
    each_once = λ i. rw (map-index_of done.order) (
        ground (
          arith,
          order-IsOnce nodes i,
          order-IsBelow nodes i,
          count-pos_of_length (length nodes) done.order (order-IsOnce nodes) (order-IsBelow nodes)
              full i,
        ));
    ordered =
        map-IsOrdered clean [] done.order (run_order-Inv nodes).0.sorted (order-IsBelow nodes);
  }

-- The two ways in which ResolveDAG ends.
module _ (w : Wafer) where
  resolve_dag-full :
      length (done w.nodes).order ≡ length w.nodes
      → resolve_dag w
        ≡ (map (dag_node w.nodes (g w.nodes)) (done w.nodes).order, (g w.nodes).issues)
  unfolding resolve_dag
  resolve_dag-full full =
      rw (((==_iff (length (done w.nodes).order) (length w.nodes)).1 full), resolve_dag)

  resolve_dag-short :
      length (done w.nodes).order ≢ length w.nodes
      → resolve_dag w ≡ ([], (g w.nodes).issues ++ circular (cycle_names w.nodes) ∷ [])
  unfolding resolve_dag
  resolve_dag-short short = ground arith

-- If ResolveDAG reports no issue, its nodes stand for the workflow's nodes, each once, and every
-- node comes after all nodes that it depends on.
pub resolve_dag-IsRunOrder :
    (w : Wafer) (dag : List DagNode) → resolve_dag w ≡ (dag, []) → IsRunOrder w.nodes dag
resolve_dag-IsRunOrder w dag e = elim (ℕ_discrete (length (done w.nodes).order) (length w.nodes)) [
  | yes full ↦
      let same = sym (resolve_dag-full w full) ∙ e in
      subst (IsRunOrder w.nodes) (ap (λ r. r.0) same)
        (order-IsRunOrder w.nodes (ap (λ r. r.1) same) full)
  | no short ↦
      let ends = resolve_dag-short w short in
      absurd (cons≢nil (append-eq-nil_iff.0 (ap (λ r. r.1) (sym ends ∙ e))).1)
]

-- In a workflow with no duplicate name and no unknown reference, whose dependencies go up along
-- some rank of the nodes, ResolveDAG reports no issue and returns as many nodes as there are.
pub resolve_dag-acyclic :
    (w : Wafer) (rank : ℕ → ℕ)
    → (graph_of w.nodes).issues ≡ []
    → ((m k : ℕ) (node : Node) (dep : String)
        → get_elem? w.nodes m ≡ some node
        → has dep node.depends_on ≡ true
        → lookup dep (names_of w.nodes).index ≡ some k
        → rank k < rank m)
    → ((resolve_dag w).1 ≡ []) × (length (resolve_dag w).0 ≡ length w.nodes)
resolve_dag-acyclic w rank clean up = (
  rw (resolve_dag-full w full) clean,
  rw (resolve_dag-full w full)
      (length-map (dag_node w.nodes (g w.nodes)) (done w.nodes).order ∙ full),
)
  where
    climbs : (k m : ℕ) → 0 < count m ((g w.nodes).adj k) → rank k < rank m
    climbs k m edge =
        let built = graph_of-IsBuilt w.nodes in
        let (dep, member, found) = built.back k m edge in
        let (node, at) = lt-get_elem? w.nodes m (built.inside k m edge) in
        up m k node dep at (rw (deps-has w.nodes clean m node at dep) at member) found

    full : length (done w.nodes).order ≡ length w.nodes
    full = ranked-full w.nodes rank climbs
