-- ===== src/Wafer/Dag.antt =====
-- internal/wafer/dag.go: the dependency graph of a workflow and its run order.
-- A slice made with `make([]T, len(w.Nodes))` is a function of the index; the indices that the code
-- uses are below the number of nodes.
mod Kahn
mod Edges
mod Deps
mod Resolve
mod Run
pub mod Order
mod Samples
use servitor.Prelude.{
  ℕ, zero, suc, ◌+◌, ◌-◌, String, Bool, Option, none, some, List, [], ◌∷◌, ◌++◌, map, ltb, ◌==◌,
  str_eq, if◌then◌else◌, length, get_elem?, update, has, lookup, itoa, join, ◌<>◌,
}
use servitor.Wafer.{Node, Wafer, Issue, node_id}

pub record DagNode : Type 0 where
  pub name : String
  pub type : String
  pub depends_on : List String
  pub index : ℕ

-- `indexByName` and the issues of the first loop of ResolveDAG.
pub record Names : Type 0 where
  pub index : List (String × ℕ)
  pub issues : List Issue

pub duplicate_name : ℕ → Issue
duplicate_name i = record {
  path = "/nodes/" <> itoa i <> "/name";
  code = "duplicate_node_name";
  message = "node name is used by more than one node";
  expected = "";
  suggestion = "";
}

-- A duplicate name is reported and skipped; an unnamed node is not entered in the map.
pub index_node : ℕ → Node → Names → Names
index_node i n s = elim (lookup (node_id n i) s.index) [
  | some _ ↦ record s { issues = s.issues ++ duplicate_name i ∷ [] }
  | none ↦ if str_eq n.name "" then s else record s { index = (node_id n i, i) ∷ s.index }
]

pub index_nodes : ℕ → List Node → Names → Names
unfolding index_node
index_nodes i [] s = s
index_nodes i (n ∷ ns) s = index_nodes (suc i) ns (index_node i n s)

-- The slices `deps`, `adj` and `indegree`, and the issues of the second loop.
pub record Graph : Type 0 where
  pub deps : ℕ → List String
  pub adj : ℕ → List ℕ
  pub indegree : ℕ → ℕ
  pub issues : List Issue

pub unknown_reference : ℕ → String → Issue
unknown_reference i dep = record {
  path = "/nodes/" <> itoa i <> "/depends_on";
  code = "unknown_node_reference";
  message = "node depends on unknown node " <> dep;
  expected = "";
  suggestion = dep;
}

-- The node `i` depends on the node `k`, by the name `dep`.
pub add_edge : ℕ → ℕ → String → Graph → Graph
add_edge i k dep g = record g {
  deps = update g.deps i (g.deps i ++ dep ∷ []);
  adj = update g.adj k (g.adj k ++ i ∷ []);
  indegree = update g.indegree i (g.indegree i + 1);
}

module _ (names : List (String × ℕ)) where
  pub add_dep : ℕ → String → Graph → Graph
  unfolding add_edge
  add_dep i dep g = elim (lookup dep names) [
    | none ↦ record g { issues = g.issues ++ unknown_reference i dep ∷ [] }
    | some k ↦ add_edge i k dep g
  ]

  -- A dependency that is listed twice counts once.
  pub add_deps : ℕ → List String → List String → Graph → Graph
  add_deps i [] seen g = g
  add_deps i (dep ∷ rest) seen g =
      add_deps i rest (if has dep seen then seen else dep ∷ seen)
        (if has dep seen then g else add_dep i dep g)

  pub build : ℕ → List Node → Graph → Graph
  build i [] g = g
  build i (n ∷ ns) g = build (suc i) ns (add_deps i n.depends_on [] g)

-- The variables of the loop of Kahn's algorithm.
pub record Progress : Type 0 where
  pub indegree : ℕ → ℕ
  pub queue : List ℕ
  pub order : List ℕ

-- `indegree[m]--; if indegree[m] == 0`: the count is a signed int in Go. Below zero it would never
-- be zero again nor positive, so it may as well stay at 0 if the test is on the old value.
lower : ℕ → Progress → Progress
lower m s = record s {
  indegree = update s.indegree m (s.indegree m - 1);
  queue = if s.indegree m == 1 then s.queue ++ m ∷ [] else s.queue;
}

-- The loop over `adj[n]`.
pub relax : List ℕ → Progress → Progress
unfolding lower
relax [] s = s
relax (m ∷ ms) s = relax ms (lower m s)

-- `for len(queue) > 0`. Each round adds a node to `order`, so one more round than there are nodes
-- is enough.
pub kahn : ℕ → (ℕ → List ℕ) → Progress → Progress
unfolding relax
kahn zero adj s = s
kahn (suc fuel) adj s = elim s.queue [
  | [] ↦ s
  | n ∷ rest ↦ kahn fuel adj (relax (adj n) (record s { queue = rest; order = s.order ++ n ∷ [] }))
]

-- The indices from `i` on, `k` of them, that `p` holds of.
pub indices : (ℕ → Bool) → ℕ → ℕ → List ℕ
indices p i zero = []
indices p i (suc k) = let rest = indices p (suc i) k in if p i then i ∷ rest else rest

pub start : ℕ → Graph → Progress
unfolding indices
start n g = record {
  indegree = g.indegree;
  queue = indices (λ i. g.indegree i == 0) 0 n;
  order = [];
}

pub id_by_index : List Node → ℕ → String
id_by_index nodes i = elim (get_elem? nodes i) [ none ↦ "" | some n ↦ node_id n i ]

pub circular : List String → Issue
circular names = record {
  path = "/nodes";
  code = "circular_dependency";
  message = "circular dependency among nodes: " <> join names ", ";
  expected = "";
  suggestion = "";
}

pub dag_node : List Node → Graph → ℕ → DagNode
unfolding id_by_index
dag_node nodes g i = record {
  name = id_by_index nodes i;
  type = elim (get_elem? nodes i) [ none ↦ "" | some n ↦ n.type ];
  depends_on = g.deps i;
  index = i;
}

pub names_of : List Node → Names
unfolding index_nodes
names_of nodes = index_nodes 0 nodes (record { index = []; issues = [] })

pub graph_of : List Node → Graph
unfolding names_of build add_deps add_dep
graph_of nodes =
    let names = names_of nodes in
    build names.index 0 nodes
      (record { deps = λ _. []; adj = λ _. []; indegree = λ _. 0; issues = names.issues })

pub run_order : List Node → Progress
unfolding graph_of start kahn
run_order nodes = let g = graph_of nodes in kahn (suc (length nodes)) g.adj (start (length nodes) g)

-- `cycleNames`: the nodes whose count did not reach zero.
pub cycle_names : List Node → List String
unfolding run_order indices id_by_index
cycle_names nodes =
    map (id_by_index nodes) (indices (λ i. ltb 0 ((run_order nodes).indegree i)) 0 (length nodes))

-- The nodes in run order, and the issues.
unfoldable pub resolve_dag : Wafer → List DagNode × List Issue
unfolding graph_of run_order circular dag_node cycle_names
resolve_dag w =
    let g = graph_of w.nodes in
    let done = run_order w.nodes in
    if length done.order == length w.nodes
    then (map (dag_node w.nodes g) done.order, g.issues)
    else ([], g.issues ++ circular (cycle_names w.nodes) ∷ [])
