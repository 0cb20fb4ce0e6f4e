-- ===== src/Wafer/Dag/Samples.antt =====
-- Small workflows through ResolveDAG (internal/wafer/dag.go), and the theorems at them.
use servitor.Prelude.{
  ℕ, zero, suc, ◌≡◌, refl, ◌<◌, ◌-◌, String, true, List, [], ◌∷◌, map, length, arith, has, lookup,
  itoa, some, get_elem?, str_eq_iff,
}
use servitor.Value.{end}
use servitor.Wafer.{Node, Wafer, node_id}
use servitor.Wafer.Dag.{DagNode, names_of, graph_of, resolve_dag, circular}
use servitor.Wafer.Dag.Order.{IsRunOrder, resolve_dag-IsRunOrder, resolve_dag-acyclic, index_of}

abbrev node : String → List String → Node
node name deps = record {
  type = "shell";
  name = name;
  dedupe_key = "";
  depends_on = deps;
  secrets = [];
  config = end;
}

abbrev workflow : List Node → Wafer
workflow nodes = record { name = "w"; on = []; nodes = nodes; on_failure = "" }

-- `join` waits for two branches, and is listed first.
abbrev pub diamond : Wafer
diamond = workflow (
    node "join" ("left" ∷ "right" ∷ "left" ∷ [])
    ∷ node "left" ("top" ∷ [])
    ∷ node "top" []
    ∷ node "right" ("top" ∷ [])
    ∷ [])

abbrev cycle : Wafer
cycle = workflow (node "a" ("b" ∷ []) ∷ node "b" ("a" ∷ []) ∷ node "c" [] ∷ [])

program : Unit {0}
unfolding resolve_dag lookup has node_id itoa
program = tt

diamond_order : map index_of (resolve_dag diamond).0 ≡ 2 ∷ 1 ∷ 3 ∷ 0 ∷ []
unfolding program
diamond_order = refl

diamond_clean : (resolve_dag diamond).1 ≡ []
unfolding program
diamond_clean = refl

cycle_found : resolve_dag cycle ≡ ([], circular ("a" ∷ "b" ∷ []) ∷ [])
unfolding program
cycle_found = refl

abbrev diamond_dag : List DagNode
diamond_dag = (resolve_dag diamond).0

diamond_resolved : resolve_dag diamond ≡ (diamond_dag, [])
unfolding program
diamond_resolved = refl

resolve_dag-IsRunOrder_example : IsRunOrder diamond.nodes diamond_dag
resolve_dag-IsRunOrder_example = resolve_dag-IsRunOrder diamond diamond_dag diamond_resolved

abbrev chain : Wafer
chain = workflow (node "second" ("first" ∷ []) ∷ node "first" [] ∷ [])

chain_clean : (graph_of chain.nodes).issues ≡ []
unfolding program
chain_clean = refl

abbrev height : ℕ → ℕ
height m = 1 - m

chain-climbs :
    (m k : ℕ) (n : Node) (dep : String)
    → get_elem? chain.nodes m ≡ some n
    → has dep n.depends_on ≡ true
    → lookup dep (names_of chain.nodes).index ≡ some k
    → height k < height m
unfolding program
chain-climbs zero k n dep at member found = ground (arith, str_eq_iff dep "first")
chain-climbs (suc zero) k n dep at member found = ground arith
chain-climbs (suc (suc m)) k n dep at member found = cc

resolve_dag-acyclic_example : ((resolve_dag chain).1 ≡ []) × (length (resolve_dag chain).0 ≡ 2)
resolve_dag-acyclic_example = resolve_dag-acyclic chain height chain_clean chain-climbs
