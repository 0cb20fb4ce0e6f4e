-- ===== src/Wafer/Dag/Resolve.antt =====
-- The map `indexByName` of ResolveDAG (internal/wafer/dag.go).
use servitor.Prelude.{
  ℕ, zero, suc, ◌+◌, ◌<◌, ◌≡◌, refl, String, false, some, List, [], ◌∷◌, arith, length, lookup,
  str_eq, str_eq_iff, get_elem?, subst, sym, ap, ◌⊎◌, inl, inr,
}
use native.Mathlib.Nat.{add-zero}
use servitor.Wafer.{Node, node_id}
use servitor.Wafer.Dag.{Names, index_node, index_nodes, names_of, id_by_index}

pub get_elem?-lt {ℓ} :
    {A : Type ℓ} (xs : List A) (k : ℕ) {x : A} → get_elem? xs k ≡ some x → k < length xs
get_elem?-lt [] k e = cc
get_elem?-lt (x ∷ xs) zero e = omega arith
get_elem?-lt (x ∷ xs) (suc k) e = omega (arith, get_elem?-lt xs k e)

pub lt-get_elem? {ℓ} :
    {A : Type ℓ} (xs : List A) (k : ℕ) → k < length xs → (x : A) × (get_elem? xs k ≡ some x)
lt-get_elem? [] k lt = absurd (omega arith)
lt-get_elem? (x ∷ xs) zero lt = (x, refl)
lt-get_elem? (x ∷ xs) (suc k) lt = lt-get_elem? xs k (omega arith)

module _ (nodes : List Node) where
  -- The node at the index has the name.
  pub record IsNamed (id : String) (k : ℕ) : Type 0 where
    pub node : Node
    pub at : get_elem? nodes k ≡ some node
    pub name : node.name ≡ id
    pub filled : str_eq node.name "" ≡ false

  pub IsNamed-id : (id : String) (k : ℕ) → IsNamed id k → id_by_index nodes k ≡ id
  unfolding id_by_index node_id
  IsNamed-id id k named = ground (arith, named.at, named.name, named.filled)

  abbrev AllNamed : List (String × ℕ) → Type 0
  AllNamed names = (id : String) (k : ℕ) → lookup id names ≡ some k → IsNamed id k

  index_node-entry :
      (i : ℕ) (n : Node) (s : Names) (id : String) (k : ℕ)
      → lookup id (index_node i n s).index ≡ some k
      → (lookup id s.index ≡ some k) ⊎ ((str_eq n.name "" ≡ false) × (n.name ≡ id) × (i ≡ k))
  unfolding index_node lookup node_id
  index_node-entry i n s id k found = ground (arith, str_eq_iff n.name id)

  index_node-AllNamed :
      (i : ℕ) (n : Node) (s : Names)
      → get_elem? nodes i ≡ some n
      → AllNamed s.index
      → AllNamed (index_node i n s).index
  index_node-AllNamed i n s at all id k found = elim (index_node-entry i n s id k found) [
    | inl old ↦ all id k old
    | inr (filled, name, here) ↦ record {
      node = n;
      at = rw (← here) at;
      name = name;
      filled = filled;
    }
  ]

  index_nodes-AllNamed :
      (i : ℕ) (ns : List Node) (s : Names)
      → ((j : ℕ) → get_elem? ns j ≡ get_elem? nodes (i + j))
      → AllNamed s.index
      → AllNamed (index_nodes i ns s).index
  unfolding index_nodes
  index_nodes-AllNamed i [] s same all = all
  index_nodes-AllNamed i (n ∷ ns) s same all =
      index_nodes-AllNamed (suc i) ns (index_node i n s)
        (λ j. subst (λ (k : ℕ). get_elem? ns j ≡ get_elem? nodes k) (omega arith) (same (suc j)))
        (index_node-AllNamed i n s (rw add-zero at (sym (same 0))) all)

-- In the map of a workflow every name leads to the node that has it.
pub names_of-IsNamed :
    (nodes : List Node) (id : String) (k : ℕ)
    → lookup id (names_of nodes).index ≡ some k
    → IsNamed nodes id k
unfolding names_of
names_of-IsNamed nodes id k =
    index_nodes-AllNamed nodes 0 nodes (record { index = []; issues = [] })
      (λ j. ap (get_elem? nodes) (omega arith)) (λ _ _ e. unfold lookup in cc) id k
