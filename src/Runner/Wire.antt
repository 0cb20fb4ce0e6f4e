-- ===== src/Runner/Wire.antt =====
-- internal/runner/runner.go: the loops of FromWafer over the nodes in run order.
use servitor.Prelude.{
  ℕ, zero, suc, String, none, some, List, [], ◌∷◌, ◌++◌, str_eq, if◌then◌else◌, length, get_elem?,
  lookup, ◌<>◌, quote, drop, ◌==◌,
}
use servitor.Value.{Fields, index, string_or_empty}
use servitor.Registry.{Capability, argv, no_command, refused, command_for}
use servitor.Wafer.{Wafer}
use servitor.Wafer.Dag.{DagNode}
use servitor.Runner.{
  draft, Memory, remove_str, modify, draft_head, with_draft_head, with_slice, with_copy, with_body,
  read, dependents_of, index_of, node_job, add_job, Step, go, halt,
}

module _ (types : List Capability) (w : Wafer) where
  -- `i` is the position in the run order.
  unfoldable pub node_jobs : ℕ → List DagNode → Memory → Step
  unfolding command_for node_job add_job
  node_jobs i [] m = go m
  node_jobs i (d ∷ dag) m = elim (get_elem? w.nodes d.index) [
    | none ↦ halt "index out of range"
    | some s ↦ elim (command_for s.type s.config types) [
      | refused e ↦ halt e
      | argv command ↦ node_jobs (suc i) dag (add_job d (node_job w.name d s command i) m)
      | no_command ↦ node_jobs (suc i) dag (add_job d (node_job w.name d s [] i) m)
    ]
  ]

-- append(jobs[j].Dependents, name)
pub append_dependent : ℕ → String → Memory → Memory
append_dependent j name m = record m {
  jobs = modify j (with_slice (λ deps. record deps { length = suc deps.length })) m.jobs;
  arrays = λ k. if k == j then m.arrays j ++ name ∷ [] else m.arrays k;
}

pub name_dependents : String → List String → Memory → Memory
unfolding append_dependent
name_dependents name [] m = m
name_dependents name (dep ∷ deps) m = elim (lookup dep m.index) [
  | none ↦ name_dependents name deps m
  | some j ↦ name_dependents name deps (append_dependent j name m)
]

unfoldable pub assign_dependents : List DagNode → Memory → Memory
unfolding name_dependents
assign_dependents [] m = m
assign_dependents (d ∷ dag) m = assign_dependents dag (name_dependents d.name d.depends_on m)

-- `fj.Dependents = removeStr(fj.Dependents, bodyName)`, which moves what is kept to the front of
-- the array that it shares with every slice cut from it.
pub remove_dependent : ℕ → String → Memory → Memory
unfolding remove_str read
remove_dependent j name m = elim (get_elem? m.jobs j) [
  | none ↦ m
  | some (draft h deps rejoins ds b) ↦
      let kept = remove_str name (read deps m.arrays) in
      record m {
        jobs = modify j (with_slice (λ s. record s { length = length kept })) m.jobs;
        arrays = λ k.
            if k == deps.array
            then kept ++ drop (length kept) (m.arrays deps.array)
            else m.arrays k;
      }
]

-- Body, BodyAs and Rejoins of the foreach `j`, whose body is the job `b`.
pub set_body : ℕ → ℕ → String → Memory → Memory
set_body j b as_name m = elim (get_elem? m.jobs b) [
  | none ↦ m
  | some (draft _ slice _ _ _) ↦ record m { jobs = modify j (with_body slice b as_name) m.jobs }
]

-- append(jobs[j].Downstream, *jobs[k])
pub append_downstream : ℕ → ℕ → Memory → Memory
append_downstream j k m = elim (get_elem? m.jobs k) [
  | none ↦ m
  | some copy ↦ record m { jobs = modify j (with_copy copy) m.jobs }
]

pub mark_collect : ℕ → String → String → String → Memory → Memory
mark_collect k from as_name collect m = record m {
  jobs =
      modify k
        (with_draft_head
          (λ h. record h { collect_from = from; collect_as = as_name; collect_name = collect }))
        m.jobs;
}

pub copy_rejoins : ℕ → String → String → String → List String → Memory → Memory
unfolding index_of append_downstream mark_collect
copy_rejoins j from as_name collect [] m = m
copy_rejoins j from as_name collect (rejoin ∷ rest) m =
    let k = index_of rejoin m in
    let marked = mark_collect k from as_name collect m in
    copy_rejoins j from as_name collect rest (append_downstream j k marked)

abbrev pub or_item : String → String
or_item as_name = if str_eq as_name "" then "item" else as_name

-- A foreach node and its body, the job `b`.
pub wire_foreach : DagNode → ℕ → String → Fields → ℕ → Memory → Memory
unfolding remove_dependent set_body copy_rejoins index_of read
wire_foreach d j body_name config b m =
    let as_name = or_item (string_or_empty (index "as" config)) in
    let wired = set_body j b as_name (remove_dependent j body_name m) in
    elim (get_elem? wired.jobs b) [
      | none ↦ wired
      | some body_job ↦
          copy_rejoins j body_name as_name d.name (dependents_of body_job wired.arrays) wired
    ]

unfoldable pub foreach_nodes : List DagNode → Memory → Step
unfolding wire_foreach index_of
foreach_nodes [] m = go m
foreach_nodes (d ∷ dag) m =
    if str_eq d.type "foreach"
    then elim (get_elem? m.jobs (index_of d.name m)) [
      | none ↦ foreach_nodes dag m
      | some fj ↦
          let config = (draft_head fj).config in
          let body_name = string_or_empty (index "body" config) in
          elim (lookup body_name m.index) [
            | none ↦
                halt ("run: foreach " <> quote d.name <> " has unknown body " <> quote body_name)
            | some b ↦ foreach_nodes dag (wire_foreach d (index_of d.name m) body_name config b m)
          ]
    ]
    else foreach_nodes dag m

pub append_dependents : ℕ → List String → Memory → Memory
unfolding append_downstream index_of
append_dependents j [] m = m
append_dependents j (dep ∷ deps) m =
    append_dependents j deps (append_downstream j (index_of dep m) m)

-- for j := len(jobs) - 1; j >= 0; j--
unfoldable pub build_downstream : ℕ → Memory → Memory
unfolding append_dependents
build_downstream zero m = m
build_downstream (suc j) m = elim (get_elem? m.jobs j) [
  | none ↦ build_downstream j m
  | some d ↦ build_downstream j (append_dependents j (dependents_of d m.arrays) m)
]

-- The first node without dependencies, jobs[0] if there is none.
unfoldable pub head_from : ℕ → List DagNode → ℕ
head_from i [] = 0
head_from i (d ∷ dag) = let rest = head_from (suc i) dag in elim d.depends_on [ [] ↦ i | _ ↦ rest ]
