-- ===== src/Runner/Build.antt =====
-- internal/runner/runner.go: FromWafer, and its jobs as they are encoded.
use servitor.Prelude.{
  ℕ, zero, suc, String, Option, none, some, List, [], ◌∷◌, length, get_elem?, ◌>>=◌,
}
use servitor.Value.{Value, null, obj, Fields, end, field}
use servitor.Job.{Head, NodeJob, Jobs, stop, next, Body, no_body, body, job}
use servitor.Registry.{Capability}
use servitor.Wafer.{Wafer}
use servitor.Wafer.Dag.{DagNode, resolve_dag}
use servitor.Runner.{
  Slice, Draft, draft, Drafts, last, before, Memory, Made, made, no_job, unresolved, cyclic, failed,
  modify, with_draft_head, read, go, halt,
}
use servitor.Runner.Wire.{node_jobs, assign_dependents, foreach_nodes, build_downstream, head_from}

-- The job as it is in the end, with the pointers followed: what is encoded when it is enqueued.
-- Pointers that form a cycle have no encoding (`none`); each pointer goes to another job, so as many
-- steps as there are jobs are enough for the others.
abbrev pub with_lists : List String → List String → Head → Head
with_lists dependents rejoins h = record h { dependents = dependents; rejoins = rejoins }

abbrev read_or_nil : Option Slice → (ℕ → List String) → List String
read_or_nil none arrays = []
read_or_nil (some s) arrays = read s arrays

module _ (follow : ℕ → Option NodeJob) (arrays : ℕ → List String) where
  encode_body : Option ℕ → Option Body
  encode_body none = some no_body
  encode_body (some k) = follow k >>= λ j. some (body j)

  mutual
    unfolding encode_body

    pub encode_draft : Draft → Option NodeJob
    encode_draft (draft h deps rejoins ds b) = do
      js ← encode_drafts ds
      template ← encode_body b
      some (job (with_lists (read deps arrays) (read_or_nil rejoins arrays) h) js template)

    pub encode_drafts : Drafts → Option Jobs
    encode_drafts last = some stop
    encode_drafts (before d ds) = do j ← encode_draft d; js ← encode_drafts ds; some (next j js)

pub follow : ℕ → Memory → ℕ → Option NodeJob
unfolding encode_draft
follow zero m k = none
follow (suc fuel) m k = get_elem? m.jobs k >>= λ d. encode_draft (follow fuel m) m.arrays d

abbrev event_value : Option Fields → Value
event_value none = null
event_value (some event) = obj event

abbrev with_input : Option Fields → Head → Head
with_input event h = record h {
  input = field "event" (event_value event) (field "steps" (obj end) end);
}

-- The rest of FromWafer, once every node has its job.
pub finish : List DagNode → Option Fields → Memory → Made
unfolding assign_dependents foreach_nodes build_downstream head_from follow
finish dag event m = elim (foreach_nodes dag (assign_dependents dag m)) [
  | halt e ↦ failed e
  | go wired ↦
      let built = build_downstream (length wired.jobs) wired in
      let k = head_from 0 dag in
      let final = record built {
        jobs = modify k (with_draft_head (with_input event)) built.jobs;
      } in
      elim (follow (suc (length final.jobs)) final k) [ none ↦ cyclic | some j ↦ made j ]
]

abbrev pub no_memory : Memory
no_memory = record { jobs = []; arrays = λ k. []; index = [] }

pub build_run : List Capability → Wafer → Option Fields → List DagNode → Made
unfolding node_jobs finish
build_run types w event dag = elim (node_jobs types w 0 dag no_memory) [
  | halt e ↦ failed e
  | go m ↦ finish dag event m
]

unfoldable pub from_wafer : List Capability → Wafer → Option Fields → Made
unfolding build_run
from_wafer types w event = elim (resolve_dag w).1 [
  | i ∷ issues ↦ unresolved (i ∷ issues)
  | [] ↦ elim (resolve_dag w).0 [ [] ↦ no_job | d ∷ dag ↦ build_run types w event (d ∷ dag) ]
]
