-- ===== src/Job.antt =====
-- The payloads of the work queue: `NodeJob` of internal/worker/worker.go, which carries its own
-- successors, and the input `{event, steps}` that is threaded through a run.
use servitor.Prelude.{ℕ, String, Bool, none, some, List, [], ◌∷◌, str_eq, if◌then◌else◌}
use servitor.Value.{Value, null, obj, Fields, end, field, index, assign, as_map}

-- The fields of a `NodeJob` but those that hold jobs.
pub record Head : Type 0 where
  pub run_id : String
  pub workflow_id : String
  pub node_id : String
  pub node_name : String
  pub node_type : String
  pub config : Fields
  pub input : Fields
  pub dedupe_key : String
  pub command : List String
  pub secrets : List String
  pub skip : Bool
  pub dependents : List String
  pub body_as : String
  pub rejoins : List String
  pub collect_from : String
  pub collect_as : String
  pub collect_count : ℕ
  pub collect_name : String

-- `job head downstream body`; `no_body` is the nil pointer.
mutual
  pub data NodeJob : Type 0 where
    job : Head → Jobs → Body → NodeJob

  pub data Jobs : Type 0 where
    stop : Jobs
    next : NodeJob → Jobs → Jobs

  pub data Body : Type 0 where
    no_body : Body
    body : NodeJob → Body

abbrev pub head : NodeJob → Head
head (job h _ _) = h

abbrev pub downstream : NodeJob → Jobs
downstream (job _ ds _) = ds

abbrev pub with_head : (Head → Head) → NodeJob → NodeJob
with_head f (job h ds b) = job (f h) ds b

unfoldable pub jobs_of : Jobs → List NodeJob
jobs_of stop = []
jobs_of (next j js) = j ∷ jobs_of js

unfoldable pub to_jobs : List NodeJob → Jobs
to_jobs [] = stop
to_jobs (j ∷ js) = next j (to_jobs js)

-- `v, _ := m["steps"].(map[string]any)`, an empty map where there is none.
unfoldable pub steps_of : Fields → Fields
steps_of input = elim (as_map (index "steps" input)) [ none ↦ end | some m ↦ m ]

unfoldable pub event_of : Fields → Value
event_of input = elim (index "event" input) [ none ↦ null | some v ↦ v ]

-- The next node's input: the event as it is, and the result under the node's name.
unfoldable pub thread_input : Fields → String → Value → Fields
unfolding steps_of event_of
thread_input parent name result =
    let steps = if str_eq name "" then steps_of parent else assign name result (steps_of parent) in
    field "event" (event_of parent) (field "steps" (obj steps) end)

-- The loop variable is written last, so it covers an input field of its name.
unfoldable pub foreach_item_input : Fields → String → Value → Fields
unfolding steps_of event_of
foreach_item_input parent as_name item =
    assign as_name item
      (field "event" (event_of parent) (field "steps" (obj (steps_of parent)) end))

-- What a `wait` node leaves in the store (internal/worker/suspend.go).
pub record WaitContinuation : Type 0 where
  pub run_id : String
  pub node_id : String
  pub node_name : String
  pub input : Fields
  pub dependents : List String
  pub downstream : Jobs
