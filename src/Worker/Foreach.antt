-- ===== src/Worker/Foreach.antt =====
-- The handlers of foreach and poll nodes of internal/worker/worker.go.
use servitor.Prelude.{
  ℕ, suc, String, Option, none, some, List, [], ◌∷◌, ◌++◌, str_eq, if◌then◌else◌, itoa, ◌<>◌,
}
use servitor.Prelude.Int.{pos}
use servitor.Value.{Value, arr, obj, Items, nil, cons, end, field, index, string_or_empty}
use servitor.Job.{
  Head, NodeJob, Body, no_body, body, job, head, downstream, with_head, jobs_of, to_jobs,
  foreach_item_input,
}
use servitor.Honker.{Claim, QueueLib, Store, Json}
use servitor.Honker.Deps.{set_run_deps_remaining}
use servitor.Worker.{
  plain_failure, Result, ok, error, ◌>>=◌, Harness, World, polled, spawn, plain_atom,
}
use servitor.Worker.Failures.{record_failure}
use servitor.Worker.Nodes.{commit_or_fail}

-- `len(items)`
unfoldable pub length : Items → ℕ
length nil = 0
length (cons _ xs) = suc (length xs)

-- The first job of the id.
unfoldable pub find_downstream_job : String → List NodeJob → Option NodeJob
find_downstream_job id [] = none
find_downstream_job id (d ∷ ds) =
    let rest = find_downstream_job id ds in if str_eq (head d).node_id id then some d else rest

-- The write through the pointer that `findDownstreamJob` returns: to the first job of the id.
mark_rejoin : String → String → String → ℕ → List NodeJob → List NodeJob
mark_rejoin id from as_name n [] = []
mark_rejoin id from as_name n (d ∷ ds) =
    let rest = mark_rejoin id from as_name n ds in
    if str_eq (head d).node_id id
    then with_head (λ h. record h { collect_from = from; collect_as = as_name; collect_count = n })
        d
      ∷ ds
    else d ∷ rest

mark_rejoins : List String → String → String → ℕ → List NodeJob → List NodeJob
unfolding mark_rejoin
mark_rejoins [] from as_name n ds = ds
mark_rejoins (r ∷ rs) from as_name n ds =
    mark_rejoins rs from as_name n (mark_rejoin r from as_name n ds)

unfoldable pub rejoin_jobs : List String → List NodeJob → List NodeJob
unfolding find_downstream_job
rejoin_jobs [] ds = []
rejoin_jobs (r ∷ rs) ds =
    let rest = rejoin_jobs rs ds in
    elim (find_downstream_job r ds) [ none ↦ rest | some d ↦ d ∷ rest ]

-- The job of iteration `i`: the body template, with an id of its own and the rejoins behind it.
unfoldable pub body_job : Head → NodeJob → List NodeJob → ℕ → Value → NodeJob
body_job sj (job b bs bb) rejoins i item =
    job
      (record b {
        run_id = sj.run_id;
        node_id = b.node_id <> "#" <> itoa i;
        input = foreach_item_input sj.input sj.body_as item;
        dependents = sj.rejoins;
        collect_from = "";
        collect_as = "";
        collect_count = 0;
        collect_name = "";
      })
      (to_jobs rejoins) bb

unfoldable pub body_jobs : Head → NodeJob → List NodeJob → ℕ → Items → List NodeJob
unfolding body_job
body_jobs sj template rejoins i nil = []
body_jobs sj template rejoins i (cons item items) =
    body_job sj template rejoins i item ∷ body_jobs sj template rejoins (suc i) items

as_items : String → Value → Result Items
as_items node (arr xs) = ok xs
as_items node _ = error (plain_failure (node <> " returned a non-list"))

module _ (lib : QueueLib) (h : Harness) (json : Json) where
  run_foreach : Head → Result Items
  unfolding spawn as_items
  run_foreach sj = do v ← spawn h sj sj.command (obj sj.input); as_items sj.node_id v

  -- Each rejoin waits for all iterations.
  set_rejoins : String → List String → ℕ → Store lib.Live → Store lib.Live
  unfolding set_run_deps_remaining
  set_rejoins run [] n s = s
  set_rejoins run (r ∷ rs) n s = set_rejoins run rs n (set_run_deps_remaining run r (pos n) s)

  foreach_items : NodeJob → Claim → NodeJob → Items → World lib.Live → World lib.Live
  unfolding set_rejoins mark_rejoins rejoin_jobs body_jobs length commit_or_fail plain_atom
  foreach_items j claim template items w =
      let sj = head j in
      let n = length items in
      let ds =
        mark_rejoins sj.rejoins (head template).node_id sj.body_as n (jobs_of (downstream j)) in
      commit_or_fail lib h json j claim
        (record (plain_atom sj (obj (field "items" (arr items) end)) (some claim)
          (body_jobs sj template (rejoin_jobs sj.rejoins ds) 0 items)) { dependents = [] })
        (record w { store = set_rejoins sj.run_id sj.rejoins n w.store })

  -- Without a body the handler returns with the claim held.
  foreach_body : NodeJob → Claim → Body → Items → World lib.Live → World lib.Live
  unfolding foreach_items
  foreach_body j claim no_body items w = w
  foreach_body j claim (body template) items w = foreach_items j claim template items w

  unfoldable pub handle_foreach : NodeJob → Claim → World lib.Live → World lib.Live
  unfolding run_foreach foreach_body record_failure
  handle_foreach (job sj ds b) claim w = elim (run_foreach sj) [
    | error f ↦ record_failure lib h json (job sj ds b) claim f w
    | ok items ↦ foreach_body (job sj ds b) claim b items w
  ]

  -- An ack outside a transaction; its error is dropped.
  unfoldable pub ack_claim : Claim → World lib.Live → World lib.Live
  ack_claim claim w = elim (lib.ack claim w.store.live) [
    | none ↦ w
    | some live ↦ record w { store = record w.store { live = live } }
  ]

  poll_items : Head → Result Items
  unfolding spawn as_items
  poll_items sj = do v ← spawn h sj sj.command (obj sj.input); as_items sj.node_id v

  -- The claim is acked whatever happens, and no run is touched.
  unfoldable pub handle_poll : NodeJob → Claim → World lib.Live → World lib.Live
  unfolding ack_claim poll_items
  handle_poll j claim w = elim (poll_items (head j)) [
    | error f ↦ ack_claim claim w
    | ok items ↦ ack_claim claim (record w {
      events =
          w.events
          ++ polled (head j).workflow_id (string_or_empty (index "kind" (head j).config)) items
            ∷ [];
    })
  ]
