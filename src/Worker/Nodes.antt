-- ===== src/Worker/Nodes.antt =====
-- The handlers of plain nodes, skipped branches and switches of internal/worker/worker.go.
pub mod Idempotency
use servitor.Prelude.{
  ℕ, zero, suc, String, Bool, true, false, Option, none, some, List, [], ◌∷◌, str_eq, ◌&&◌,
  if◌then◌else◌, not, itoa, ◌<>◌, select_row,
}
use servitor.Value.{
  Value, null, bool, obj, arr, str, Items, nil, cons, Fields, end, field, as_map, index, assign,
  string_or_empty,
}
use servitor.Job.{Head, NodeJob, head, downstream, with_head, jobs_of, steps_of}
use servitor.Honker.{Claim, QueueLib, Store, Json, DedupeRow, SingerRow}
use servitor.Honker.Tx.{NodeAtom, commit_node_atom, lookup_dedupe, result, is_singer}
use servitor.Worker.{
  plain_failure, Result, ok, error, ◌>>=◌, Harness, World, RunKind, singer, mcp, spawn,
  resolve_dedupe_key, threaded, plain_atom, check_run_complete,
}
use servitor.Worker.Failures.{record_failure}

-- A node's result, whether it ran, and its new bookmark.
pub record Ran : Type 0 where
  pub result : Value
  pub ran : Bool
  pub state : Option SingerRow

-- The input of the switch's subprocess: `cases` is nil where it is no map.
abbrev pub switch_payload : Head → Value
switch_payload sj = obj (
    field "input" (obj sj.input) (
      field "cases" (elim (as_map (index "cases" sj.config)) [ none ↦ null | some m ↦ obj m ])
        (field "default" (str (string_or_empty (index "default" sj.config))) end)))

module _ (lib : QueueLib) (h : Harness) (json : Json) where
  -- A commit that fails leaves the store, and the run is not looked at.
  unfoldable pub commit_then_check : Head → NodeAtom → World lib.Live → World lib.Live
  unfolding commit_node_atom check_run_complete
  commit_then_check sj atom w = elim (commit_node_atom lib atom w.store) [
    | none ↦ w
    | some s ↦ check_run_complete sj (record w { store = s })
  ]

  -- The same for the handlers that record a failed commit.
  unfoldable pub commit_or_fail : NodeJob → Claim → NodeAtom → World lib.Live → World lib.Live
  unfolding commit_node_atom check_run_complete record_failure
  commit_or_fail j claim atom w = elim (commit_node_atom lib atom w.store) [
    | none ↦ record_failure lib h json j claim (plain_failure "commit failed") w
    | some s ↦ check_run_complete (head j) (record w { store = s })
  ]

  -- The results of the iterations from `i` on, `n` of them; nil for one that is not there.
  unfoldable pub collect : String → String → ℕ → ℕ → Store lib.Live → Items
  unfolding result
  collect run from i zero s = nil
  collect run from i (suc n) s =
      cons (elim (result run (from <> "#" <> itoa i) s) [ none ↦ null | some r ↦ r.result ])
        (collect run from (suc i) n s)

  unfoldable pub assemble_foreach_input : Head → Store lib.Live → Fields
  unfolding collect steps_of
  assemble_foreach_input sj s =
      assign "steps"
        (obj (
          assign sj.collect_name (arr (collect sj.run_id sj.collect_from 0 sj.collect_count s))
            (steps_of sj.input)))
        sj.input

  -- A dedupe key with a prior success skips the node; a prior failure does not.
  prior : Head → String → Store lib.Live → Option Value
  unfolding lookup_dedupe
  prior sj key s =
      if str_eq key "" then none else elim (lookup_dedupe sj.workflow_id sj.node_name key s) [
        | none ↦ none
        | some d ↦ if d.succeeded then some d.result else none
      ]

  bookmark : Head → Store lib.Live → Option Value
  bookmark sj s = elim (select_row (is_singer sj.workflow_id sj.node_name) s.singer_state) [
    | none ↦ none
    | some r ↦ some r.state
  ]

  singer_row : Head → Option Value → Option SingerRow
  singer_row sj none = none
  singer_row sj (some v) =
      some (record { workflow_id = sj.workflow_id; node_name = sj.node_name; state = v })

  dispatch : RunKind → Head → Store lib.Live → Result Ran
  unfolding spawn bookmark singer_row
  dispatch singer sj s = do
    (v, state) ← h.run_singer sj (bookmark sj s)
    ok (record { result = v; ran = true; state = singer_row sj state })
  dispatch mcp sj s = do v ← h.run_mcp sj; ok (record { result = v; ran = true; state = none })
  dispatch _ sj s = do
    v ← spawn h sj sj.command (obj sj.input)
    ok (record { result = v; ran = true; state = none })

  unfoldable pub run_node : Head → String → Store lib.Live → Result Ran
  unfolding prior dispatch
  run_node sj key s = elim (prior sj key s) [
    | some v ↦ ok (record { result = v; ran = false; state = none })
    | none ↦ dispatch (h.run_kind sj.node_type) sj s
  ]

  -- The dedupe record of a node that ran under a key.
  success_dedupe : Head → String → Ran → Option DedupeRow
  success_dedupe sj key r =
      if not (str_eq key "") && r.ran
      then some (record {
        workflow_id = sj.workflow_id;
        node_name = sj.node_name;
        key = key;
        succeeded = true;
        result = r.result;
      })
      else none

  -- The job with the results of a foreach body in its input, if it collects them.
  collected : NodeJob → Store lib.Live → NodeJob
  unfolding assemble_foreach_input
  collected j s =
      if str_eq (head j).collect_from ""
      then j
      else with_head (λ sj. record sj { input = assemble_foreach_input sj s }) j

  attempt : Head → Store lib.Live → Result (String × Ran)
  unfolding resolve_dedupe_key run_node
  attempt sj s = do key ← resolve_dedupe_key h json sj; r ← run_node sj key s; ok (key, r)

  unfoldable pub handle_node : NodeJob → Claim → World lib.Live → World lib.Live
  unfolding collected attempt success_dedupe commit_then_check threaded plain_atom record_failure
  handle_node j0 claim w =
      let j = collected j0 w.store in
      let sj = head j in
      elim (attempt sj w.store) [
        | error f ↦ record_failure lib h json j claim f w
        | ok (key, r) ↦
            commit_then_check sj
              (record (plain_atom sj r.result (some claim)
                (threaded sj r.result (jobs_of (downstream j)))) {
                  dedupe = success_dedupe sj key r;
                  singer_state = r.state;
                })
              w
      ]

  abbrev skipped : Value
  skipped = obj (field "skipped" (bool true) end)

  skip_all : List NodeJob → List NodeJob
  skip_all [] = []
  skip_all (d ∷ ds) = with_head (λ h. record h { skip = true }) d ∷ skip_all ds

  -- A branch that was not chosen: recorded as skipped, and its successors enqueued as skipped.
  unfoldable pub handle_skip : NodeJob → Claim → World lib.Live → World lib.Live
  unfolding skip_all commit_then_check threaded plain_atom
  handle_skip j claim w =
      let sj = head j in
      commit_then_check sj
        (plain_atom sj skipped (some claim)
          (threaded sj skipped (skip_all (jobs_of (downstream j)))))
        w

  -- The chosen branch runs, every other is a skip-job.
  unfoldable pub route : String → List NodeJob → List NodeJob
  route chosen [] = []
  route chosen (d ∷ ds) =
      (if str_eq (head d).node_id chosen then d else with_head (λ h. record h { skip = true }) d)
      ∷ route chosen ds

  unfoldable pub target : Head → Value → Result String
  target sj (str s) =
      if str_eq s ""
      then error (plain_failure ("switch " <> sj.node_id <> " returned no branch target"))
      else ok s
  target sj _ = error (plain_failure ("switch " <> sj.node_id <> " returned no branch target"))

  unfoldable pub run_switch : Head → Result String
  unfolding spawn target
  run_switch sj = do v ← spawn h sj sj.command (switch_payload sj); target sj v

  unfoldable pub handle_switch : NodeJob → Claim → World lib.Live → World lib.Live
  unfolding run_switch route commit_then_check threaded plain_atom record_failure
  handle_switch j claim w =
      let sj = head j in
      elim (run_switch sj) [
        | error f ↦ record_failure lib h json j claim f w
        | ok chosen ↦
            let branch = obj (field "branch" (str chosen) end) in
            commit_then_check sj
              (plain_atom sj branch (some claim)
                (threaded sj branch (route chosen (jobs_of (downstream j)))))
              w
      ]
