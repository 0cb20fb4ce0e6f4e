-- ===== src/Worker/Nodes/Idempotency/Samples.antt =====
-- A node that succeeded under a dedupe key, and its next run (`runNode`, internal/worker/worker.go).
use servitor.Prelude.{
  ◌≡◌, refl, true, false, none, some, List, [], ◌∷◌, select_row, update_rows, delete, replace, has,
}
use servitor.Prelude.Int.{pos, ◌+ℤ◌, ◌-ℤ◌}
use servitor.Value.{str}
use servitor.Honker.{DedupeRow, Store, running}
use servitor.Honker.Samples.{Op, acked, queue, claim, head_of, store}
use servitor.Honker.Tx.{NodeAtom, commit_node_atom}
use servitor.Worker.{ok}
use servitor.Worker.Nodes.{run_node}
use servitor.Worker.Nodes.Idempotency.{run_node-after_commit}
use servitor.Worker.Samples.{harness, json}

abbrev success : DedupeRow
success = record {
  workflow_id = "w";
  node_name = "first";
  key = "row-42";
  succeeded = true;
  result = str "done";
}

abbrev atom : NodeAtom
atom = record {
  run_id = "r";
  node_id = "first";
  result = str "done";
  dedupe = some success;
  dependents = [];
  downstream = [];
  job = some claim;
  singer_state = none;
}

abbrev after : Store (List Op)
after = record store {
  node_results = record { run_id = "r"; node_id = "first"; result = str "done" } ∷ [];
  node_dedupe = success ∷ [];
  runs = record { run_id = "r"; workflow_name = "w"; status = running; pending = pos 0 } ∷ [];
  live = acked 7 ∷ [];
}

commits : commit_node_atom queue atom store ≡ some after
unfolding commit_node_atom replace ◌+ℤ◌ ◌-ℤ◌ update_rows select_row has delete
commits = refl

run_node-after_commit_example :
    run_node queue harness json (head_of "first" []) "row-42" after
    ≡ ok (record { result = str "done"; ran = false; state = none })
run_node-after_commit_example =
    run_node-after_commit queue harness json atom success (head_of "first" []) store refl refl refl
      refl refl commits
