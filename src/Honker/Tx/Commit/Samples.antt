-- ===== src/Honker/Tx/Commit/Samples.antt =====
-- A node with two dependents, of which one is ready, through `CommitNodeAtom` (internal/honker/tx.go).
use servitor.Prelude.{
  ◌≡◌, refl, String, true, false, none, some, List, [], ◌∷◌, length, select_row, update_rows,
  replace, has,
}
use servitor.Prelude.Int.{pos, ◌+ℤ◌, ◌-ℤ◌}
use servitor.Value.{str}
use servitor.Job.{stop}
use servitor.Honker.{Claim, QueueLib, Store}
use servitor.Honker.Samples.{Op, enqueued, acked, queue, claim, job_of, store}
use servitor.Honker.Deps.{decrement_dependents}
use servitor.Honker.Runs.{get_run}
use servitor.Honker.Runs.Rows.{changed}
use servitor.Honker.Tx.{NodeAtom, with_tx, result, net, commit_node_atom}
use servitor.Honker.Tx.Steps.{started, enqueue_all}
use servitor.Honker.Tx.Steps
use servitor.Honker.Tx.Commit.{commit_node_atom-effects, with_tx-stale_claim}

abbrev atom_with : Claim → NodeAtom
atom_with c = record {
  run_id = "r";
  node_id = "first";
  result = str "done";
  dedupe = none;
  dependents = "join" ∷ "last" ∷ [];
  downstream = job_of "join" [] stop ∷ job_of "last" [] stop ∷ [];
  job = some c;
  singer_state = none;
}

abbrev after : Store (List Op)
after = record store {
  node_results = record { run_id = "r"; node_id = "first"; result = str "done" } ∷ [];
  run_deps =
      record { run_id = "r"; node_id = "join"; remaining = pos 1 }
      ∷ record { run_id = "r"; node_id = "last"; remaining = pos 0 }
      ∷ [];
  live = enqueued "last" ∷ acked 7 ∷ [];
}

commits : commit_node_atom queue (atom_with claim) store ≡ some after
unfolding commit_node_atom replace ◌+ℤ◌ ◌-ℤ◌ update_rows select_row has
commits = refl

commit_node_atom-effects_example :
    (ready : List String) × (live : List Op) × (decrement_dependents "r"
        ("join" ∷ "last" ∷ [])
        store.run_deps
      ≡ some (ready, after.run_deps))
    × (enqueue_all queue (started ready ("join" ∷ "last" ∷ []) (atom_with claim).downstream) []
        ≡ some live)
    × (Steps.acked queue (some claim) live ≡ some after.live)
    × (result "r" "first" after
        ≡ some (record { run_id = "r"; node_id = "first"; result = str "done" }))
    × (get_run "r" after
        ≡ changed true
            (λ r. record r {
              pending =
                  r.pending
                  +ℤ net queue
                      (some claim)
                      (length (started ready ("join" ∷ "last" ∷ []) (atom_with claim).downstream));
            })
            (get_run "r" store))
commit_node_atom-effects_example = commit_node_atom-effects queue (atom_with claim) store commits

-- A queue on which every claim has expired.
abbrev lost : QueueLib
lost = record queue { ack = λ c live. none }

with_tx-stale_claim_example :
    with_tx (commit_node_atom lost (atom_with claim)) store ≡ (store, false)
with_tx-stale_claim_example =
    with_tx-stale_claim lost (atom_with claim) claim store refl (λ live. refl)
