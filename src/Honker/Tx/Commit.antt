-- ===== src/Honker/Tx/Commit.antt =====
-- What a committed node leaves in the store: `CommitNodeAtom` of internal/honker/tx.go.
pub mod Samples
use servitor.Prelude.{
  ℕ, ◌≡◌, refl, String, Bool, true, false, Option, none, some, List, [], ◌∷◌, length, ◌>>=◌,
  >>=-eq-some, Option-cases, inl, inr, arith, ap, ◌∙◌, sym,
}
use servitor.Prelude.Int.{ℤ, ◌+ℤ◌}
use servitor.Job.{NodeJob}
use servitor.Honker.{DepRow, RunRow, Claim, QueueLib, Store}
use servitor.Honker.Deps.{decrement_dependents}
use servitor.Honker.Runs.{get_run}
use servitor.Honker.Runs.Rows.{changed}
use servitor.Honker.Tx.{
  NodeAtom, with_tx, write_result, write_dedupe, write_singer, result, fan_out, ack, net,
  adjust_net, commit_node_atom,
}
use servitor.Honker.Tx.Steps.{started, enqueue_all, acked, fan_out-inv, ack-inv, opened, closed}

with_tx-none :
    {L : Type 0} (f : Store L → Option (Store L)) (s : Store L)
    → f s ≡ none
    → with_tx f s ≡ (s, false)
unfolding with_tx
with_tx-none f s failed = rw (with_tx, failed)

module _ (lib : QueueLib) where
  -- A commit that goes through has counted down the dependents; it has enqueued just the jobs that this
  -- makes ready, and then acked the claim; the node's result is read back; and the run's number of jobs
  -- in flight has changed by the jobs that were enqueued less the one that was claimed.
  pub commit_node_atom-effects :
      (atom : NodeAtom) (s : Store lib.Live) {s' : Store lib.Live}
      → commit_node_atom lib atom s ≡ some s'
      → (ready : List String) × (live : lib.Live) × (decrement_dependents atom.run_id
            atom.dependents s.run_deps
          ≡ some (ready, s'.run_deps))
        × (enqueue_all lib (started ready atom.dependents atom.downstream) s.live ≡ some live)
        × (acked lib atom.job live ≡ some s'.live)
        × (result atom.run_id atom.node_id s'
            ≡ some (record { run_id = atom.run_id; node_id = atom.node_id; result = atom.result }))
        × (get_run atom.run_id s'
            ≡ changed true
                (λ r. record r {
                  pending =
                      r.pending
                      +ℤ net lib atom.job (length (started ready atom.dependents atom.downstream));
                })
                (get_run atom.run_id s))
  unfolding commit_node_atom result get_run
  commit_node_atom-effects atom s {s' = s'} h =
      let s0 = write_dedupe atom.dedupe (write_result atom.run_id atom.node_id atom.result s) in
      let finish : ℕ × Store lib.Live → Option (Store lib.Live) = λ p.
        ack lib atom.job (
          write_singer atom.singer_state (adjust_net lib atom.run_id (net lib atom.job p.0) p.1)) in
      let ((n, s1), h1, h2) =
        >>=-eq-some (fan_out lib atom.run_id atom.dependents atom.downstream s0) finish h in
      let (ready, rows, live, down, enq, count, eq1) =
        fan_out-inv lib atom.run_id atom.dependents atom.downstream s0 h1 in
      let (acks, eq2) = ack-inv lib atom.job _ h2 in
      let (live0, deps0, run0, res0) =
        opened lib atom.dedupe atom.run_id atom.node_id atom.result s in
      let (live1, deps1, res1, run1) =
        closed lib atom.singer_state atom.run_id atom.node_id (net lib atom.job n) s1 in
      let in_rows : s'.run_deps ≡ rows =
        ap (λ x. x.run_deps) eq2 ∙ deps1 ∙ ap (λ x. x.run_deps) eq1 in
      let in_live = live1 ∙ ap (λ x. x.live) eq1 in
      (
        ready,
        live,
        sym (ap (decrement_dependents atom.run_id atom.dependents) deps0)
            ∙ down
            ∙ ap (λ r. some (ready, r)) (sym in_rows),
        sym (ap (enqueue_all lib (started ready atom.dependents atom.downstream)) live0) ∙ enq,
        sym (ap (acked lib atom.job) in_live) ∙ acks,
        ap (result atom.run_id atom.node_id) eq2
            ∙ res1
            ∙ ap (result atom.run_id atom.node_id) eq1
            ∙ res0,
        ap (get_run atom.run_id) eq2
            ∙ run1
            ∙ ap (changed true _) (ap (get_run atom.run_id) eq1 ∙ run0)
            ∙ ap
                (λ m.
                  changed true (λ r. record r { pending = r.pending +ℤ net lib atom.job m })
                    (get_run atom.run_id s))
                count,
      )

  -- With a claim that can no longer be acked nothing of the completion remains: the store is the old one
  -- and the transaction is reported as failed.
  pub with_tx-stale_claim :
      (atom : NodeAtom) (claim : Claim) (s : Store lib.Live)
      → atom.job ≡ some claim
      → ((live : lib.Live) → lib.ack claim live ≡ none)
      → with_tx (commit_node_atom lib atom) s ≡ (s, false)
  unfolding acked
  with_tx-stale_claim atom claim s job stale = elim (Option-cases (commit_node_atom lib atom s)) [
    | inl failed ↦ with_tx-none (commit_node_atom lib atom) s failed
    | inr (s', done) ↦
        let (ready, live, down, enq, acks, res, run) = commit_node_atom-effects atom s done in
        let impossible = sym (stale live) ∙ ap (λ c. acked lib c live) (sym job) ∙ acks in cc
  ]
