-- ===== src/Worker/Nodes/Idempotency.antt =====
-- The dedupe records of nodes: `runNode` of internal/worker/worker.go on what `CommitNodeAtom` wrote.
pub mod Samples
use servitor.Prelude.{
  ◌≡◌, refl, String, Bool, true, false, Option, none, some, str_eq, str_eq_iff, if◌then◌else◌,
  select_row, select_row-replace, replace, >>=-eq-some, ap, ◌∙◌, sym, ◌&&◌, arith, ℕ, Bool-cases,
  inl, inr,
}
use servitor.Value.{Value}
use servitor.Job.{Head}
use servitor.Prelude.Int.{ℤ}
use servitor.Honker.Deps.{is_zero}
use servitor.Honker.Runs.{adjust_pending}
use servitor.Honker.{DedupeRow, SingerRow, QueueLib, Store, Json}
use servitor.Honker.Tx.{
  NodeAtom, commit_node_atom, lookup_dedupe, write_dedupe, write_result, is_dedupe, fan_out, ack,
  adjust_net, write_singer, net,
}
use servitor.Honker.Tx.Steps.{fan_out-inv, ack-inv}
use servitor.Worker.{Result, ok, Harness}
use servitor.Worker.Nodes.{Ran, run_node, prior, dispatch}

module _ (lib : QueueLib) where
  lookup-write_dedupe :
      (d : DedupeRow) (s : Store lib.Live)
      → lookup_dedupe d.workflow_id d.node_name d.key (write_dedupe (some d) s) ≡ some d
  unfolding lookup_dedupe write_dedupe
  lookup-write_dedupe d s =
      select_row-replace (is_dedupe d.workflow_id d.node_name d.key) d s.node_dedupe (
        let a = (str_eq_iff d.workflow_id d.workflow_id).1 refl in
        let b = (str_eq_iff d.node_name d.node_name).1 refl in
        let c = (str_eq_iff d.key d.key).1 refl in ground (arith, a, b, c))

  kept :
      (d : Option SingerRow) (run : String) (delta : ℤ) (s : Store lib.Live)
      → (write_singer d (adjust_net lib run delta s)).node_dedupe ≡ s.node_dedupe
  unfolding write_singer adjust_net adjust_pending
  kept none run delta s = elim (Bool-cases (is_zero delta)) [
    | inl zero ↦ rw zero
    | inr other ↦ rw other
  ]
  kept (some d) run delta s = elim (Bool-cases (is_zero delta)) [
    | inl zero ↦ rw zero
    | inr other ↦ rw other
  ]

  commit-node_dedupe :
      (atom : NodeAtom) (s : Store lib.Live) {s' : Store lib.Live}
      → commit_node_atom lib atom s ≡ some s'
      → s'.node_dedupe
        ≡ (write_dedupe atom.dedupe
            (write_result atom.run_id atom.node_id atom.result s)).node_dedupe
  unfolding commit_node_atom
  commit-node_dedupe atom s h =
      let s0 = write_dedupe atom.dedupe (write_result atom.run_id atom.node_id atom.result s) in
      let finish : ℕ × Store lib.Live → Option (Store lib.Live) = λ p.
        ack lib atom.job (
          write_singer atom.singer_state (adjust_net lib atom.run_id (net lib atom.job p.0) p.1)) in
      let ((n, s1), h1, h2) =
        >>=-eq-some (fan_out lib atom.run_id atom.dependents atom.downstream s0) finish h in
      let (ready, rows, live, down, enq, count, eq1) =
        fan_out-inv lib atom.run_id atom.dependents atom.downstream s0 h1 in
      let (acks, eq2) = ack-inv lib atom.job _ h2 in
      ap (λ x. x.node_dedupe) eq2
      ∙ kept atom.singer_state atom.run_id (net lib atom.job n) s1
      ∙ ap (λ x. x.node_dedupe) eq1

  module _ (h : Harness) (json : Json) where
    prior-success :
        (sj : Head) (d : DedupeRow) (s : Store lib.Live)
        → str_eq d.key "" ≡ false
        → d.succeeded ≡ true
        → lookup_dedupe sj.workflow_id sj.node_name d.key s ≡ some d
        → prior lib h json sj d.key s ≡ some d.result
    unfolding prior
    prior-success sj d s keyed success found = rw (prior, keyed, found, success)

    run_node-prior :
        (sj : Head) (key : String) (s : Store lib.Live) {v : Value}
        → prior lib h json sj key s ≡ some v
        → run_node lib h json sj key s ≡ ok (record { result = v; ran = false; state = none })
    unfolding run_node
    run_node-prior sj key s found = rw (run_node, found)

    -- A node that has committed a success under a non-empty dedupe key is not run again under that key: the next
    -- run of it only returns the result of the first, whatever its harness would do.
    pub run_node-after_commit :
        (atom : NodeAtom) (d : DedupeRow) (sj : Head) (s : Store lib.Live) {s' : Store lib.Live}
        → atom.dedupe ≡ some d
        → d.succeeded ≡ true
        → str_eq d.key "" ≡ false
        → sj.workflow_id ≡ d.workflow_id
        → sj.node_name ≡ d.node_name
        → commit_node_atom lib atom s ≡ some s'
        → run_node lib h json sj d.key s'
          ≡ ok (record { result = d.result; ran = false; state = none })
    unfolding lookup_dedupe
    run_node-after_commit atom d sj s {s' = s'} dedupe success keyed same_flow same_node done =
        let s0 = write_result atom.run_id atom.node_id atom.result s in
        let rows =
          commit-node_dedupe atom s done ∙ ap (λ o. (write_dedupe o s0).node_dedupe) dedupe in
        let found =
          ap (select_row (is_dedupe d.workflow_id d.node_name d.key)) rows
          ∙ lookup-write_dedupe d s0 in
        let there =
          ap (λ f. lookup_dedupe f sj.node_name d.key s') same_flow
          ∙ ap (λ n. lookup_dedupe d.workflow_id n d.key s') same_node
          ∙ found in
        run_node-prior sj d.key s' (prior-success sj d s' keyed success there)
