-- ===== src/Honker/Tx.antt =====
-- internal/honker/tx.go: the transaction that completes a node. `none` is an error, after which
-- the transaction is rolled back; `with_tx` is what then remains.
pub mod Steps
pub mod Commit
use servitor.Prelude.{
  ℕ, ◌+◌, String, Bool, Option, none, some, List, [], ◌∷◌, ◌++◌, str_eq, ◌&&◌, if◌then◌else◌, has,
  select_row, replace, ◌>>=◌,
}
use servitor.Prelude.Int.{ℤ, pos, negsuc, ◌+ℤ◌}
use servitor.Value.{Value}
use servitor.Job.{NodeJob}
use servitor.Honker.{ResultRow, DedupeRow, SingerRow, DepRow, Claim, QueueLib, Store, is_result}
use servitor.Honker.Deps.{decrement_dependents, is_zero}
use servitor.Honker.Runs.{adjust_pending}

-- The queue of every downstream job is the worker's, so it is left out.
pub record NodeAtom : Type 0 where
  pub run_id : String
  pub node_id : String
  pub result : Value
  pub dedupe : Option DedupeRow
  pub dependents : List String
  pub downstream : List NodeJob
  pub job : Option Claim
  pub singer_state : Option SingerRow

abbrev pub is_dedupe : String → String → String → DedupeRow → Bool
is_dedupe workflow node key r =
    str_eq r.workflow_id workflow && str_eq r.node_name node && str_eq r.key key

abbrev pub is_singer : String → String → SingerRow → Bool
is_singer workflow node r = str_eq r.workflow_id workflow && str_eq r.node_name node

module _ {L : Type 0} where
  unfoldable pub with_tx : (Store L → Option (Store L)) → Store L → Store L × Bool
  with_tx f s = elim (f s) [ none ↦ (s, Bool.false) | some s' ↦ (s', Bool.true) ]

  unfoldable pub write_result : String → String → Value → Store L → Store L
  write_result run node result s = record s {
    node_results =
        replace (is_result run node) (record { run_id = run; node_id = node; result = result })
          s.node_results;
  }

  unfoldable pub write_dedupe : Option DedupeRow → Store L → Store L
  write_dedupe none s = s
  write_dedupe (some d) s = record s {
    node_dedupe = replace (is_dedupe d.workflow_id d.node_name d.key) d s.node_dedupe;
  }

  unfoldable pub write_singer : Option SingerRow → Store L → Store L
  write_singer none s = s
  write_singer (some d) s = record s {
    singer_state = replace (is_singer d.workflow_id d.node_name) d s.singer_state;
  }

  unfoldable pub lookup_dedupe : String → String → String → Store L → Option DedupeRow
  lookup_dedupe workflow node key s = select_row (is_dedupe workflow node key) s.node_dedupe

  unfoldable pub result : String → String → Store L → Option ResultRow
  result run node s = select_row (is_result run node) s.node_results

module _ (lib : QueueLib) where
  -- Job `i` is enqueued if dependent `i` is ready, or where there is no dependent `i`.
  unfoldable pub enqueue_ready :
      List String → List String → List NodeJob → lib.Live → Option (ℕ × lib.Live)
  enqueue_ready ready deps [] live = some (0, live)
  enqueue_ready ready [] (d ∷ ds) live = do
    live' ← lib.enqueue d (pos 0) live
    (n, final) ← enqueue_ready ready [] ds live'
    some (n + 1, final)
  enqueue_ready ready (dep ∷ deps) (d ∷ ds) live =
      let skip = enqueue_ready ready deps ds live in
      if has dep ready
      then (do
        live' ← lib.enqueue d (pos 0) live
        (n, final) ← enqueue_ready ready deps ds live'
        some (n + 1, final))
      else skip

  -- The number of the jobs that were enqueued, and the store.
  unfoldable pub fan_out :
      String → List String → List NodeJob → Store lib.Live → Option (ℕ × Store lib.Live)
  unfolding decrement_dependents enqueue_ready
  fan_out run dependents downstream s = do
    (ready, rows) ← decrement_dependents run dependents s.run_deps
    (n, live) ← enqueue_ready ready dependents downstream s.live
    some (n, record s { run_deps = rows; live = live })

  unfoldable pub ack : Option Claim → Store lib.Live → Option (Store lib.Live)
  ack none s = some s
  ack (some c) s = do live ← lib.ack c s.live; some (record s { live = live })

  -- The net change of the run's jobs in flight: one less for the claim, one more for each job.
  abbrev pub net : Option Claim → ℕ → ℤ
  net none n = pos n
  net (some _) n = pos n +ℤ negsuc 0

  unfoldable pub adjust_net : String → ℤ → Store lib.Live → Store lib.Live
  unfolding adjust_pending
  adjust_net run delta s = if is_zero delta then s else adjust_pending run delta s

  unfoldable pub commit_node_atom : NodeAtom → Store lib.Live → Option (Store lib.Live)
  unfolding write_result write_dedupe write_singer fan_out ack adjust_net
  commit_node_atom atom s = do
    (n, s') ←
        fan_out atom.run_id atom.dependents atom.downstream
          (write_dedupe atom.dedupe (write_result atom.run_id atom.node_id atom.result s))
    ack atom.job (write_singer atom.singer_state (adjust_net atom.run_id (net atom.job n) s'))
