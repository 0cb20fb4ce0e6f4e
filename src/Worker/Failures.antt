-- ===== src/Worker/Failures.antt =====
-- `recordFailure` of internal/worker/worker.go and what it calls.
pub mod Retries
pub mod Ends
use servitor.Prelude.{
  ℕ, ◌<◌, ◌≤◌, ◌≡◌, refl, String, Bool, true, false, Option, none, some, List, [], ◌∷◌, str_eq, ltb,
  leb, if◌then◌else◌, arith, ◌||◌, get_or, select_row,
}
use servitor.Value.{Value, bool, obj, str, Fields, end, field, as_map, index}
use servitor.Job.{Head, NodeJob, head}
use servitor.Honker.{Claim, QueueLib, Store, Json, DedupeRow}
use servitor.Honker.Failed.{write_failed_continuation}
use servitor.Honker.Tx.{commit_node_atom, with_tx}
use servitor.Worker.{
  Kind, secret_missing, source_unreachable, stale, other, Failure, Result, ok, error, Harness,
  World, backoff_delay, resolve_dedupe_key, plain_atom, resolve_run_failed,
}

module _ (lib : QueueLib) (h : Harness) (json : Json) where
  -- The failed dedupe record, where the key can be evaluated and is not empty.
  failed_dedupe : Head → Value → Option DedupeRow
  unfolding resolve_dedupe_key
  failed_dedupe sj result = elim (resolve_dedupe_key h json sj) [
    | error _ ↦ none
    | ok key ↦
        if str_eq key ""
        then none
        else some (record {
          workflow_id = sj.workflow_id;
          node_name = sj.node_name;
          key = key;
          succeeded = false;
          result = result;
        })
  ]

  -- The claim is not acked and no successor runs. An error of the transaction is dropped.
  unfoldable pub commit_failed : Head → Value → Store lib.Live → Store lib.Live
  unfolding failed_dedupe plain_atom with_tx commit_node_atom
  commit_failed sj result s =
      (with_tx
        (commit_node_atom lib (record (plain_atom sj result none []) {
          dependents = [];
          dedupe = failed_dedupe sj result;
        }))
        s).0

  unfoldable pub save_failed_continuation : NodeJob → Store lib.Live → Store lib.Live
  unfolding write_failed_continuation
  save_failed_continuation j s =
      let sj = head j in
      write_failed_continuation
        (record {
          run_id = sj.run_id;
          workflow_id = sj.workflow_id;
          event = as_map (index "event" sj.input);
          payload = j;
        })
        s

  -- Retries are used up: the node is saved for a rerun, the claim dead-lettered, the run failed.
  unfoldable pub dead_letter : NodeJob → Claim → World lib.Live → World lib.Live
  unfolding save_failed_continuation resolve_run_failed
  dead_letter j claim w =
      let s = save_failed_continuation j w.store in
      resolve_run_failed (head j) (record w { store = record s { live = lib.fail claim s.live } })

  unfoldable pub retry : Claim → ℕ → World lib.Live → World lib.Live
  retry claim delay w = record w {
    store = record w.store { live = lib.retry claim delay w.store.live };
  }

  failure_code : Kind → Option String
  failure_code secret_missing = some "missing_secret"
  failure_code source_unreachable = some "secret_source_unreachable"
  failure_code stale = some "secret_auth_failed"
  failure_code other = none

  unfoldable pub failure_result : Failure → Value
  unfolding failure_code
  failure_result f =
      let cause = field "error" (str f.text) end in
      obj (
        field "ok" (bool false)
          (elim (failure_code f.kind) [ none ↦ cause | some code ↦ field "code" (str code) cause ]))

  -- The claim after a failure of the kind.
  unfoldable pub after_failure : Kind → NodeJob → Claim → World lib.Live → World lib.Live
  unfolding dead_letter retry backoff_delay
  after_failure secret_missing j claim w = dead_letter j claim w
  after_failure source_unreachable j claim w =
      if leb h.secret_retries claim.attempts
      then dead_letter j claim w
      else retry claim (backoff_delay claim.attempts) w
  after_failure stale j claim w =
      if leb h.secret_retries claim.attempts then dead_letter j claim w else retry claim 0 w
  after_failure other j claim w =
      if leb h.max_attempts claim.attempts then dead_letter j claim w else retry claim 0 w

  unfoldable pub record_failure : NodeJob → Claim → Failure → World lib.Live → World lib.Live
  unfolding commit_failed failure_result after_failure
  record_failure j claim f w =
      after_failure f.kind j claim
        (record w { store = commit_failed (head j) (failure_result f) w.store })
