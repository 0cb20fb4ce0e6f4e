-- ===== src/Worker.antt =====
-- internal/worker/worker.go: what the handlers share. Subprocesses, expressions, the clock and the
-- daemon's callbacks are the fields of `Harness`; the errors that handlers return are only logged.
pub mod Failures
pub mod Nodes
pub mod Foreach
pub mod Wait
pub mod Signals
pub mod Handle
pub mod Race
pub mod Samples
pub mod Resume
pub mod Env
use servitor.Prelude.{
  ℕ, ◌+◌, ◌^◌, zero, String, Bool, Option, none, some, List, [], ◌∷◌, ◌++◌, str_eq, ltb, leb,
  if◌then◌else◌, ◌==◌, ◌||◌, join, ◌<>◌,
}
use Prim.Native.Nat.{min}
use servitor.Prelude.Int.{ℤ, pos}
use servitor.Value.{Value, null, obj, str, Fields, end, field, as_map, index}
use servitor.Value
use servitor.Job.{
  Head, NodeJob, Jobs, stop, next, job, head, downstream, with_head, jobs_of, thread_input,
}
use servitor.Honker.{
  Status, waiting, completed, failed, Claim, QueueLib, Store, Json, DedupeRow, SingerRow,
}
use servitor.Honker.Deps.{is_zero}
use servitor.Honker.Suspend.{is_waiting}
use servitor.Honker.Runs.{run_pending, run_status, set_run_status}
use servitor.Honker.Tx.{NodeAtom, commit_node_atom, with_tx}

-- How a failure is classified by `errors.Is`.
pub data Kind : Type 0 where
  secret_missing source_unreachable stale other : Kind

pub record Failure : Type 0 where
  pub kind : Kind
  pub text : String

pub data Result (A : Type 0) : Type 0 where
  ok : A → Result A
  error : Failure → Result A

infixl 5 ◌>>=◌
abbrev pub ◌>>=◌ : {A B : Type 0} → Result A → (A → Result B) → Result B
ok a >>= f = f a
error e >>= f = error e

-- The node's environment and the declared secrets without a value.
pub record NodeEnv : Type 0 where
  pub env : List String
  pub missing : List String

-- The harness that runs a node of a type (`registry.RunKind`).
pub data RunKind : Type 0 where
  plain singer mcp flow : RunKind

pub record Harness : Type 0 where
  -- `nodeEnv`: the secrets of a node through the resolver.
  pub resolve : String → List String → Result NodeEnv
  -- A subprocess, by its argv, its environment and its input.
  pub run : List String → List String → Value → Result Value
  -- `selfexe.Path()`
  pub self : String
  -- `expression.Eval` on the input
  pub eval : String → Fields → Result Value
  pub run_kind : String → RunKind
  -- `runSingerNode` and `runMCPNode`, of the job and the node's bookmark
  pub run_singer : Head → Option Value → Result (Value × Option Value)
  pub run_mcp : Head → Result Value
  -- `time.ParseDuration` from now on, and `time.Parse(RFC3339)`, as unix seconds
  pub after : String → Option ℤ
  pub at : String → Option ℤ
  pub secret_retries : ℕ
  pub max_attempts : ℕ

-- What the callbacks of `Config` are called with.
pub data Event : Type 0 where
  run_done run_failed : String → String → Event
  polled : String → String → Value.Items → Event

pub record World (L : Type 0) : Type 0 where
  pub store : Store L
  pub events : List Event

abbrev pub plain_failure : String → Failure
plain_failure text = record { kind = other; text = text }

-- The part that every subprocess run begins with: the command, and the secrets of the node.
unfoldable pub spawn : Harness → Head → List String → Value → Result Value
spawn h sj [] input =
    error (plain_failure ("node type " <> sj.node_type <> " has no command to run"))
spawn h sj (c ∷ argv) input = do
  r ← h.resolve sj.node_name sj.secrets
  elim r.missing [
    | [] ↦ h.run (c ∷ argv) r.env input
    | m ∷ ms ↦
        error (record { kind = secret_missing; text = "secret missing: " <> join (m ∷ ms) ", " })
  ]

-- `1 << min(attempt, 5)` seconds, at most 30.
unfoldable pub backoff_delay : ℕ → ℕ
backoff_delay attempt = let delay = 2 ^ min attempt 5 in if ltb 30 delay then 30 else delay

-- A string as it is, anything else as its JSON: `dedupeString` and `stringify`.
unfoldable pub stringify : Json → Value → String
stringify json (str s) = s
stringify json v = json.encode v

unfoldable pub resolve_dedupe_key : Harness → Json → Head → Result String
unfolding stringify
resolve_dedupe_key h json sj =
    if str_eq sj.dedupe_key ""
    then ok ""
    else do v ← h.eval sj.dedupe_key sj.input; ok (stringify json v)

-- The downstream jobs of a node that completes with `result`.
unfoldable pub threaded : Head → Value → List NodeJob → List NodeJob
threaded sj result [] = []
threaded sj result (d ∷ ds) =
    with_head (λ h. record h { input = thread_input sj.input sj.node_name result }) d
    ∷ threaded sj result ds

-- The completion of a node without a dedupe record or a bookmark.
unfoldable pub plain_atom : Head → Value → Option Claim → List NodeJob → NodeAtom
plain_atom sj result claim ds = record {
  run_id = sj.run_id;
  node_id = sj.node_id;
  result = result;
  dedupe = none;
  dependents = sj.dependents;
  downstream = ds;
  job = claim;
  singer_state = none;
}

-- A run with no job in flight is completed, unless it waits.
unfoldable pub check_run_complete : {L : Type 0} → Head → World L → World L
unfolding run_pending run_status
check_run_complete sj w =
    if is_zero (run_pending sj.run_id w.store)
    then elim (run_status sj.run_id w.store) [
      | some waiting ↦ w
      | _ ↦ record {
        store = set_run_status sj.run_id completed w.store;
        events = w.events ++ run_done sj.workflow_id sj.run_id ∷ [];
      }
    ]
    else w

unfoldable pub resolve_run_failed : {L : Type 0} → Head → World L → World L
resolve_run_failed sj w = record {
  store = set_run_status sj.run_id failed w.store;
  events = w.events ++ run_failed sj.workflow_id sj.run_id ∷ [];
}
