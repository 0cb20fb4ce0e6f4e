-- ===== src/Honker.antt =====
-- internal/honker: the SQLite store as a record of tables, and what the code asks of honker-go.
-- A statement that fails for want of a disk or a connection is not modelled. JSON columns are
-- carried as the values that they encode.
pub mod Samples
pub mod Deps
pub mod Runs
pub mod Suspend
pub mod Failed
pub mod Tx
pub mod Registry
use servitor.Prelude.{ℕ, String, Bool, Option, List, [], str_eq, ◌&&◌}
use servitor.Prelude.Int.{ℤ}
use servitor.Value.{Value, Fields}
use servitor.Job.{NodeJob, WaitContinuation}

pub data Status : Type 0 where
  running completed failed cancelled waiting : Status

pub record ResultRow : Type 0 where
  pub run_id : String
  pub node_id : String
  pub result : Value

pub record DedupeRow : Type 0 where
  pub workflow_id : String
  pub node_name : String
  pub key : String
  pub succeeded : Bool
  pub result : Value

pub record WorkflowRow : Type 0 where
  pub name : String
  pub wafer : String
  pub enabled : Bool

pub record RunRow : Type 0 where
  pub run_id : String
  pub workflow_name : String
  pub status : Status
  pub pending : ℤ

pub record SingerRow : Type 0 where
  pub workflow_id : String
  pub node_name : String
  pub state : Value

pub record DepRow : Type 0 where
  pub run_id : String
  pub node_id : String
  pub remaining : ℤ

-- `signal_name` is "" and `run_at` 0 where the column is NULL.
pub record Continuation : Type 0 where
  pub run_id : String
  pub node_id : String
  pub workflow_id : String
  pub signal_name : String
  pub run_at : ℤ
  pub payload : WaitContinuation

-- The rows stand in the order of their ids; the payload is its JSON text.
pub record SignalRow : Type 0 where
  pub signal_name : String
  pub payload : String

pub record FailedContinuation : Type 0 where
  pub run_id : String
  pub workflow_id : String
  pub event : Option Fields
  pub payload : NodeJob

-- A claimed job, without its payload.
pub record Claim : Type 0 where
  pub id : ℕ
  pub attempts : ℕ

-- The queue of honker-go. `enqueue` takes the time from which on the job can be claimed, 0 for at
-- once; `none` is an error. `ack` is `none` also where the claim is no longer valid.
pub record QueueLib : Type 1 where
  pub Live : Type 0
  pub enqueue : NodeJob → ℤ → Live → Option Live
  pub ack : Claim → Live → Option Live
  pub retry : Claim → ℕ → Live → Live
  pub fail : Claim → Live → Live
  pub drop_pending : String → Live → Live

-- encoding/json, where the code compares its texts.
pub record Json : Type 0 where
  pub encode : Value → String
  pub decode : String → Value

pub record Store (Live : Type 0) : Type 0 where
  pub node_results : List ResultRow
  pub node_dedupe : List DedupeRow
  pub workflows : List WorkflowRow
  pub runs : List RunRow
  pub singer_state : List SingerRow
  pub run_deps : List DepRow
  pub suspended : List Continuation
  pub buffered : List SignalRow
  pub failed_continuations : List FailedContinuation
  pub live : Live

-- The rows of a run, and those of a node in a run.
abbrev pub is_run : String → RunRow → Bool
is_run run r = str_eq r.run_id run

abbrev pub is_dep : String → String → DepRow → Bool
is_dep run node r = str_eq r.run_id run && str_eq r.node_id node

abbrev pub is_wait : String → String → Continuation → Bool
is_wait run node c = str_eq c.run_id run && str_eq c.node_id node

abbrev pub is_result : String → String → ResultRow → Bool
is_result run node r = str_eq r.run_id run && str_eq r.node_id node
