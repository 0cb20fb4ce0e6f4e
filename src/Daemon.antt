-- ===== src/Daemon.antt =====
-- internal/daemon/daemon.go: the handlers of the control plane, over the store. A handler returns the store
-- after it and its reply.
pub mod Schedule
pub mod Register
pub mod Control
mod Samples
use servitor.Prelude.{
  ℕ, String, Bool, true, false, Option, none, some, List, [], ◌∷◌, ◌<>◌, quote, join,
}
use servitor.Job.{NodeJob}
use servitor.Honker.{RunRow, ResultRow, Store}
use servitor.Wafer.Validate.Parts.{Result}
use servitor.Trigger.{type_for_scheme}

-- The scheduler of honker-go over what is in the database: a task by its name, its schedule and the job
-- that it enqueues, and the removal of a task. `none` is an error.
pub record Scheduler (L : Type 0) : Type 0 where
  pub add : String → String → NodeJob → L → Option L
  pub remove : String → L → Option L

pub data Reply : Type 0 where
  done : Reply
  no_store : Reply
  bad_request : String → Reply
  not_found : String → Reply
  invalid : Result → Reply
  undeclared_secrets : List String → Reply
  scheme_mismatch : String → String → String → Reply
  refused : Reply
  internal_error : String → Reply
  one_run : RunRow → List ResultRow → Reply

-- `refused` is an error of the operation that the handler calls, which it answers with 422.
abbrev pub status : Reply → ℕ
status done = 200
status no_store = 409
status (bad_request _) = 400
status (not_found _) = 404
status (invalid _) = 422
status (undeclared_secrets _) = 422
status (scheme_mismatch _ _ _) = 422
status refused = 422
status (internal_error _) = 500
status (one_run _ _) = 200

-- The texts of http.Error that the request decides.
unfoldable pub message : Reply → String
unfolding type_for_scheme join
message done = "ok\n"
message no_store = "no store; run the daemon with --db"
message (bad_request m) = m
message (not_found m) = m
message (internal_error m) = m
message (undeclared_secrets names) =
    "workflow references undeclared secret(s): "
    <> join names ", "
    <> " (declare them with `servitor secret add`)"
message (scheme_mismatch typ path scheme) =
    "webhook trigger type "
    <> quote typ
    <> " does not match the declared receiver "
    <> quote path
    <> " scheme "
    <> quote scheme
    <> "; set the trigger type to "
    <> quote (type_for_scheme scheme)
    <> " or fix the receiver"
message _ = ""

module _ {L : Type 0} where
  -- The next step, where the first reports no error.
  abbrev pub then_do : Store L × Bool → (Store L → Store L × Bool) → Store L × Bool
  then_do (s, true) f = f s
  then_do (s, false) f = (s, false)

  -- A reply of 500 where the step reports an error; its text is followed by the error's.
  abbrev pub then_reply : Store L × Bool → String → (Store L → Store L × Reply) → Store L × Reply
  then_reply (s, true) failure f = f s
  then_reply (s, false) failure f = (s, internal_error failure)

  -- A handler's guard against a daemon without a store.
  abbrev pub with_store : Option (Store L) → (Store L → Store L × Reply) → Option (Store L) × Reply
  with_store none f = (none, no_store)
  with_store (some s) f = let (after, reply) = f s in (some after, reply)
