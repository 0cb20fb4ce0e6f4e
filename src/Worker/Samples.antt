-- ===== src/Worker/Samples.antt =====
-- A harness that runs nothing, and a JSON of strings only, for the tests of internal/worker.
use servitor.Prelude.{String, none, List, [], ◌∷◌}
use servitor.Prelude.Int.{pos}
use servitor.Value.{Value, str, end}
use servitor.Job.{NodeJob, stop, next, WaitContinuation}
use servitor.Honker.{waiting, Json, Store}
use servitor.Honker.Samples.{Op, job_of, store}
use servitor.Worker.{source_unreachable, secret_missing, Failure, ok, Harness, plain, World}

abbrev pub harness : Harness
harness = record {
  resolve = λ node names. ok (record { env = []; missing = [] });
  run = λ argv env input. ok (str "ran");
  self = "servitor";
  eval = λ expr input. ok (str expr);
  run_kind = λ type. plain;
  run_singer = λ sj state. ok (str "singer", none);
  run_mcp = λ sj. ok (str "mcp");
  after = λ text. none;
  at = λ text. none;
  secret_retries = 3;
  max_attempts = 5;
}

abbrev json_text : Value → String
json_text (str s) = s
json_text _ = "null"

abbrev pub json : Json
json = record { encode = json_text; decode = str }

abbrev pub world : World (List Op)
world = record { store = store; events = [] }

abbrev pub missing_secret : Failure
missing_secret = record { kind = secret_missing; text = "secret missing: TOKEN" }

abbrev pub unreachable : Failure
unreachable = record { kind = source_unreachable; text = "vault is down" }

-- A wait with one successor, and the store in which it is parked.
abbrev pub wait_job : NodeJob
wait_job = job_of "hold" ("last" ∷ []) (next (job_of "last" [] stop) stop)

abbrev pub continuation : WaitContinuation
continuation = record {
  run_id = "r";
  node_id = "hold";
  node_name = "hold";
  input = end;
  dependents = "last" ∷ [];
  downstream = next (job_of "last" [] stop) stop;
}

abbrev pub parked : Store (List Op)
parked = record store {
  runs = record { run_id = "r"; workflow_name = "w"; status = waiting; pending = pos 0 } ∷ [];
  suspended =
      record {
        run_id = "r";
        node_id = "hold";
        workflow_id = "w";
        signal_name = "go";
        run_at = pos 0;
        payload = continuation;
      }
      ∷ [];
}
