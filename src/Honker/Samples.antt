-- ===== src/Honker/Samples.antt =====
-- A queue that records what it is asked, and small jobs and stores, for the tests of internal/honker and
-- internal/worker.
use servitor.Prelude.{ℕ, ◌==◌, String, Bool, none, some, List, [], ◌∷◌, ◌++◌, if◌then◌else◌}
use servitor.Prelude.Int.{ℤ, pos}
use servitor.Value.{end}
use servitor.Job.{Head, NodeJob, Jobs, no_body, job}
use servitor.Honker.{running, Claim, QueueLib, Store}

pub data Op : Type 0 where
  enqueued : String → Op
  timed : String → ℤ → Op
  acked : ℕ → Op
  retried : ℕ → ℕ → Op
  failed : ℕ → Op
  dropped : String → Op

abbrev pub id_of : NodeJob → String
id_of (job h _ _) = h.node_id

-- The claim 0 has expired.
abbrev pub queue : QueueLib
queue = record {
  Live = List Op;
  enqueue = λ j at live. some (live ++ enqueued (id_of j) ∷ []);
  ack = λ c live. if c.id == 0 then none else some (live ++ acked c.id ∷ []);
  retry = λ c delay live. live ++ retried c.id delay ∷ [];
  fail = λ c live. live ++ failed c.id ∷ [];
  drop_pending = λ run live. live ++ dropped run ∷ [];
}

abbrev pub claim : Claim
claim = record { id = 7; attempts = 1 }

abbrev pub expired : Claim
expired = record { id = 0; attempts = 1 }

abbrev pub head_of : String → List String → Head
head_of id deps = record {
  run_id = "r";
  workflow_id = "w";
  node_id = id;
  node_name = id;
  node_type = "shell";
  config = end;
  input = end;
  dedupe_key = "";
  command = "echo" ∷ [];
  secrets = [];
  skip = Bool.false;
  dependents = deps;
  body_as = "";
  rejoins = [];
  collect_from = "";
  collect_as = "";
  collect_count = 0;
  collect_name = "";
}

abbrev pub job_of : String → List String → Jobs → NodeJob
job_of id deps ds = job (head_of id deps) ds no_body

-- One run with a job in flight, and a join that waits for one more node.
abbrev pub store : Store (List Op)
store = record {
  node_results = [];
  node_dedupe = [];
  workflows = [];
  runs = record { run_id = "r"; workflow_name = "w"; status = running; pending = pos 1 } ∷ [];
  singer_state = [];
  run_deps =
      record { run_id = "r"; node_id = "join"; remaining = pos 2 }
      ∷ record { run_id = "r"; node_id = "last"; remaining = pos 1 }
      ∷ [];
  suspended = [];
  buffered = [];
  failed_continuations = [];
  live = [];
}
