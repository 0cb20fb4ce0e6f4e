-- ===== src/Lib.antt =====
-- Servitor runs workflows ("wafers"): graphs of nodes that run as subprocesses, with their state in a
-- SQLite file and their work in a queue beside it (honker-go).
--
-- The parts and how they interact. A wafer is parsed and its nodes are put in an order
-- (internal/wafer). A run is a row, one dependency count for each node, and one job in the queue for
-- each node that can start (internal/honker), which the runner makes from a validated wafer
-- (internal/runner) when a trigger fires (internal/trigger). The worker (internal/worker) claims a job, runs the node,
-- and in one transaction writes the result, counts down the dependents, enqueues those that are ready
-- and acks the claim. A `wait` node parks the run until a signal or a timer resumes it; a node that
-- fails is retried or dead-lettered. The daemon (internal/daemon) takes the requests of the command line:
-- it checks and stores workflows, keeps their schedules in step with their triggers, and starts,
-- cancels, reruns and resumes runs. Its config (internal/config) declares the secrets, which a resolver
-- routes to their providers (internal/components/secret).
--
-- The files:
--   Prelude: shared names, lists, dictionaries, signed integers, and tables as lists of rows.
--   Value: JSON values (`any` of the Go code), maps as fields in which the last write counts.
--   Components.Refs: internal/components/refs/refs.go; Names is about its cuts, Agreement about its two
--     scans, Identity and Outcome about what they yield.
--   Components.Exec: the environments of internal/components/exec/exec.go, which Declared is about, with Run in
--     Run.
--   Components.Secret: internal/components/secret: the resolver of secret.go (Routes is about it), env.go,
--     helpers.go and default.go; OnBox is the sealed store of onbox.go (with RoundTrip), Varlock varlock.go.
--   Components.Singer: internal/components/singer/singer.go, with runSingerNode of the worker; Streams is
--     about the records on their way from a tap to a target.
--   Components.Mcp: the messages of internal/components/mcp; Client is the session of mcp.go and http.go over
--     an interface of its two transports, Stdio and Http, whose laws Transports fills, and Node has
--     runMCPNode and runMCPHTTPNode of the worker. Conversation and Answers are about a call.
--   Registry: internal/registry/registry.go, with schema.go in Schema and example.go in Example; Parts is
--     about its lists.
--   Wafer: internal/wafer/wafer.go (fromRaw, ReferencedSecrets, copyMap); Text is Parse and Validate of a text.
--   Wafer.Validate: internal/wafer/validate.go, with the checks of a config in Parts, the edit distance
--     in Distance (as edit scripts in Distance.Scripts), suggestions in Nearest and JSON Pointers in
--     Pointer; Config and Accepts say when the checks add no error.
--   Wafer.DryRun: internal/wafer/dryrun.go.
--   Wafer.Dag: internal/wafer/dag.go (ResolveDAG); Edges and Deps are about its edges, Kahn and Run about
--     its loop, Resolve about its names, Order about its result.
--   Job: the job payload NodeJob of internal/worker/worker.go and the threaded input.
--   Honker: the tables of internal/honker as a record `Store`; Honker.Deps (deps.go, with FanIn and Total),
--     Honker.Tx (tx.go, with Steps and Commit), Honker.Runs (runs.go), Honker.Suspend (suspend.go),
--     Honker.Failed (failed.go), Honker.Registry (registry.go).
--   Runner: internal/runner/runner.go: FromWafer in Wire and Build, with StartRun in Start, Rerun in Rerun and the
--     registration of tasks in Schedule; Effects and Modes are about these.
--   Trigger: internal/trigger/trigger.go, with the signatures in Verify and the starting of runs in
--     Fire; Window and Guards are about these.
--   Worker: internal/worker; Nodes, Foreach, Failures and Handle are the handlers of worker.go, Wait and
--     Signals those of suspend.go; Nodes.Idempotency, Failures.Retries, Failures.Ends, Resume, Race (with
--     Pending, Steps and Orders) and Handle.Cancelled are about them. Env
--     is nodeEnv over the resolver of Components.Secret.
--   Config: internal/config/config.go, with Load and Save in Save (with RoundTrip) and the struct tags in
--     Yaml (with Read and RoundTrip); Secrets and Receivers are about its two other clients.
--   Daemon: the replies of internal/daemon/daemon.go; Schedule has its cron and email tasks (with Tasks),
--     Register the handlers that submit, update, enable and disable a workflow (with Armed, Toggled,
--     Guards and Refusals), Control those that trigger, run, cancel, rerun and resume (with Cancelled).
--   Cli: the hidden commands of internal/cli/cli.go, with cmdMCPHTTP in Mcp; Hidden is the binary as a
--     subprocess, and Nodes and Calls are about the worker's nodes that run over it.
--
-- How state is modelled. `Store` has a list of rows for each table, and an SQL statement is a function
-- on it (Prelude.Rows). A transaction is a function into an Option: `none` is an error, and `with_tx`
-- then keeps the old store. A handler takes a `World`: the store, and the calls of the daemon's
-- callbacks so far. Handlers are named after the Go functions, in snake case.
--
-- Parameters. `QueueLib` is honker-go, `Json` is encoding/json where the code compares texts, and
-- `Harness` holds the subprocesses, the secret resolver, the expressions, the clock, and the runs of
-- Singer and MCP nodes. The daemon's rerun callback is a parameter of handle_rerun_failed. `Crypto` is
-- the digests of Go's library, and `parse` wafer.Parse of a workflow's text. The clock is an
-- argument, and `Scheduler` is the scheduled tasks of honker-go. `Cipher` is AES-GCM, its random nonce and
-- the text encoding of the on-box store. The YAML package is a parameter of Wafer.Text and, but for
-- the struct tags, of Config.Yaml. `Lines`
-- is encoding/json for the lines of Singer and the commands, and `spawn` a subprocess. `McpServer` and
-- `Endpoint` are the MCP servers, as functions of what they were sent, and `Outside` is what the hidden
-- commands reach.
--
-- Fuel. Kahn's loop has one round for each node of the wafer; each round takes a node from the queue, a
-- node enters the queue at most once, and so the queue is empty at the end. The scans of a template
-- have one round for each character, and every round takes at least the dollar sign. FromWafer's jobs
-- are read out along the pointers to bodies, one step for each job: what needs more is a cycle, which
-- encoding/json refuses.
--
-- Not modelled: failures of the disk or of the database connection, log lines and error texts where
-- nothing reads them, the claim loop of the worker, the commands of a user and the daemon's socket, its
-- start and its handlers that only list or describe, and the discovery of taps and servers for the
-- report of capabilities.
pub mod Prelude
pub mod Value
pub mod Components
pub mod Registry
pub mod Job
pub mod Wafer
pub mod Honker
pub mod Runner
pub mod Worker
pub mod Trigger
pub mod Config
pub mod Daemon
pub mod Cli
