-- ===== src/Cli/Nodes.antt =====
-- The switch of internal/worker/worker.go over its subprocess, cmdSwitchNode of internal/cli/cli.go.
use servitor.Prelude.{
  String, false, Option, none, some, List, [], ◌∷◌, ◌≡◌, refl, ap, str_eq, if◌then◌else◌, arith,
}
use servitor.Value.{Value, str, obj, null, Fields, end, index, as_map, string_or_empty}
use servitor.Job.{Head}
use servitor.Honker.{QueueLib, Json}
use servitor.Worker.{Harness, ok, spawn, stringify}
use servitor.Worker.Nodes.{switch_payload, target, run_switch}
use servitor.Components.Exec.Run.{Subprocess}
use servitor.Components.Singer.{text_field}
use servitor.Components.Mcp.{map_field}
use servitor.Cli.{prints, cmd_switch_node, chosen_case, struct_of}
use servitor.Cli.Hidden.{Outside, hidden, run_binary, IsReadBack, run_binary-prints}

-- The branch that a switch is to take: the text under the key, or the default without one.
unfoldable pub branch_of : Fields → String → String → Option String
branch_of cases default key = elim (index key cases) [
  | none ↦ if str_eq default "" then none else some default
  | some (str s) ↦ if str_eq s "" then none else some s
  | some _ ↦ none
]

abbrev pub fields_or_end : Option Fields → Fields
fields_or_end none = end
fields_or_end (some m) = m

abbrev pub cases_of : Head → Fields
cases_of sj = fields_or_end (as_map (index "cases" sj.config))

abbrev pub default_of : Head → String
default_of sj = string_or_empty (index "default" sj.config)

-- The worker's harness with its node subprocesses run by the binary.
abbrev pub over : Outside → Subprocess → Harness → Harness
over o others h = record h { run = run_binary o others; self = o.self }

chosen_case-branch_of :
    (json : Json) (cases : Fields) (default s : String) (v : Value)
    → branch_of cases default (stringify json v) ≡ some s
    → (chosen_case json cases default v ≡ prints (str s)) × (str_eq s "" ≡ false)
unfolding branch_of chosen_case
chosen_case-branch_of json cases default s v h = ground arith

-- The cases on their way to the subprocess and back.
map_field-or_null :
    (m : Option Fields)
    → map_field (some (elim m [ none ↦ null | some fields ↦ obj fields ])) ≡ some (fields_or_end m)
unfolding map_field
map_field-or_null none = refl
map_field-or_null (some m) = refl

cmd_switch_node-branch :
    (o : Outside) (sj : Head) (expr : String) (v : Value) (s : String)
    → o.codec.json.decode (o.codec.json.encode (switch_payload sj)) ≡ some (switch_payload sj)
    → o.eval expr (obj sj.input) ≡ some v
    → branch_of (cases_of sj) (default_of sj) (stringify o.json v) ≡ some s
    → cmd_switch_node o.codec.json o.eval o.json
        (expr ∷ [])
        (o.codec.json.encode (switch_payload sj))
      ≡ prints (str s)
unfolding cmd_switch_node index struct_of text_field
cmd_switch_node-branch o sj expr v s back value branch =
    let chosen = (chosen_case-branch_of o.json (cases_of sj) (default_of sj) s v branch).0 in
    rw (cmd_switch_node, back, map_field-or_null (as_map (index "cases" sj.config)), value) chosen

spawn-ok :
    (h : Harness) (sj : Head) (c : String) (argv env : List String) (input : Value)
    → h.resolve sj.node_name sj.secrets ≡ ok (record { env = env; missing = [] })
    → spawn h sj (c ∷ argv) input ≡ h.run (c ∷ argv) env input
unfolding spawn
spawn-ok h sj c argv env input found = rw (spawn, found) refl

-- A switch, run by the worker over its subprocess, chooses the branch that stands in its cases under the
-- text of the expression's value, or its default where none does, if this is a text that is not empty,
-- the secrets of the node are all there, JSON keeps what passes between the two, and redaction leaves
-- the output alone.
pub run_switch-branch :
    (lib : QueueLib) (o : Outside) (others : Subprocess) (h : Harness) (sj : Head) (expr s : String)
    (v : Value) (env : List String)
    → sj.command ≡ o.self ∷ "__switch" ∷ expr ∷ []
    → h.resolve sj.node_name sj.secrets ≡ ok (record { env = env; missing = [] })
    → o.codec.json.decode (o.codec.json.encode (switch_payload sj)) ≡ some (switch_payload sj)
    → IsReadBack o env (str s)
    → o.eval expr (obj sj.input) ≡ some v
    → branch_of (cases_of sj) (default_of sj) (stringify o.json v) ≡ some s
    → run_switch lib (over o others h) o.json sj ≡ ok s
unfolding run_switch hidden target
run_switch-branch lib o others h sj expr s v env command found back read value branch =
    let ran =
      run_binary-prints o others "__switch" (expr ∷ []) env (switch_payload sj) (str s)
        (ap some (cmd_switch_node-branch o sj expr v s back value branch)) read in
    let full = (chosen_case-branch_of o.json (cases_of sj) (default_of sj) s v branch).1 in
    let spawned =
      spawn-ok (over o others h) sj o.self ("__switch" ∷ expr ∷ []) env (switch_payload sj) found in
    rw (run_switch, command, spawned, ran, full) refl
