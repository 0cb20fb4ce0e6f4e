-- ===== src/Cli/Hidden.antt =====
-- The servitor binary as a subprocess: the hidden commands of Run of internal/cli/cli.go. What they get
-- from outside is the record `Outside`.
use servitor.Prelude.{
  String, true, false, Option, none, some, List, ◌∷◌, ◌⊎◌, inl, inr, str_eq, if◌then◌else◌, ◌<>◌,
  itoa, ◌≡◌, refl, str_eq_iff,
}
use servitor.Value.{Value}
use servitor.Honker.{Json}
use servitor.Worker.{Result, ok, error, plain_failure}
use servitor.Components.Exec.{redact_env}
use servitor.Components.Exec.Run.{Subprocess, run_request, read_output, stdin_of}
use servitor.Components.Mcp.Http.{Endpoint, HttpCodec}
use servitor.Cli.{
  Exit, prints, stops, HttpRequest, HttpResponse, cmd_transform_node, cmd_eval_node,
  cmd_foreach_node, cmd_switch_node, cmd_http_node, cmd_email_poll,
}
use servitor.Cli.Mcp.{cmd_mcp_http}

pub record Outside : Type 0 where
  -- `selfexe.Path()`
  pub self : String
  pub codec : HttpCodec
  pub json : Json
  pub eval : String → Value → Option Value
  pub endpoint : Endpoint
  pub client : HttpRequest → Option HttpResponse
  pub getenv : List String → String → String
  pub fetch : String → String → String → Option Value

module _ (o : Outside) where
  -- `none` is a command that is not a hidden one.
  unfoldable pub hidden : String → List String → List String → String → Option Exit
  unfolding cmd_transform_node cmd_eval_node cmd_foreach_node cmd_switch_node cmd_http_node
      cmd_email_poll cmd_mcp_http
  hidden name args env stdin =
      if str_eq name "__transform"
      then some (cmd_transform_node o.codec.json o.eval args stdin)
      else if str_eq name "__switch"
      then some (cmd_switch_node o.codec.json o.eval o.json args stdin)
      else if str_eq name "__foreach"
      then some (cmd_foreach_node o.codec.json o.eval args stdin)
      else if str_eq name "__email_poll"
      then some (cmd_email_poll o.codec.json env (o.getenv env) o.fetch args stdin)
      else if str_eq name "__mcp_http"
      then some (cmd_mcp_http o.codec o.endpoint args env stdin)
      else if str_eq name "__http"
      then some (cmd_http_node o.codec.json env o.client args)
      else if str_eq name "__eval"
      then some (cmd_eval_node o.codec.json o.eval args stdin)
      else none

  -- A value is printed on a line of its own.
  abbrev pub stdout_of : Exit → String ⊎ String
  stdout_of (prints v) = inr (o.codec.json.encode v <> "\n")
  stdout_of (stops code) = inl ("exit status " <> itoa code)

  -- The binary, run with an argv that names a hidden command; `others` is any other subprocess.
  unfoldable pub binary : Subprocess → Subprocess
  unfolding hidden
  binary others (program ∷ name ∷ args) env stdin =
      if str_eq program o.self
      then (elim (hidden name args env stdin) [
        | none ↦ others (program ∷ name ∷ args) env stdin
        | some exit ↦ stdout_of exit
      ])
      else others (program ∷ name ∷ args) env stdin
  binary others argv env stdin = others argv env stdin

  abbrev pub outcome : String ⊎ Value → Result Value
  outcome (inl e) = error (plain_failure e)
  outcome (inr v) = ok v

  -- What the worker's runner makes of a command of the binary.
  unfoldable pub run_binary : Subprocess → List String → List String → Value → Result Value
  unfolding binary run_request
  run_binary others argv env input =
      outcome (run_request o.codec.json (binary others) argv env input)

-- What encoding/json and the redaction promise of a value that the binary prints: it is read back, and
-- its text holds no secret of the environment.
pub record IsReadBack (o : Outside) (env : List String) (v : Value) : Type 0 where
  pub kept :
      redact_env env (o.codec.json.trim (o.codec.json.encode v <> "\n")) ≡ o.codec.json.encode v
  pub full : str_eq (o.codec.json.encode v) "" ≡ false
  pub back : o.codec.json.decode (o.codec.json.encode v) ≡ some v

binary-hidden :
    (o : Outside) (others : Subprocess) (name : String) (args env : List String) (stdin : String)
    {exit : Exit}
    → hidden o name args env stdin ≡ some exit
    → binary o others (o.self ∷ name ∷ args) env stdin ≡ stdout_of o exit
unfolding binary
binary-hidden o others name args env stdin ran =
    let own : str_eq o.self o.self ≡ true = (str_eq_iff o.self o.self).1 refl in
    rw (binary, own, ran) refl

read_output-back :
    (o : Outside) (env : List String) (v : Value)
    → IsReadBack o env v
    → read_output o.codec.json env (o.codec.json.encode v <> "\n") ≡ inr v
unfolding read_output
read_output-back o env v back = rw (read_output, back.kept, back.full, back.back) refl

pub run_binary-prints :
    (o : Outside) (others : Subprocess) (name : String) (args env : List String) (input v : Value)
    → hidden o name args env (stdin_of o.codec.json input) ≡ some (prints v)
    → IsReadBack o env v
    → run_binary o others (o.self ∷ name ∷ args) env input ≡ ok v
unfolding run_binary run_request
run_binary-prints o others name args env input v printed back =
    rw
      (
        run_binary,
        run_request,
        binary-hidden o others name args env (stdin_of o.codec.json input) printed,
        read_output-back o env v back,
      )
      refl
