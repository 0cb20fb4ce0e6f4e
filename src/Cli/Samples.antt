-- ===== src/Cli/Samples.antt =====
-- The hidden commands of internal/cli/cli.go at small inputs, and the theorems at them.
use servitor.Prelude.{
  ◌≡◌, refl, String, List, [], ◌∷◌, some, none, inl, inr, str_eq, if◌then◌else◌, lookup, insert,
  cut_prefix, join,
}
use servitor.Prelude.Int.{pos, negsuc}
use servitor.Value.{
  Value, str, null, obj, Fields, end, field, index, as_map, string_or_empty, as_string,
}
use servitor.Job.{Head, head, stop}
use servitor.Honker.Samples.{queue, job_of}
use servitor.Worker.{Result, NodeEnv, ok, stringify}
use servitor.Components.Refs.{
  resolved, resolve_headers, env_values, substitute, before_equals, after_equals,
}
use servitor.Worker.Nodes.{run_switch, switch_payload}
use servitor.Worker.Samples.{harness, json}
use servitor.Components.Exec.{redact_env, redact_value, replace_text}
use servitor.Components.Exec.Run.{Subprocess}
use servitor.Components.Singer.{Lines, text_field}
use servitor.Components.Mcp.{
  response_of, int_field, error_field, call_result_of, blocks_field, all_maps, text_from_content,
  text_blocks,
}
use servitor.Components.Mcp.Http.{
  HttpConnector, http_call, http_send, roundtrip, post, read_reply, contains,
}
use servitor.Components.Mcp.Client.{call, enter, call_tool, unless_error}
use servitor.Components.Mcp.Node.{
  http_payload, run_mcp_http_node, tool_value, server_name, declared_connector, tool_name,
  secrets_env,
}
use servitor.Components.Mcp.Samples.{hit, answer_value}
use servitor.Cli.{timeout_of, with_content_type}
use servitor.Cli.Mcp.{call_result_value}
use servitor.Cli.Hidden.{Outside, run_binary, IsReadBack}
use servitor.Cli.Nodes.{over, branch_of, cases_of, default_of, run_switch-branch}
use servitor.Cli.Calls.{without_empty, run_mcp_http_node-calls}

half_a_minute : timeout_of (negsuc 0) ≡ 30000000000
unfolding timeout_of
half_a_minute = refl

-- 2^63 nanoseconds are 9,223,372,036 seconds and a bit.
too_long : timeout_of (pos 9223372037) ≡ 30000000000
unfolding timeout_of
too_long = refl

typed :
    with_content_type (("content-type", "text/plain") ∷ [])
    ≡ ("content-type", "text/plain") ∷ ("Content-Type", "application/json") ∷ []
unfolding with_content_type lookup insert
typed = refl

abbrev cases : Fields
cases = field "red" (str "stop") (field "green" (str "go") end)

abbrev switch_node : Head
switch_node = record (head (job_of "switch" [] stop)) {
  config = field "cases" (obj cases) (field "default" (str "wait") end);
  command = "servitor" ∷ "__switch" ∷ "steps.light" ∷ [];
}

-- It prints a text as it is, and knows what it needs of the rest.
abbrev lines : Value → Value → Lines
lines payload output = record {
  encode = λ v. elim v [
    | str s ↦ s
    | obj (field k w rest) ↦ if str_eq k "content" then "R" else "P"
    | _ ↦ "?"
  ];
  decode = λ s.
      if str_eq s "P" then some payload else if str_eq s "R" then some output else some (str s);
  trim = λ s. if str_eq s "go\n" then "go" else if str_eq s "R\n" then "R" else s;
}

abbrev outside : Value → Value → Outside
outside payload output = record {
  self = "servitor";
  codec = record {
    json = lines payload output;
    decode_first = λ s. some answer_value;
    lines = λ s. [];
  };
  json = json;
  eval = λ expr input. some (str "green");
  endpoint = λ url posts. inr (record {
    status = 200;
    status_line = "200 OK";
    session = "";
    content_type = "application/json";
    text = "2";
  });
  client = λ request. none;
  getenv = λ env name. "";
  fetch = λ host user password. none;
}

abbrev nothing_else : Subprocess
nothing_else argv env stdin = inl "not found"

abbrev switching : Outside
switching = outside (switch_payload switch_node) null

go-IsReadBack : IsReadBack switching [] (str "go")
unfolding redact_env
go-IsReadBack = record { kept = refl; full = refl; back = refl }

go_on :
    branch_of (cases_of switch_node) (default_of switch_node) (stringify json (str "green"))
    ≡ some "go"
unfolding branch_of index stringify as_map
go_on = refl

run_switch-branch_example :
    run_switch queue (over switching nothing_else harness) json switch_node ≡ ok "go"
run_switch-branch_example =
    run_switch-branch queue switching nothing_else harness switch_node "steps.light" "go"
      (str "green") [] refl refl refl go-IsReadBack refl go_on

abbrev connector : HttpConnector
connector = record { url = "https://x"; headers = ("Authorization", "Bearer $TOKEN") ∷ [] }

abbrev search_node : Head
search_node = record (head (job_of "search" [] stop)) {
  node_type = "mcp-http";
  config =
      field "server" (str "s") (field "tool" (str "search") (field "mode" (str "stateless") end));
}

abbrev searching : Outside
searching = outside (http_payload connector "search" null "stateless") (call_result_value hit)

token-IsReadBack : IsReadBack searching ("TOKEN=abc" ∷ []) (call_result_value hit)
unfolding redact_env before_equals after_equals redact_value replace_text cut_prefix
token-IsReadBack = record { kept = refl; full = refl; back = refl }

abbrev token_headers : List (String × String)
token_headers = ("Authorization", "Bearer abc") ∷ []

token_resolved :
    resolve_headers connector.headers ("TOKEN=abc" ∷ []) ≡ some (resolved token_headers)
unfolding resolve_headers env_values substitute lookup insert
token_resolved = refl

token_called :
    http_call searching.codec searching.endpoint
      (record { url = connector.url; headers = token_headers })
      "stateless"
      "search"
      null
    ≡ inr hit
unfolding http_call call enter call_tool unless_error http_send roundtrip post read_reply contains
    response_of int_field error_field text_field index call_result_of blocks_field all_maps
    text_from_content text_blocks as_string join
token_called = refl

abbrev token_env : String → List String → Result NodeEnv
token_env node names = ok (record { env = "TOKEN=abc" ∷ []; missing = [] })

named :
    server_name
      (λ s. s)
      token_env
      (run_binary searching nothing_else)
      "servitor"
      (("s", connector) ∷ [])
      search_node
    ≡ ok "s"
unfolding server_name index string_or_empty
named = refl

declared :
    declared_connector
      (λ s. s)
      token_env
      (run_binary searching nothing_else)
      "servitor"
      (("s", connector) ∷ [])
      "s"
    ≡ ok connector
unfolding declared_connector lookup
declared = refl

tooled : tool_name search_node ≡ ok "search"
unfolding tool_name index string_or_empty
tooled = refl

secrets : secrets_env token_env search_node ≡ ok ("TOKEN=abc" ∷ [])
unfolding secrets_env
secrets = refl

run_mcp_http_node-calls_example :
    run_mcp_http_node
      (λ s. s)
      token_env
      (run_binary searching nothing_else)
      "servitor"
      (("s", connector) ∷ [])
      search_node
    ≡ ok (tool_value (λ s. s) "search" (without_empty hit))
unfolding as_map string_or_empty index
run_mcp_http_node-calls_example =
    run_mcp_http_node-calls searching nothing_else (λ s. s) token_env (("s", connector) ∷ [])
      search_node "s" "search" connector ("TOKEN=abc" ∷ []) token_headers hit named declared tooled
      secrets refl token_resolved token_called token-IsReadBack
