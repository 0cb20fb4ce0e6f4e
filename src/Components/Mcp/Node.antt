-- ===== src/Components/Mcp/Node.antt =====
-- runMCPNode and runMCPHTTPNode of internal/worker/worker.go. The call of a stdio server, the subprocess
-- of the HTTP call and the secrets of the node are parameters.
use servitor.Prelude.{
  String, true, false, Option, none, some, List, [], ◌∷◌, ◌⊎◌, inl, inr, str_eq, if◌then◌else◌,
  ◌<>◌, quote, join, lookup,
}
use servitor.Value.{
  Value, obj, arr, str, bool, null, Items, nil, cons, Fields, end, field, index, as_map,
  string_or_empty,
}
use servitor.Job.{Head}
use servitor.Worker.{NodeEnv, Result, ok, error, ◌>>=◌, plain_failure, secret_missing}
use servitor.Components.Mcp.{CallResult, StructuredError, as_structured_error}
use servitor.Components.Mcp.Stdio.{ServerRequest}
use servitor.Components.Mcp.Http.{HttpConnector}

-- A nil map is encoded as null.
abbrev pub map_or_null : Option Value → Value
map_or_null v = elim (as_map v) [ none ↦ null | some m ↦ obj m ]

abbrev pub blocks_value : Option Items → Value
blocks_value none = null
blocks_value (some xs) = arr xs

abbrev pub error_value : StructuredError → Value
error_value e = obj (
    field "ok" (bool false) (
      field "path" (str e.path) (
        field "code" (str e.code)
          (field "message" (str e.message) (field "suggestion" (str e.suggestion) end)))))

-- The result of a node whose tool has answered; `trim` is strings.TrimSpace.
unfoldable pub tool_value : (String → String) → String → CallResult → Value
unfolding as_structured_error
tool_value trim tool res =
    if res.is_error
    then error_value (as_structured_error trim tool res)
    else obj (
        field "ok" (bool true)
          (field "content" (str res.content) (field "data" (blocks_value res.blocks) end)))

-- The environment of the node, if no secret is missing.
unfoldable pub secrets_env : (String → List String → Result NodeEnv) → Head → Result (List String)
secrets_env resolve sj = do
  r ← resolve sj.node_name sj.secrets
  elim r.missing [
    | [] ↦ ok r.env
    | m ∷ ms ↦
        error (record { kind = secret_missing; text = "secret missing: " <> join (m ∷ ms) ", " })
  ]

unfoldable pub tool_name : Head → Result String
tool_name sj =
    let tool = string_or_empty (index "tool" sj.config) in
    if str_eq tool "" then error (plain_failure "node type requires a `tool` name") else ok tool

abbrev or_failure : {A : Type 0} → String ⊎ A → Result A
or_failure (inl e) = error (plain_failure e)
or_failure (inr a) = ok a

unfoldable pub run_mcp_stdio_node :
    (String → String)
    → (String → List String → Result NodeEnv)
    → (ServerRequest → String → Value → String ⊎ CallResult)
    → Head
    → Result Value
unfolding secrets_env tool_name tool_value
run_mcp_stdio_node trim resolve call sj = elim sj.command [
  | [] ↦ error (plain_failure ("node type " <> quote sj.node_type <> " has no command to run"))
  | c ∷ argv ↦ secrets_env resolve sj >>= λ env. tool_name sj >>= λ tool.
      or_failure (
        call
          (record {
            command = c ∷ argv;
            env = env;
            mode = string_or_empty (index "mode" sj.config);
          })
          tool (map_or_null (index "input" sj.config)))
      >>= λ res. ok (tool_value trim tool res)
]

unfoldable pub headers_value : List (String × String) → Fields
headers_value [] = end
headers_value ((k, v) ∷ rest) = field k (str v) (headers_value rest)

-- What the subprocess gets on its stdin.
abbrev pub http_payload : HttpConnector → String → Value → String → Value
http_payload conn tool input mode = obj (
    field "url" (str conn.url) (
      field "headers" (obj (headers_value conn.headers))
        (field "tool" (str tool) (field "input" input (field "mode" (str mode) end)))))

-- The elements of a decoded list of maps: what is no map stays nil.
unfoldable pub maps_of : Items → Items
maps_of nil = nil
maps_of (cons (obj m) rest) = cons (obj m) (maps_of rest)
maps_of (cons _ rest) = cons null (maps_of rest)

-- A CallResult decoded from the subprocess's output: a field of another type is left as it was.
unfoldable pub call_result_from : Value → CallResult
unfolding maps_of
call_result_from (obj m) = record {
  content = string_or_empty (index "content" m);
  blocks = elim (index "data" m) [ some (arr xs) ↦ some (maps_of xs) | _ ↦ none ];
  is_error = elim (index "isError" m) [ some (bool b) ↦ b | _ ↦ false ];
}
call_result_from _ = record { content = ""; blocks = none; is_error = false }

module _ (trim : String → String) (resolve : String → List String → Result NodeEnv)
    (run : List String → List String → Value → Result Value) (self : String)
    (connectors : List (String × HttpConnector)) where
  unfoldable pub declared_connector : String → Result HttpConnector
  unfolding lookup
  declared_connector server = elim (lookup server connectors) [
    | none ↦
        error (plain_failure ("mcp-http: no URL connector declared for server " <> quote server))
    | some conn ↦
        if str_eq conn.url ""
        then error
            (plain_failure ("mcp-http: no URL connector declared for server " <> quote server))
        else ok conn
  ]

  unfoldable pub server_name : Head → Result String
  server_name sj =
      let server = string_or_empty (index "server" sj.config) in
      if str_eq server ""
      then error (plain_failure "node type mcp-http requires a `server` name")
      else ok server

  unfoldable pub run_mcp_http_node : Head → Result Value
  unfolding server_name declared_connector tool_name secrets_env call_result_from tool_value
  run_mcp_http_node sj = server_name sj >>= λ server. declared_connector server >>= λ conn.
      tool_name sj >>= λ tool. secrets_env resolve sj >>= λ env.
      run (self ∷ "__mcp_http" ∷ []) env (
        http_payload conn tool (map_or_null (index "input" sj.config))
          (string_or_empty (index "mode" sj.config)))
      >>= λ output. ok (tool_value trim tool (call_result_from output))

  unfoldable pub run_mcp_node :
      (ServerRequest → String → Value → String ⊎ CallResult) → Head → Result Value
  unfolding run_mcp_http_node run_mcp_stdio_node
  run_mcp_node call sj =
      if str_eq sj.node_type "mcp-http"
      then run_mcp_http_node sj
      else run_mcp_stdio_node trim resolve call sj
