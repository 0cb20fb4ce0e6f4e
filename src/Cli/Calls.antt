-- ===== src/Cli/Calls.antt =====
-- runMCPHTTPNode of internal/worker/worker.go over its subprocess, cmdMCPHTTP of internal/cli/cli.go.
use servitor.Prelude.{
  String, Bool, true, Option, none, some, List, [], ◌∷◌, ◌≡◌, refl, ap, subst, Bool-cases, inl, inr,
  ◌⊎◌, >>=-eq-some,
}
use servitor.Value.{
  Value, str, obj, null, bool, Fields, index, as_map, string_or_empty, Items, nil, cons, arr,
}
use servitor.Job.{Head}
use servitor.Worker.{NodeEnv, Result, ok}
use servitor.Components.Refs.{resolved, resolve_headers}
use servitor.Components.Exec.Run.{Subprocess}
use servitor.Components.Singer.{text_field}
use servitor.Components.Mcp.{
  map_field, CallResult, call_result_of, all_maps, blocks_field, bool_field,
}
use servitor.Components.Mcp.Client.{call}
use servitor.Components.Mcp.Http.{HttpConnector, http_call, http_transport, new_http_client}
use servitor.Components.Mcp.Answers.{call-inv}
use servitor.Components.Mcp.Node.{
  map_or_null, headers_value, http_payload, maps_of, call_result_from, declared_connector,
  server_name, tool_name, secrets_env, tool_value, run_mcp_http_node,
}
use servitor.Cli.{prints, struct_of, text_map_field, texts_of}
use servitor.Cli.Mcp.{call_result_value, input_field, cmd_mcp_http}
use servitor.Cli.Hidden.{Outside, hidden, run_binary, IsReadBack, run_binary-prints}

-- On the way through the subprocess an empty list of blocks is dropped.
abbrev pub without_empty : CallResult → CallResult
without_empty res = record res {
  blocks = elim res.blocks [ none ↦ none | some nil ↦ none | some (cons b bs) ↦ some (cons b bs) ];
}

abbrev AllMaps : Option Items → Type 0
AllMaps none = Unit
AllMaps (some xs) = all_maps xs ≡ true

maps_of-all_maps : (xs : Items) → all_maps xs ≡ true → maps_of xs ≡ xs
unfolding maps_of all_maps
maps_of-all_maps nil h = refl
maps_of-all_maps (cons (obj m) rest) h = ap (λ t. cons (obj m) t) (maps_of-all_maps rest h)
maps_of-all_maps (cons null rest) h = ap (λ t. cons null t) (maps_of-all_maps rest h)
maps_of-all_maps (cons (arr x) rest) h = absurd cc
maps_of-all_maps (cons (str x) rest) h = absurd cc
maps_of-all_maps (cons (Value.float x) rest) h = absurd cc
maps_of-all_maps (cons (Value.int x) rest) h = absurd cc
maps_of-all_maps (cons (bool x) rest) h = absurd cc

blocks_field-AllMaps :
    (v : Option Value) {blocks : Option Items} → blocks_field v ≡ some blocks → AllMaps blocks
unfolding blocks_field
blocks_field-AllMaps none {blocks = blocks} h =
    let same : ◌≡◌ {A = Option Items} none blocks = cc in subst AllMaps same tt
blocks_field-AllMaps (some null) {blocks = blocks} h =
    let same : ◌≡◌ {A = Option Items} none blocks = cc in subst AllMaps same tt
blocks_field-AllMaps (some (arr xs)) {blocks = blocks} h = elim (Bool-cases (all_maps xs)) [
  | inl e ↦
      let eq : some (some xs) ≡ some blocks = rw (blocks_field, e) at h in
      let same : some xs ≡ blocks = cc in subst AllMaps same e
  | inr e ↦ let eq : none ≡ some blocks = rw (blocks_field, e) at h in absurd cc
]
blocks_field-AllMaps (some (obj x)) h = absurd cc
blocks_field-AllMaps (some (str x)) h = absurd cc
blocks_field-AllMaps (some (Value.float x)) h = absurd cc
blocks_field-AllMaps (some (Value.int x)) h = absurd cc
blocks_field-AllMaps (some (bool x)) h = absurd cc

call_result_of-AllMaps :
    (v : Option Value) {res : CallResult} → call_result_of v ≡ some res → AllMaps res.blocks
unfolding call_result_of
call_result_of-AllMaps (some (obj m)) {res = res} h =
    let (blocks, found, rest) = >>=-eq-some (blocks_field (index "content" m)) _ h in
    let (b, found', made) = >>=-eq-some (bool_field (index "isError" m)) _ rest in
    let same : blocks ≡ res.blocks = cc in
    subst AllMaps same (blocks_field-AllMaps (index "content" m) found)
call_result_of-AllMaps (some null) {res = res} h =
    let same : ◌≡◌ {A = Option Items} none res.blocks = cc in subst AllMaps same tt
call_result_of-AllMaps none h = absurd cc
call_result_of-AllMaps (some (arr x)) h = absurd cc
call_result_of-AllMaps (some (str x)) h = absurd cc
call_result_of-AllMaps (some (Value.float x)) h = absurd cc
call_result_of-AllMaps (some (Value.int x)) h = absurd cc
call_result_of-AllMaps (some (bool x)) h = absurd cc

parts-round :
    (content : String) (blocks : Option Items) (is_error : Bool)
    → AllMaps blocks
    → call_result_from
        (call_result_value (record { content = content; blocks = blocks; is_error = is_error }))
      ≡ without_empty (record { content = content; blocks = blocks; is_error = is_error })
unfolding call_result_from index string_or_empty
parts-round content none is_error maps = refl
parts-round content (some nil) is_error maps = refl
parts-round content (some (cons b bs)) is_error maps = rw (maps_of-all_maps (cons b bs) maps) refl

call_result_from-value :
    (res : CallResult)
    → AllMaps res.blocks
    → call_result_from (call_result_value res) ≡ without_empty res
call_result_from-value res maps = parts-round res.content res.blocks res.is_error maps

texts_of-headers_value : (hs : List (String × String)) → texts_of (headers_value hs) ≡ some hs
unfolding texts_of headers_value text_field
texts_of-headers_value [] = refl
texts_of-headers_value ((k, v) ∷ rest) = rw (texts_of-headers_value rest) refl

http_call-AllMaps :
    (o : Outside) (conn : HttpConnector) (mode tool : String) (input : Value) {res : CallResult}
    → http_call o.codec o.endpoint conn mode tool input ≡ inr res
    → AllMaps res.blocks
unfolding http_call
http_call-AllMaps o conn mode tool input h =
    let t = http_transport o.codec o.endpoint conn in
    let (before, m, resp, sent, fine, found) =
      call-inv t mode tool input (new_http_client o.codec o.endpoint conn) (
        ap
          (λ (x : String ⊎ CallResult).
            ((call t mode tool input (new_http_client o.codec o.endpoint conn)).0, x))
          h) in
    call_result_of-AllMaps resp.result found

input_field-or_null :
    (m : Option Fields)
    → let v = elim m as (λ _. Value) [ none ↦ null | some fields ↦ obj fields ] in
      input_field (some v) ≡ some v
unfolding input_field
input_field-or_null none = refl
input_field-or_null (some m) = refl

cmd_mcp_http-answers :
    (o : Outside) (conn : HttpConnector) (tool mode : String) (iv : Option Value)
    (env : List String) (hs : List (String × String)) {res : CallResult}
    → let payload = http_payload conn tool (map_or_null iv) mode in
      o.codec.json.decode (o.codec.json.encode payload) ≡ some payload
      → resolve_headers conn.headers env ≡ some (resolved hs)
      → http_call o.codec o.endpoint
          (record { url = conn.url; headers = hs })
          mode
          tool
          (map_or_null iv)
        ≡ inr res
      → cmd_mcp_http o.codec o.endpoint [] env (o.codec.json.encode payload)
        ≡ prints (call_result_value res)
unfolding cmd_mcp_http index struct_of map_field text_map_field text_field
cmd_mcp_http-answers o conn tool mode iv env hs back headers called =
    rw
      (
        cmd_mcp_http,
        back,
        texts_of-headers_value conn.headers,
        input_field-or_null (as_map iv),
        headers,
        called,
      )
      refl

-- An mcp-http node, run by the worker over its subprocess, has the result that a call of its connector
-- yields, with the connector's headers resolved in the node's environment, but for an empty list of
-- blocks, which the way back drops. The node names a declared connector and a tool, its secrets are
-- all there, JSON keeps what passes between the two, and redaction leaves the output alone.
pub run_mcp_http_node-calls :
    (o : Outside) (others : Subprocess) (trim : String → String)
    (resolve : String → List String → Result NodeEnv) (connectors : List (String × HttpConnector))
    (sj : Head) (server tool : String) (conn : HttpConnector) (env : List String)
    (hs : List (String × String)) (res : CallResult)
    → let run = run_binary o others in
      let mode = string_or_empty (index "mode" sj.config) in
      let input = map_or_null (index "input" sj.config) in
      let payload = http_payload conn tool input mode in
      server_name trim resolve run o.self connectors sj ≡ ok server
      → declared_connector trim resolve run o.self connectors server ≡ ok conn
      → tool_name sj ≡ ok tool
      → secrets_env resolve sj ≡ ok env
      → o.codec.json.decode (o.codec.json.encode payload) ≡ some payload
      → resolve_headers conn.headers env ≡ some (resolved hs)
      → http_call o.codec o.endpoint (record { url = conn.url; headers = hs }) mode tool input
        ≡ inr res
      → IsReadBack o env (call_result_value res)
      → run_mcp_http_node trim resolve run o.self connectors sj
        ≡ ok (tool_value trim tool (without_empty res))
unfolding run_mcp_http_node hidden
run_mcp_http_node-calls o others trim resolve connectors sj server tool conn env hs res named
      declared tooled secrets back headers called read =
    let mode = string_or_empty (index "mode" sj.config) in
    let input = map_or_null (index "input" sj.config) in
    let answers =
      cmd_mcp_http-answers o conn tool mode (index "input" sj.config) env hs back headers called in
    let ran =
      run_binary-prints o others "__mcp_http" [] env (http_payload conn tool input mode)
        (call_result_value res) (ap some answers) read in
    let blocks =
      http_call-AllMaps o (record { url = conn.url; headers = hs }) mode tool input called in
    rw (run_mcp_http_node, named, declared, tooled, secrets, ran)
      (ap (λ (r : CallResult). ok (tool_value trim tool r)) (call_result_from-value res blocks))
