-- ===== src/Cli/Mcp.antt =====
-- cmdMCPHTTP of internal/cli/cli.go.
use servitor.Prelude.{String, Option, none, some, List, [], ◌⊎◌, inl, inr}
use servitor.Value.{Value, obj, arr, str, bool, null, nil, cons, end, field, index}
use servitor.Components.Refs.{resolved, in_header, resolve_headers}
use servitor.Components.Singer.{text_field}
use servitor.Components.Mcp.{CallResult}
use servitor.Components.Mcp.Http.{Endpoint, HttpCodec, http_call}
use servitor.Cli.{Exit, prints, stops, exit_failure, exit_usage, or_stop, struct_of, text_map_field}

-- A CallResult as it is encoded: an empty list of blocks is left out.
abbrev pub call_result_value : CallResult → Value
call_result_value res =
    let rest = field "isError" (bool res.is_error) end in
    obj (
      field "content" (str res.content) (elim res.blocks [
        | none ↦ rest
        | some nil ↦ rest
        | some (cons b bs) ↦ field "data" (arr (cons b bs)) rest
      ]))

-- The input is a map: a nil one goes on as null.
unfoldable pub input_field : Option Value → Option Value
input_field none = some null
input_field (some null) = some null
input_field (some (obj m)) = some (obj m)
input_field (some _) = none

module _ (codec : HttpCodec) (endpoint : Endpoint) where
  abbrev pub printed : String ⊎ CallResult → Exit
  printed (inl e) = stops exit_failure
  printed (inr res) = prints (call_result_value res)

  unfoldable pub cmd_mcp_http : List String → List String → String → Exit
  unfolding struct_of text_field text_map_field input_field resolve_headers http_call
  cmd_mcp_http [] env stdin = or_stop (struct_of (codec.json.decode stdin)) λ payload.
      or_stop (text_field (index "url" payload)) λ url.
        or_stop (text_map_field (index "headers" payload)) λ templates.
          or_stop (text_field (index "tool" payload)) λ tool.
            or_stop (input_field (index "input" payload)) λ input.
              or_stop (text_field (index "mode" payload)) λ mode.
                or_stop (resolve_headers templates env) λ r. elim r [
                  | in_header header secret ↦ stops exit_failure
                  | resolved headers ↦ printed (
                      http_call codec endpoint (record { url = url; headers = headers }) mode tool
                        input)
                ]
  cmd_mcp_http _ env stdin = stops exit_usage
