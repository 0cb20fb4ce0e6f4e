-- ===== src/Components/Mcp/Samples.antt =====
-- A stateless server of one tool (internal/components/mcp), and the theorems at it.
use servitor.Prelude.{
  ◌≡◌, refl, String, true, false, [], ◌∷◌, some, none, inl, inr, str_eq, if◌then◌else◌, cut_prefix,
  join, quote,
}
use servitor.Prelude.Int.{pos}
use servitor.Value.{
  Value, str, null, int, obj, arr, nil, cons, Fields, end, field, index, as_string,
}
use servitor.Components.Singer.{Lines, text_field}
use servitor.Components.Mcp.{
  RpcResponse, CallResult, response_of, int_field, error_field, call_result_of, blocks_field,
  all_maps, text_from_content, text_blocks, meta, as_structured_error,
}
use servitor.Components.Mcp.Client.{
  call, call_params, is_answered, enter, probe, call_tool, unless_error,
}
use servitor.Components.Mcp.Stdio.{
  McpServer, Session, response_in, answer_in, await, write, send, transport, fresh,
}
use servitor.Components.Mcp.Http.{sse_data}
use servitor.Components.Mcp.Conversation.{list_request, tool_request, script_of, Said, call-says}
use servitor.Components.Mcp.Transports.{stdio-IsTransport}
use servitor.Components.Mcp.Answers.{call-answered}

abbrev pub found_text : String
found_text = "found"

abbrev pub text_block : Value
text_block = obj (field "type" (str "text") (field "text" (str found_text) end))

abbrev pub hit_value : Value
hit_value = obj (field "content" (arr (cons text_block nil)) end)

abbrev pub hit : CallResult
hit = record { content = found_text; blocks = some (cons text_block nil); is_error = false }

abbrev listed : Value
listed = obj (field "id" (int (pos 1)) (field "result" (obj end) end))

abbrev pub answer_value : Value
answer_value = obj (field "id" (int (pos 2)) (field "result" hit_value end))

abbrev codec : Lines
codec = record {
  encode = λ v. "v";
  decode =
      λ s. if str_eq s "1" then some listed else if str_eq s "2" then some answer_value else none;
  trim = λ s. s;
}

-- It answers the list, and then writes a line of its own before it answers the call.
abbrev server : McpServer
server [] = inl "closed"
server (r ∷ []) = inr ("1" ∷ [])
server (r ∷ q ∷ rest) = inr ("log" ∷ "1" ∷ "2" ∷ [])

abbrev final : Session
final = record {
  next_id = 3;
  sent = list_request 1 ∷ tool_request 2 "search" null meta ∷ [];
  unread = [];
}

called : call (transport codec server) "" "search" null (fresh codec) ≡ (final, inr hit)
unfolding call enter probe call_tool unless_error send write await answer_in response_in response_of
    int_field error_field text_field index call_result_of blocks_field all_maps text_from_content
    text_blocks as_string join
called = refl

call-says_example :
    Said
      (call (transport codec server) "" "search" null (fresh codec)).0.sent
      (script_of "" "search" null
        (is_answered ((transport codec server).send "tools/list" end meta (fresh codec)).1))
      (call (transport codec server) "" "search" null (fresh codec)).1
call-says_example =
    call-says (transport codec server) (stdio-IsTransport codec server) "" "search" null
      (fresh codec) refl refl

call-answered_example :
    (before : Session) × (m : Fields) × (resp : RpcResponse) × (send codec server "tools/call"
        (call_params "search" null)
        m
        before
      ≡ (final, inr resp))
    × (resp.id ≡ pos before.next_id)
    × (resp.error ≡ none)
    × (call_result_of resp.result ≡ some hit)
call-answered_example = call-answered codec server "" "search" null (fresh codec) called

-- Two events of a stream are read as one text.
merged : sse_data (λ s. s) ("data:{}" ∷ "" ∷ "data:{}" ∷ []) ≡ "{}{}"
unfolding sse_data cut_prefix
merged = refl

silent_error :
    (as_structured_error
      (λ s. s)
      "x"
      (record { content = ""; blocks = none; is_error = true })).message
    ≡ "mcp tool \"x\" reported an error"
unfolding as_structured_error quote
silent_error = refl
