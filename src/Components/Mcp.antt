-- ===== src/Components/Mcp.antt =====
-- The messages of internal/components/mcp/mcp.go: JSON-RPC requests and responses, and the results of
-- the methods. A response is decoded in two steps: encoding/json, a parameter, yields a value, and the
-- functions below take the fields of Go's structs from it; a JSON key matches a field by its exact name.
pub mod Client
pub mod Stdio
pub mod Http
pub mod Node
pub mod Conversation
pub mod Transports
pub mod Answers
pub mod Samples
use servitor.Prelude.{
  ℕ, String, Bool, true, false, Option, none, some, List, [], ◌∷◌, ◌⊎◌, inl, inr, str_eq, ◌&&◌,
  if◌then◌else◌, ◌<>◌, quote, join, ◌>>=◌,
}
use servitor.Prelude.Int.{ℤ, pos}
use servitor.Value.{
  Value, obj, arr, str, bool, int, null, Items, nil, cons, Fields, end, field, index, as_string,
}
use servitor.Components.Singer.{text_field}

-- The modes are texts: one of no known mode is carried as it is.
abbrev pub mode_unknown : String
mode_unknown = ""

abbrev pub mode_stateless : String
mode_stateless = "stateless"

abbrev pub mode_classic : String
mode_classic = "classic"

-- A map that is empty is left out of the message, as a nil one is.
pub record RpcRequest : Type 0 where
  pub id : Option ℕ
  pub method : String
  pub params : Fields
  pub meta : Fields

pub record RpcError : Type 0 where
  pub code : ℤ
  pub message : String

pub record RpcResponse : Type 0 where
  pub id : ℤ
  pub result : Option Value
  pub error : Option RpcError

-- A field of type int: one that is not there, or null, is zero, and one of another type an error.
unfoldable pub int_field : Option Value → Option ℤ
int_field none = some (pos 0)
int_field (some null) = some (pos 0)
int_field (some (int z)) = some z
int_field (some _) = none

unfoldable pub error_field : Option Value → Option (Option RpcError)
unfolding int_field text_field
error_field none = some none
error_field (some null) = some none
error_field (some (obj m)) = int_field (index "code" m) >>= λ code.
    text_field (index "message" m) >>= λ message.
    some (some (record { code = code; message = message }))
error_field (some _) = none

unfoldable pub response_of : Value → Option RpcResponse
unfolding int_field error_field text_field
response_of (obj m) = text_field (index "jsonrpc" m) >>= λ _. int_field (index "id" m) >>= λ id.
    error_field (index "error" m) >>= λ error.
    some (record { id = id; result = index "result" m; error = error })
response_of null = some (record { id = pos 0; result = none; error = none })
response_of _ = none

abbrev client_info : Fields
client_info = field "name" (str "servitor") (field "version" (str "0") end)

abbrev about : String → Fields
about version =
    field "protocolVersion" (str version)
      (field "capabilities" (obj end) (field "clientInfo" (obj client_info) end))

-- What rides on each request of the stateless protocol.
abbrev pub meta : Fields
meta = about "2026-07-28"

abbrev pub initialize_params : Fields
initialize_params = about "2025-06-18"

pub record Tool : Type 0 where
  pub name : String
  pub description : String
  pub input_schema : Fields

pub record Discovery : Type 0 where
  pub mode : String
  pub tools : List Tool

-- A field of type map[string]any.
unfoldable pub map_field : Option Value → Option Fields
map_field none = some end
map_field (some null) = some end
map_field (some (obj m)) = some m
map_field (some _) = none

tool_of : Value → Option Tool
unfolding map_field text_field
tool_of (obj m) = text_field (index "name" m) >>= λ name.
    text_field (index "description" m) >>= λ description.
    map_field (index "inputSchema" m) >>= λ schema.
    some (record { name = name; description = description; input_schema = schema })
tool_of null = some (record { name = ""; description = ""; input_schema = end })
tool_of _ = none

tool_list : Items → Option (List Tool)
unfolding tool_of
tool_list nil = some []
tool_list (cons v rest) =
    let others = tool_list rest in tool_of v >>= λ tool. others >>= λ tools. some (tool ∷ tools)

-- The result of tools/list; a result that is not there is no JSON text.
unfoldable pub tools_of : Option Value → Option (List Tool)
unfolding tool_list
tools_of (some (obj m)) = elim (index "tools" m) [
  | none ↦ some []
  | some null ↦ some []
  | some (arr xs) ↦ tool_list xs
  | some _ ↦ none
]
tools_of (some null) = some []
tools_of _ = none

-- `blocks` is the field Data, `none` a nil slice; its elements are maps, of which null is the nil one.
pub record CallResult : Type 0 where
  pub content : String
  pub blocks : Option Items
  pub is_error : Bool

unfoldable pub all_maps : Items → Bool
all_maps nil = true
all_maps (cons (obj m) rest) = all_maps rest
all_maps (cons null rest) = all_maps rest
all_maps (cons _ rest) = false

unfoldable pub blocks_field : Option Value → Option (Option Items)
unfolding all_maps
blocks_field none = some none
blocks_field (some null) = some none
blocks_field (some (arr xs)) = if all_maps xs then some (some xs) else none
blocks_field (some _) = none

pub bool_field : Option Value → Option Bool
bool_field none = some false
bool_field (some null) = some false
bool_field (some (bool b)) = some b
bool_field (some _) = none

unfoldable pub text_blocks : Items → List String
text_blocks nil = []
text_blocks (cons (obj b) rest) =
    let others = text_blocks rest in
    elim (as_string (index "type" b)) [
      | none ↦ others
      | some t ↦ elim (as_string (index "text" b)) [
        | none ↦ others
        | some s ↦ if str_eq t "text" then s ∷ others else others
      ]
    ]
text_blocks (cons _ rest) = text_blocks rest

unfoldable pub text_from_content : Option Items → String
unfolding text_blocks
text_from_content none = ""
text_from_content (some blocks) = join (text_blocks blocks) "\n"

-- The result of tools/call.
unfoldable pub call_result_of : Option Value → Option CallResult
unfolding blocks_field bool_field text_from_content
call_result_of (some (obj m)) = blocks_field (index "content" m) >>= λ blocks.
    bool_field (index "isError" m) >>= λ is_error.
    some (record { content = text_from_content blocks; blocks = blocks; is_error = is_error })
call_result_of (some null) = some (record { content = ""; blocks = none; is_error = false })
call_result_of _ = none

pub record StructuredError : Type 0 where
  pub path : String
  pub code : String
  pub message : String
  pub suggestion : String

-- `trim` is strings.TrimSpace.
unfoldable pub as_structured_error : (String → String) → String → CallResult → StructuredError
as_structured_error trim tool res = record {
  path = "/tool";
  code = "mcp_tool_error";
  message =
      if str_eq (trim res.content) ""
      then "mcp tool " <> quote tool <> " reported an error"
      else trim res.content;
  suggestion = "check the tool arguments and the server's error output";
}
