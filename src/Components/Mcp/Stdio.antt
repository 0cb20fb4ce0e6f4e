-- ===== src/Components/Mcp/Stdio.antt =====
-- The client of internal/components/mcp/mcp.go over a subprocess's stdin and stdout. The server is a
-- parameter: what it does when it has got the requests so far, the last one just now, which is an error
-- of the write or the lines that it writes before it waits for another request or closes.
use servitor.Prelude.{
  ℕ, suc, ◌==◌, String, Bool, false, Option, none, some, List, [], ◌∷◌, ◌++◌, ◌⊎◌, inl, inr, str_eq,
  if◌then◌else◌, ◌<>◌, ◌>>=◌,
}
use servitor.Prelude.Int.{ℤ, pos, negsuc}
use servitor.Value.{Value, Fields, end}
use servitor.Components.Singer.{Lines}
use servitor.Components.Mcp.{RpcRequest, RpcResponse, response_of, Discovery, CallResult}
use servitor.Components.Mcp.Client.{Transport, discover, call}

abbrev pub McpServer : Type 0
McpServer = List RpcRequest → String ⊎ List String

-- The client; `sent` is what it has sent, `unread` what the server has written and it has not read.
pub record Session : Type 0 where
  pub next_id : ℕ
  pub sent : List RpcRequest
  pub unread : List String

abbrev pub is_id : ℕ → ℤ → Bool
is_id n (pos m) = m == n
is_id n (negsuc m) = false

pub record ServerRequest : Type 0 where
  pub command : List String
  pub env : List String
  pub mode : String

module _ (codec : Lines) where
  -- The response of a line: none for a blank one, and for one that is no response.
  unfoldable pub response_in : String → Option RpcResponse
  unfolding response_of
  response_in line =
      if str_eq (codec.trim line) "" then none else (codec.decode (codec.trim line) >>= response_of)

  -- Whether a line is the response to the request of the id.
  unfoldable pub answer_in : ℕ → String → Option RpcResponse
  unfolding response_in
  answer_in id line = response_in line >>= λ resp. if is_id id resp.id then some resp else none

  -- The loop over the lines: the first response to the id, and the lines behind it.
  unfoldable pub await : ℕ → List String → Option (RpcResponse × List String)
  unfolding answer_in
  await id [] = none
  await id (line ∷ lines) =
      let rest = await id lines in
      elim (answer_in id line) [ none ↦ rest | some resp ↦ some (resp, lines) ]

  module _ (server : McpServer) where
    -- What is written stays written, also if the write reports an error.
    unfoldable pub write : RpcRequest → Session → Session × (String ⊎ Unit {0})
    write req s =
        let sent = s.sent ++ req ∷ [] in
        elim (server sent) [
          | inl e ↦ (record s { sent = sent }, inl e)
          | inr lines ↦ (record s { sent = sent; unread = s.unread ++ lines }, inr tt)
        ]

    abbrev pub received :
        String → Option (RpcResponse × List String) → Session → Session × (String ⊎ RpcResponse)
    received method none s =
        (record s { unread = [] }, inl ("mcp: server closed without responding to " <> method))
    received method (some (resp, rest)) s = (record s { unread = rest }, inr resp)

    abbrev pub read_answer :
        String → ℕ → Session × (String ⊎ Unit {0}) → Session × (String ⊎ RpcResponse)
    read_answer method id (s, inl e) = (s, inl e)
    read_answer method id (s, inr _) = received method (await id s.unread) s

    unfoldable pub send : String → Fields → Fields → Session → Session × (String ⊎ RpcResponse)
    unfolding write await
    send method params meta s =
        let id = s.next_id in
        read_answer method id (
          write (record { id = some id; method = method; params = params; meta = meta })
            (record s { next_id = suc id }))

    unfoldable pub notify : String → Session → Session × (String ⊎ Unit {0})
    unfolding write
    notify method s = write (record { id = none; method = method; params = end; meta = end }) s

    abbrev pub transport : Transport Session
    transport = record { prefix = "mcp"; send = send; notify = notify }

  abbrev pub fresh : Session
  fresh = record { next_id = 1; sent = []; unread = [] }

  -- `spawn` starts the subprocess.
  unfoldable pub start_server :
      (List String → List String → String ⊎ McpServer) → ServerRequest → String ⊎ McpServer
  start_server spawn req = elim req.command [
    | [] ↦ inl "mcp: empty command"
    | c ∷ argv ↦ spawn (c ∷ argv) req.env
  ]

  unfoldable pub discover_server :
      (List String → List String → String ⊎ McpServer) → ServerRequest → String ⊎ Discovery
  unfolding start_server discover
  discover_server spawn req = elim (start_server spawn req) [
    | inl e ↦ inl e
    | inr server ↦ (discover (transport server) fresh).1
  ]

  unfoldable pub call_server :
      (List String → List String → String ⊎ McpServer)
      → ServerRequest
      → String
      → Value
      → String ⊎ CallResult
  unfolding start_server call
  call_server spawn req tool input = elim (start_server spawn req) [
    | inl e ↦ inl e
    | inr server ↦ (call (transport server) req.mode tool input fresh).1
  ]
