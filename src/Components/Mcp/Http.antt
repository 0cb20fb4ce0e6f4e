-- ===== src/Components/Mcp/Http.antt =====
-- The client of internal/components/mcp/http.go over Streamable HTTP. The endpoint is a parameter: what
-- it replies when it has got the posts so far, the last one just now.
use servitor.Prelude.{
  ℕ, suc, ltb, String, Bool, true, Option, none, some, List, [], ◌∷◌, ◌++◌, ◌⊎◌, inl, inr, str_eq,
  ◌||◌, if◌then◌else◌, ◌<>◌, ◌>>=◌, cut_prefix,
}
use servitor.Value.{Value, Fields, end}
use servitor.Components.Singer.{Lines}
use servitor.Components.Mcp.{RpcRequest, RpcResponse, response_of, Discovery, CallResult}
use servitor.Components.Mcp.Client.{Transport, discover, call}

pub record HttpConnector : Type 0 where
  pub url : String
  pub headers : List (String × String)

-- The headers in the order in which they are set: a later one replaces an earlier one of its name.
pub record Post : Type 0 where
  pub headers : List (String × String)
  pub request : RpcRequest

-- `session` and `content_type` are the headers of those names, empty where they are not there.
pub record HttpReply : Type 0 where
  pub status : ℕ
  pub status_line : String
  pub session : String
  pub content_type : String
  pub text : String

-- The error is one of the transport.
abbrev pub Endpoint : Type 0
Endpoint = String → List Post → String ⊎ HttpReply

pub record HttpClient : Type 0 where
  pub session : String
  pub next_id : ℕ
  pub posts : List Post

-- encoding/json, where `decode_first` reads the first value of a text, and the lines of a Scanner.
pub record HttpCodec : Type 0 where
  pub json : Lines
  pub decode_first : String → Option Value
  pub lines : String → List String

-- strings.Contains
unfoldable pub contains : String → String → Bool
unfolding cut_prefix
contains String.[] part = str_eq part ""
contains (String.◌∷◌ c s) part =
    let later = contains s part in
    elim (cut_prefix part (String.◌∷◌ c s)) [ some _ ↦ true | none ↦ later ]

-- The payloads of the lines that begin with `data:`, put together.
unfoldable pub sse_data : (String → String) → List String → String
unfolding cut_prefix
sse_data trim [] = ""
sse_data trim (line ∷ lines) =
    let rest = sse_data trim lines in
    elim (cut_prefix "data:" line) [
      | none ↦ rest
      | some d ↦ if str_eq (trim d) "[DONE]" then rest else trim d <> rest
    ]

abbrev decoded_response : String → Option Value → String ⊎ RpcResponse
decoded_response e v = elim (v >>= response_of) [ none ↦ inl e | some resp ↦ inr resp ]

module _ (codec : HttpCodec) where
  unfoldable pub read_sse : String → String ⊎ RpcResponse
  unfolding sse_data response_of
  read_sse text =
      let payload = sse_data codec.json.trim (codec.lines text) in
      if str_eq payload ""
      then inl "mcp http: empty SSE response"
      else decoded_response "mcp http: parse SSE data" (codec.json.decode payload)

  -- What roundtrip makes of a reply.
  unfoldable pub read_reply : HttpReply → String ⊎ RpcResponse
  unfolding read_sse response_of contains
  read_reply reply =
      if contains reply.content_type "text/event-stream"
      then read_sse reply.text
      else if ltb reply.status 200 || ltb 299 reply.status
      then inl ("mcp http: " <> reply.status_line <> ": " <> codec.json.trim reply.text)
      else decoded_response "mcp http: decode response" (codec.decode_first reply.text)

  module _ (endpoint : Endpoint) (conn : HttpConnector) where
    abbrev pub post_headers : HttpClient → List (String × String)
    post_headers c =
        ("Content-Type", "application/json")
        ∷ ("Accept", "application/json, text/event-stream")
        ∷ (conn.headers ++ (if str_eq c.session "" then [] else ("Mcp-Session-Id", c.session) ∷ []))

    -- The session of a reply is kept for the later posts.
    unfoldable pub post : RpcRequest → HttpClient → HttpClient × (String ⊎ HttpReply)
    post req c =
        let posts = c.posts ++ record { headers = post_headers c; request = req } ∷ [] in
        elim (endpoint conn.url posts) [
          | inl e ↦ (record c { posts = posts }, inl ("mcp http: " <> conn.url <> ": " <> e))
          | inr reply ↦ (
            record c {
              posts = posts;
              session = if str_eq reply.session "" then c.session else reply.session;
            },
            inr reply,
          )
        ]

    abbrev pub read_posted : HttpClient × (String ⊎ HttpReply) → HttpClient × (String ⊎ RpcResponse)
    read_posted (c, inl e) = (c, inl e)
    read_posted (c, inr reply) = (c, read_reply reply)

    unfoldable pub roundtrip : RpcRequest → HttpClient → HttpClient × (String ⊎ RpcResponse)
    unfolding post read_reply
    roundtrip req c = read_posted (post req c)

    unfoldable pub http_send :
        String → Fields → Fields → HttpClient → HttpClient × (String ⊎ RpcResponse)
    unfolding roundtrip
    http_send method params meta c =
        let id = suc c.next_id in
        roundtrip (record { id = some id; method = method; params = params; meta = meta })
          (record c { next_id = id })

    abbrev pub ignored : HttpClient × (String ⊎ HttpReply) → HttpClient × (String ⊎ Unit {0})
    ignored (c, inl e) = (c, inl e)
    ignored (c, inr _) = (c, inr tt)

    unfoldable pub http_notify : String → HttpClient → HttpClient × (String ⊎ Unit {0})
    unfolding post
    http_notify method c =
        ignored (post (record { id = none; method = method; params = end; meta = end }) c)

    abbrev pub http_transport : Transport HttpClient
    http_transport = record { prefix = "mcp http"; send = http_send; notify = http_notify }

    abbrev pub new_http_client : HttpClient
    new_http_client = record { session = ""; next_id = 0; posts = [] }

    unfoldable pub http_discover : String ⊎ Discovery
    unfolding discover
    http_discover = (discover http_transport new_http_client).1

    unfoldable pub http_call : String → String → Value → String ⊎ CallResult
    unfolding call
    http_call mode tool input = (call http_transport mode tool input new_http_client).1
