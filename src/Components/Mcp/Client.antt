-- ===== src/Components/Mcp/Client.antt =====
-- The session of a client with a server: `initialize`, `probe`, `listTools`, `Discover` and `Call` of
-- internal/components/mcp/mcp.go and of http.go beside it, which are the same over their two
-- transports.
use servitor.Prelude.{
  ℕ, suc, String, Bool, true, false, Option, none, some, List, [], ◌∷◌, ◌++◌, ◌⊎◌, inl, inr, ◌≡◌,
  str_eq, if◌then◌else◌, ◌<>◌,
}
use servitor.Value.{Value, str, Fields, end, field}
use servitor.Components.Mcp.{
  mode_unknown, mode_stateless, mode_classic, RpcRequest, RpcResponse, meta, initialize_params,
  Tool, Discovery, tools_of, CallResult, call_result_of,
}

-- A step of a session: an error, or a value.
abbrev pub Rpc : Type 0 → Type 0 → Type 0
Rpc S A = S → S × (String ⊎ A)

abbrev pub after : {S A B : Type 0} → S × (String ⊎ A) → (A → Rpc S B) → S × (String ⊎ B)
after (s, inl e) f = (s, inl e)
after (s, inr a) f = f a s

infixl 5 ◌>>=◌
abbrev ◌>>=◌ : {S A B : Type 0} → Rpc S A → (A → Rpc S B) → Rpc S B
m >>= f = λ s. after (m s) f

abbrev ok : {S A : Type 0} → A → Rpc S A
ok a = λ s. (s, inr a)

abbrev fail : {S A : Type 0} → String → Rpc S A
fail e = λ s. (s, inl e)

-- `send` takes the method, the params and the meta, and `notify` the method of a message without an id.
-- `prefix` is what the errors begin with.
pub record Transport (S : Type 0) : Type 0 where
  pub prefix : String
  pub send : String → Fields → Fields → Rpc S RpcResponse
  pub notify : String → Rpc S (Unit {0})

-- What a transport promises: the requests leave in the order of the calls, those with an id numbered
-- one after another.
pub record IsTransport {S : Type 0} (t : Transport S) : Type 0 where
  pub sent : S → List RpcRequest
  pub next_id : S → ℕ
  pub sent-send :
      (method : String) (params m : Fields) (s : S)
      → sent (t.send method params m s).0
        ≡ sent s
          ++ record { id = some (next_id s); method = method; params = params; meta = m } ∷ []
  pub next_id-send :
      (method : String) (params m : Fields) (s : S)
      → next_id (t.send method params m s).0 ≡ suc (next_id s)
  pub sent-notify :
      (method : String) (s : S)
      → sent (t.notify method s).0
        ≡ sent s ++ record { id = none; method = method; params = end; meta = end } ∷ []
  pub next_id-notify : (method : String) (s : S) → next_id (t.notify method s).0 ≡ next_id s

abbrev pub is_answered : String ⊎ RpcResponse → Bool
is_answered (inl e) = false
is_answered (inr r) = elim r.error [ none ↦ true | some _ ↦ false ]

abbrev pub call_params : String → Value → Fields
call_params tool input = field "name" (str tool) (field "arguments" input end)

module _ {S : Type 0} (t : Transport S) where
  -- The response, where it is no error; `what` says what was asked for.
  unfoldable pub unless_error : String → RpcResponse → Rpc S (Option Value)
  unless_error what r = elim r.error [
    | some e ↦ fail (t.prefix <> ": " <> what <> ": " <> e.message)
    | none ↦ ok r.result
  ]

  unfoldable pub initialize : Rpc S (Unit {0})
  unfolding unless_error
  initialize = do
    r ← t.send "initialize" initialize_params end
    _ ← unless_error "initialize" r
    t.notify "notifications/initialized"

  abbrev pub classic : S × (String ⊎ Unit {0}) → S × (String ⊎ String)
  classic (s, inl e) = (s, inl (t.prefix <> ": probe: neither stateless nor classic: " <> e))
  classic (s, inr _) = (s, inr mode_classic)

  unfoldable pub probe : Rpc S String
  unfolding initialize
  probe s =
      let (s', r) = t.send "tools/list" end meta s in
      if is_answered r then (s', inr mode_stateless) else classic (initialize s')

  unfoldable pub list_tools : String → Rpc S (List Tool)
  unfolding unless_error
  list_tools mode = do
    r ← t.send "tools/list" end (if str_eq mode mode_classic then end else meta)
    result ← unless_error "tools/list" r
    elim (tools_of result) [
      | none ↦ fail (t.prefix <> ": tools/list result")
      | some tools ↦ ok tools
    ]

  unfoldable pub discover : Rpc S Discovery
  unfolding probe list_tools
  discover = do mode ← probe; tools ← list_tools mode; ok (record { mode = mode; tools = tools })

  -- The switch on the mode: a probe, a handshake, or nothing.
  unfoldable pub enter : String → Rpc S String
  unfolding probe initialize
  enter mode =
      if str_eq mode mode_unknown
      then probe
      else if str_eq mode mode_classic
      then (initialize >>= λ _. ok mode)
      else ok mode

  abbrev pub returned : Option CallResult → Rpc S CallResult
  returned none = fail (t.prefix <> ": tools/call result")
  returned (some res) = ok res

  unfoldable pub call_tool : String → String → Value → Rpc S CallResult
  unfolding unless_error
  call_tool mode tool input = do
    r ←
        t.send "tools/call" (call_params tool input)
          (if str_eq mode mode_stateless then meta else end)
    result ← unless_error ("tools/call " <> tool) r
    returned (call_result_of result)

  unfoldable pub call : String → String → Value → Rpc S CallResult
  unfolding enter call_tool
  call mode tool input = do m ← enter mode; call_tool m tool input
