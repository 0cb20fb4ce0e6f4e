-- ===== src/Components/Mcp/Answers.antt =====
-- Which response the result of a call is taken from (internal/components/mcp).
use servitor.Prelude.{
  ℕ, suc, String, true, Option, none, some, List, [], ◌∷◌, ◌⊎◌, inl, inr, ◌≡◌, refl, sym, ap, ◌∙◌,
  arith, str_eq, if◌then◌else◌, Bool-cases, Option-cases, >>=-eq-some,
}
use servitor.Prelude.Int.{ℤ, pos, negsuc}
use servitor.Value.{Value, Fields, end}
use servitor.Components.Singer.{Lines}
use servitor.Components.Mcp.{mode_stateless, RpcResponse, meta, CallResult, call_result_of}
use servitor.Components.Mcp.Client.{
  Transport, after, call_params, unless_error, returned, call_tool, call, enter,
}
use servitor.Components.Mcp.Stdio.{
  McpServer, Session, is_id, response_in, answer_in, await, write, received, read_answer, send,
  transport,
}

after-inr :
    {S A B : Type 0} (p : S × (String ⊎ A)) (f : A → S → S × (String ⊎ B)) {s' : S} {b : B}
    → after p f ≡ (s', inr b)
    → (s : S) × (a : A) × (p ≡ (s, inr a)) × (f a s ≡ (s', inr b))
after-inr (s, inl e) f h = absurd cc
after-inr (s, inr a) f h = (s, a, refl, h)

module _ {S : Type 0} (t : Transport S) where
  unless_error-inr :
      (what : String) (r : RpcResponse) (s : S) {s' : S} {result : Option Value}
      → unless_error t what r s ≡ (s', inr result)
      → (s' ≡ s) × (r.error ≡ none) × (result ≡ r.result)
  unfolding unless_error
  unless_error-inr what r s h = elim (Option-cases r.error) [
    | inl e ↦ let eq = rw e at h in (cc, e, cc)
    | inr (err, e) ↦ let eq = rw e at h in absurd cc
  ]

  returned-inr :
      (o : Option CallResult) (s : S) {s' : S} {res : CallResult}
      → returned t o s ≡ (s', inr res)
      → (s' ≡ s) × (o ≡ some res)
  returned-inr none s h = absurd cc
  returned-inr (some r) s h = (cc, cc)

  -- The response that a successful call ends with.
  pub call-inv :
      (mode tool : String) (input : Value) (s : S) {s' : S} {res : CallResult}
      → call t mode tool input s ≡ (s', inr res)
      → (before : S) × (m : Fields) × (resp : RpcResponse) × (t.send "tools/call"
            (call_params tool input)
            m
            before
          ≡ (s', inr resp))
        × (resp.error ≡ none)
        × (call_result_of resp.result ≡ some res)
  unfolding call call_tool
  call-inv mode tool input s h =
      let (before, mode', entered, called) =
        after-inr (enter t mode s) (λ m. call_tool t m tool input) h in
      let m = if str_eq mode' mode_stateless then meta else end in
      let (s1, resp, sent, rest) =
        after-inr (t.send "tools/call" (call_params tool input) m before) _ called in
      let (s2, result, took, rest') = after-inr (unless_error t _ resp s1) _ rest in
      let (same, fine, result_eq) = unless_error-inr _ resp s1 took in
      let (same', found) = returned-inr (call_result_of result) s2 rest' in
      (
        before,
        m,
        resp,
        sent ∙ ap (λ x. (x, inr resp)) (sym (same' ∙ same)),
        fine,
        ap call_result_of (sym result_eq) ∙ found,
      )

is_id-eq : (n : ℕ) (z : ℤ) → is_id n z ≡ true → z ≡ pos n
is_id-eq n (pos m) h = ground arith
is_id-eq n (negsuc m) h = absurd cc

module _ (codec : Lines) where
  answer_in-id :
      (id : ℕ) (line : String) {resp : RpcResponse}
      → answer_in codec id line ≡ some resp
      → resp.id ≡ pos id
  unfolding answer_in
  answer_in-id id line {resp = resp} h =
      let (r, decoded, kept) = >>=-eq-some (response_in codec line) _ h in
      elim (Bool-cases (is_id id r.id)) [
        | inl e ↦
            let eq : some r ≡ some resp = rw e at kept in
            let same : r ≡ resp = cc in ap (λ x. x.id) (sym same) ∙ is_id-eq id r.id e
        | inr e ↦ let eq : none ≡ some resp = rw e at kept in absurd cc
      ]

  await-id :
      (id : ℕ) (lines : List String) {resp : RpcResponse} {rest : List String}
      → await codec id lines ≡ some (resp, rest)
      → resp.id ≡ pos id
  unfolding await
  await-id id [] h = absurd cc
  await-id id (line ∷ lines) {resp = resp} {rest = rest} h =
      elim (Option-cases (answer_in codec id line)) [
        | inl e ↦ await-id id lines (rw (await, e) at h)
        | inr (r, e) ↦
            let eq : some (r, lines) ≡ some (resp, rest) = rw (await, e) at h in
            let same : r ≡ resp = cc in ap (λ x. x.id) (sym same) ∙ answer_in-id id line e
      ]

  module _ (server : McpServer) where
    received-id :
        (method : String) (id : ℕ) (o : Option (RpcResponse × List String)) (s : Session)
        {s' : Session} {resp : RpcResponse}
        → await codec id s.unread ≡ o
        → received codec server method o s ≡ (s', inr resp)
        → resp.id ≡ pos id
    received-id method id none s found h = absurd cc
    received-id method id (some (r, rest)) s {resp = resp} found h =
        let same : r ≡ resp = cc in ap (λ x. x.id) (sym same) ∙ await-id id s.unread found

    read_answer-id :
        (method : String) (id : ℕ) (p : Session × (String ⊎ Unit {0})) {s' : Session}
        {resp : RpcResponse}
        → read_answer codec server method id p ≡ (s', inr resp)
        → resp.id ≡ pos id
    read_answer-id method id (s, inl e) h = absurd cc
    read_answer-id method id (s, inr _) h = received-id method id (await codec id s.unread) s refl h

    send-id :
        (method : String) (params m : Fields) (s : Session) {s' : Session} {resp : RpcResponse}
        → send codec server method params m s ≡ (s', inr resp)
        → resp.id ≡ pos s.next_id
    unfolding send
    send-id method params m s h =
        read_answer-id method s.next_id
          (write codec server
            (record { id = some s.next_id; method = method; params = params; meta = m })
            (record s { next_id = suc s.next_id }))
          h

    -- The result of a call over stdio that succeeds is that of a response without an error, which
    -- carries the id of the request that asked for the tool.
    pub call-answered :
        (mode tool : String) (input : Value) (s : Session) {s' : Session} {res : CallResult}
        → call (transport codec server) mode tool input s ≡ (s', inr res)
        → (before : Session) × (m : Fields) × (resp : RpcResponse) × (send codec server "tools/call"
              (call_params tool input)
              m
              before
            ≡ (s', inr resp))
          × (resp.id ≡ pos before.next_id)
          × (resp.error ≡ none)
          × (call_result_of resp.result ≡ some res)
    call-answered mode tool input s h =
        let (before, m, resp, sent, fine, found) =
          call-inv (transport codec server) mode tool input s h in
        (
          before,
          m,
          resp,
          sent,
          send-id "tools/call" (call_params tool input) m before sent,
          fine,
          found,
        )
