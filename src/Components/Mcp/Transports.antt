-- ===== src/Components/Mcp/Transports.antt =====
-- The two transports of internal/components/mcp number their requests and send them in order.
use servitor.Prelude.{
  ℕ, suc, String, Option, none, some, List, [], ◌∷◌, ◌++◌, ◌⊎◌, inl, inr, ◌≡◌, refl, ap, ◌∙◌, arith,
}
use servitor.Value.{Fields, end}
use servitor.Components.Singer.{Lines}
use servitor.Components.Mcp.{RpcRequest, RpcResponse}
use servitor.Components.Mcp.Client.{IsTransport}
use servitor.Components.Mcp.Stdio.{
  McpServer, Session, await, write, received, read_answer, send, notify, transport,
}
use servitor.Components.Mcp.Http.{
  Endpoint, HttpConnector, HttpReply, HttpClient, HttpCodec, Post, post, roundtrip, read_posted,
  ignored, post_headers, http_send, http_notify, http_transport,
}

module _ (codec : Lines) (server : McpServer) where
  write-frame :
      (req : RpcRequest) (s : Session)
      → ((write codec server req s).0.sent ≡ s.sent ++ req ∷ [])
        × ((write codec server req s).0.next_id ≡ s.next_id)
  unfolding write
  write-frame req s = ground arith

  received-frame :
      (method : String) (o : Option (RpcResponse × List String)) (s : Session)
      → ((received codec server method o s).0.sent ≡ s.sent)
        × ((received codec server method o s).0.next_id ≡ s.next_id)
  received-frame method none s = (refl, refl)
  received-frame method (some (resp, rest)) s = (refl, refl)

  read_answer-frame :
      (method : String) (id : ℕ) (p : Session × (String ⊎ Unit {0}))
      → ((read_answer codec server method id p).0.sent ≡ p.0.sent)
        × ((read_answer codec server method id p).0.next_id ≡ p.0.next_id)
  read_answer-frame method id (s, inl e) = (refl, refl)
  read_answer-frame method id (s, inr _) = received-frame method (await codec id s.unread) s

  pub send-frame :
      (method : String) (params m : Fields) (s : Session)
      → ((send codec server method params m s).0.sent
          ≡ s.sent
            ++ record { id = some s.next_id; method = method; params = params; meta = m } ∷ [])
        × ((send codec server method params m s).0.next_id ≡ suc s.next_id)
  unfolding send
  send-frame method params m s =
      let req : RpcRequest = record {
        id = some s.next_id;
        method = method;
        params = params;
        meta = m;
      } in
      let written = write codec server req (record s { next_id = suc s.next_id }) in
      let (said, next) = read_answer-frame method s.next_id written in
      let (said', next') = write-frame req (record s { next_id = suc s.next_id }) in
      (said ∙ said', next ∙ next')

  pub notify-frame :
      (method : String) (s : Session)
      → ((notify codec server method s).0.sent
          ≡ s.sent ++ record { id = none; method = method; params = end; meta = end } ∷ [])
        × ((notify codec server method s).0.next_id ≡ s.next_id)
  unfolding notify
  notify-frame method s =
      write-frame (record { id = none; method = method; params = end; meta = end }) s

  abbrev pub stdio-IsTransport : IsTransport (transport codec server)
  stdio-IsTransport = record {
    sent = λ s. s.sent;
    next_id = λ s. s.next_id;
    sent-send = λ method params m s. (send-frame method params m s).0;
    next_id-send = λ method params m s. (send-frame method params m s).1;
    sent-notify = λ method s. (notify-frame method s).0;
    next_id-notify = λ method s. (notify-frame method s).1;
  }

abbrev pub requests : List Post → List RpcRequest
requests [] = []
requests (p ∷ ps) = p.request ∷ requests ps

requests-append :
    (ps : List Post) (p : Post) → requests (ps ++ p ∷ []) ≡ requests ps ++ p.request ∷ []
requests-append [] p = refl
requests-append (q ∷ ps) p = ap (λ r. q.request ∷ r) (requests-append ps p)

module _ (codec : HttpCodec) (endpoint : Endpoint) (conn : HttpConnector) where
  post-frame :
      (req : RpcRequest) (c : HttpClient)
      → (requests (post codec endpoint conn req c).0.posts ≡ requests c.posts ++ req ∷ [])
        × ((post codec endpoint conn req c).0.next_id ≡ c.next_id)
  unfolding post
  post-frame req c = ground (
    arith,
    requests-append c.posts
        (record { headers = post_headers codec endpoint conn c; request = req }),
  )

  read_posted-frame :
      (p : HttpClient × (String ⊎ HttpReply)) → (read_posted codec endpoint conn p).0 ≡ p.0
  read_posted-frame (c, inl e) = refl
  read_posted-frame (c, inr reply) = refl

  ignored-frame : (p : HttpClient × (String ⊎ HttpReply)) → (ignored codec endpoint conn p).0 ≡ p.0
  ignored-frame (c, inl e) = refl
  ignored-frame (c, inr reply) = refl

  pub http_send-frame :
      (method : String) (params m : Fields) (c : HttpClient)
      → (requests (http_send codec endpoint conn method params m c).0.posts
          ≡ requests c.posts
            ++ record { id = some (suc c.next_id); method = method; params = params; meta = m }
              ∷ [])
        × ((http_send codec endpoint conn method params m c).0.next_id ≡ suc c.next_id)
  unfolding http_send roundtrip
  http_send-frame method params m c =
      let req : RpcRequest = record {
        id = some (suc c.next_id);
        method = method;
        params = params;
        meta = m;
      } in
      let same =
        read_posted-frame (post codec endpoint conn req (record c { next_id = suc c.next_id })) in
      let (said, next) = post-frame req (record c { next_id = suc c.next_id }) in
      (ap (λ x. requests x.posts) same ∙ said, ap (λ x. x.next_id) same ∙ next)

  pub http_notify-frame :
      (method : String) (c : HttpClient)
      → (requests (http_notify codec endpoint conn method c).0.posts
          ≡ requests c.posts
            ++ record { id = none; method = method; params = end; meta = end } ∷ [])
        × ((http_notify codec endpoint conn method c).0.next_id ≡ c.next_id)
  unfolding http_notify
  http_notify-frame method c =
      let req : RpcRequest = record { id = none; method = method; params = end; meta = end } in
      let same = ignored-frame (post codec endpoint conn req c) in
      let (said, next) = post-frame req c in
      (ap (λ x. requests x.posts) same ∙ said, ap (λ x. x.next_id) same ∙ next)

  abbrev pub http-IsTransport : IsTransport (http_transport codec endpoint conn)
  http-IsTransport = record {
    sent = λ c. requests c.posts;
    next_id = λ c. suc c.next_id;
    sent-send = λ method params m c. (http_send-frame method params m c).0;
    next_id-send = λ method params m c. ap suc (http_send-frame method params m c).1;
    sent-notify = λ method c. (http_notify-frame method c).0;
    next_id-notify = λ method c. ap suc (http_notify-frame method c).1;
  }
