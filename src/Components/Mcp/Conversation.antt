-- ===== src/Components/Mcp/Conversation.antt =====
-- The messages that a call sends, over either transport of internal/components/mcp.
use servitor.Prelude.{
  ℕ, suc, String, Bool, false, Option, none, some, List, [], ◌∷◌, ◌++◌, ◌⊎◌, inl, inr, ◌≡◌, refl,
  ap, ◌∙◌, str_eq, str_eq_iff, if◌then◌else◌, Bool-cases, Option-cases, append_assoc, append-nil,
}
use servitor.Value.{Value, Fields, end}
use servitor.Components.Mcp.{
  mode_unknown, mode_stateless, mode_classic, RpcRequest, RpcResponse, meta, initialize_params,
  CallResult, call_result_of,
}
use servitor.Components.Mcp.Client.{
  Transport, IsTransport, after, is_answered, classic, call_params, unless_error, initialize, probe,
  enter, call_tool, call, returned,
}

abbrev pub request : ℕ → String → Fields → Fields → RpcRequest
request n method params m = record { id = some n; method = method; params = params; meta = m }

abbrev pub list_request : ℕ → RpcRequest
list_request n = request n "tools/list" end meta

abbrev pub initialize_request : ℕ → RpcRequest
initialize_request n = request n "initialize" initialize_params end

abbrev pub initialized : RpcRequest
initialized = record { id = none; method = "notifications/initialized"; params = end; meta = end }

abbrev pub tool_request : ℕ → String → Value → Fields → RpcRequest
tool_request n tool input m = request n "tools/call" (call_params tool input) m

abbrev classic_script : String → Value → List RpcRequest
classic_script tool input = initialize_request 1 ∷ initialized ∷ tool_request 2 tool input end ∷ []

abbrev stateless_found : String → Value → List RpcRequest
stateless_found tool input = list_request 1 ∷ tool_request 2 tool input meta ∷ []

abbrev classic_found : String → Value → List RpcRequest
classic_found tool input =
    list_request 1 ∷ initialize_request 2 ∷ initialized ∷ tool_request 3 tool input end ∷ []

-- What a call says, by its mode and, where that is to be probed, by whether the probe is answered.
unfoldable pub script_of : String → String → Value → Bool → List RpcRequest
script_of mode tool input answered =
    if str_eq mode mode_unknown
    then (if answered then stateless_found tool input else classic_found tool input)
    else if str_eq mode mode_classic
    then classic_script tool input
    else tool_request 1 tool input (if str_eq mode mode_stateless then meta else end) ∷ []

abbrev pub Prefix : List RpcRequest → List RpcRequest → Type 0
Prefix xs ys = (rest : List RpcRequest) × (ys ≡ xs ++ rest)

Prefix-trans : (xs ys zs : List RpcRequest) → Prefix xs ys → Prefix ys zs → Prefix xs zs
Prefix-trans xs ys zs (r, e) (r', e') = (r ++ r', rw (e', e) (append_assoc xs r r'))

whole_part : {xs ys : List RpcRequest} → xs ≡ ys → Prefix xs ys
whole_part {ys = ys} e = ([], rw (e, append-nil) refl)

-- What has been said of a script: a part of it where the step fails, else the whole.
abbrev pub Said : {A : Type 0} → List RpcRequest → List RpcRequest → String ⊎ A → Type 0
Said said script (inl e) = Prefix said script
Said said script (inr a) = said ≡ script

module _ {S : Type 0} (t : Transport S) (laws : IsTransport t) where
  abbrev Told : {A : Type 0} → List RpcRequest → ℕ → S × (String ⊎ A) → Type 0
  Told script k (s, inl e) = Prefix (laws.sent s) script
  Told script k (s, inr a) = (laws.sent s ≡ script) × (laws.next_id s ≡ suc k)

  Told-of :
      {A : Type 0} (script : List RpcRequest) (k : ℕ) (p : S × (String ⊎ A))
      → laws.sent p.0 ≡ script
      → laws.next_id p.0 ≡ suc k
      → Told script k p
  Told-of script k (s, inl e) said last = whole_part said
  Told-of script k (s, inr a) said last = (said, last)

  after-Told :
      {A B : Type 0} (script script' : List RpcRequest) (k k' : ℕ) (p : S × (String ⊎ A))
      (f : A → S → S × (String ⊎ B))
      → Told script k p
      → Prefix script script'
      → ((a : A) (s : S) → laws.sent s ≡ script → laws.next_id s ≡ suc k → Told script' k' (f a s))
      → Told script' k' (after p f)
  after-Told script script' k k' (s, inl e) f told part next =
      Prefix-trans (laws.sent s) script script' told part
  after-Told script script' k k' (s, inr a) f told part next = next a s told.0 told.1

  send-Told :
      (script : List RpcRequest) (k : ℕ) (s : S) (method : String) (params m : Fields)
      → laws.sent s ≡ script
      → laws.next_id s ≡ suc k
      → Told (script ++ request (suc k) method params m ∷ []) (suc k) (t.send method params m s)
  send-Told script k s method params m said last =
      Told-of _ _ (t.send method params m s)
        (laws.sent-send method params m s ∙ rw (said, last) refl)
        (laws.next_id-send method params m s ∙ ap suc last)

  notify-Told :
      (script : List RpcRequest) (k : ℕ) (s : S) (method : String)
      → laws.sent s ≡ script
      → laws.next_id s ≡ suc k
      → Told
          (script ++ record { id = none; method = method; params = end; meta = end } ∷ [])
          k
          (t.notify method s)
  notify-Told script k s method said last =
      Told-of _ _ (t.notify method s) (laws.sent-notify method s ∙ rw said refl)
        (laws.next_id-notify method s ∙ last)

  unless_error-Told :
      (script : List RpcRequest) (k : ℕ) (s : S) (what : String) (r : RpcResponse)
      → laws.sent s ≡ script
      → laws.next_id s ≡ suc k
      → Told script k (unless_error t what r s)
  unfolding unless_error
  unless_error-Told script k s what r said last = elim (Option-cases r.error) [
    | inl e ↦ rw e (said, last)
    | inr (err, e) ↦ rw e (whole_part said)
  ]

  initialize-Told :
      (script : List RpcRequest) (k : ℕ) (s : S)
      → laws.sent s ≡ script
      → laws.next_id s ≡ suc k
      → Told (script ++ initialize_request (suc k) ∷ initialized ∷ []) (suc k) (initialize t s)
  unfolding initialize
  initialize-Told script k s said last =
      let asked = script ++ initialize_request (suc k) ∷ [] in
      let whole = script ++ initialize_request (suc k) ∷ initialized ∷ [] in
      let part : Prefix asked whole = (initialized ∷ [], rw append_assoc refl) in
      after-Told asked whole (suc k) (suc k) _ _
        (send-Told script k s "initialize" initialize_params end said last) part
        (λ r s1 said1 last1.
          after-Told asked whole (suc k) (suc k) _ _
            (unless_error-Told asked (suc k) s1 "initialize" r said1 last1) part
            (λ _ s2 said2 last2.
              rw (append_assoc script (initialize_request (suc k) ∷ []) (initialized ∷ [])) at
                (notify-Told asked (suc k) s2 "notifications/initialized" said2 last2)))

  returned-Told :
      (script : List RpcRequest) (k : ℕ) (s : S) (o : Option CallResult)
      → laws.sent s ≡ script
      → laws.next_id s ≡ suc k
      → Told script k (returned t o s)
  returned-Told script k s none said last = whole_part said
  returned-Told script k s (some res) said last = (said, last)

  call_tool-Told :
      (script : List RpcRequest) (k : ℕ) (s : S) (mode tool : String) (input : Value)
      → laws.sent s ≡ script
      → laws.next_id s ≡ suc k
      → Told
          (script
            ++ tool_request (suc k) tool input (if str_eq mode mode_stateless then meta else end)
              ∷ [])
          (suc k)
          (call_tool t mode tool input s)
  unfolding call_tool
  call_tool-Told script k s mode tool input said last =
      let asked =
        script
        ++ tool_request (suc k) tool input (if str_eq mode mode_stateless then meta else end)
          ∷ [] in
      after-Told asked asked (suc k) (suc k) _ _ (send-Told script k s "tools/call" _ _ said last)
        (whole_part refl)
        (λ r s1 said1 last1.
          after-Told asked asked (suc k) (suc k) _ _
            (unless_error-Told asked (suc k) s1 _ r said1 last1) (whole_part refl)
            (λ result s2 said2 last2.
              returned-Told asked (suc k) s2 (call_result_of result) said2 last2))

  classic-Told :
      (script : List RpcRequest) (k : ℕ) (p : S × (String ⊎ Unit {0}))
      → Told script k p
      → Told script k (classic t p)
  classic-Told script k (s, inl e) told = told
  classic-Told script k (s, inr _) told = told

  Told-Said :
      {A : Type 0} (script : List RpcRequest) (k : ℕ) (p : S × (String ⊎ A))
      → Told script k p
      → Said (laws.sent p.0) script p.1
  Told-Said script k (s, inl e) told = told
  Told-Said script k (s, inr a) told = told.0

  -- The tool's call after a handshake.
  after_handshake :
      (mode tool : String) (input : Value) (script : List RpcRequest) (k : ℕ)
      (p : S × (String ⊎ Unit {0}))
      → str_eq mode mode_stateless ≡ false
      → Told script k p
      → Told
          (script ++ tool_request (suc k) tool input end ∷ [])
          (suc k)
          (after (after p (λ _ s. (s, inr mode))) (λ m. call_tool t m tool input))
  after_handshake mode tool input script k (s, inl e) plain told =
      Prefix-trans (laws.sent s) script _ told (tool_request (suc k) tool input end ∷ [], refl)
  after_handshake mode tool input script k (s, inr _) plain told =
      rw plain at (call_tool-Told script k s mode tool input told.0 told.1)

  after_probe :
      (tool : String) (input : Value) (script : List RpcRequest) (k : ℕ)
      (p : S × (String ⊎ Unit {0}))
      → Told script k p
      → Told
          (script ++ tool_request (suc k) tool input end ∷ [])
          (suc k)
          (after (classic t p) (λ m. call_tool t m tool input))
  after_probe tool input script k (s, inl e) told =
      Prefix-trans (laws.sent s) script _ told (tool_request (suc k) tool input end ∷ [], refl)
  after_probe tool input script k (s, inr _) told =
      call_tool-Told script k s mode_classic tool input told.0 told.1

  -- In a new session a call says the script of its mode. A known mode has the tool's request alone, behind
  -- a handshake where the mode is the classic one. An unknown mode begins with a probe: where the server
  -- answers it the tool's request follows at once, and where it does not a handshake comes between. A call
  -- that succeeds has said all of the script, one that fails a part from its beginning on.
  pub call-says :
      (mode tool : String) (input : Value) (s : S)
      → laws.sent s ≡ []
      → laws.next_id s ≡ 1
      → Said
          (laws.sent (call t mode tool input s).0)
          (script_of mode tool input (is_answered (t.send "tools/list" end meta s).1))
          (call t mode tool input s).1
  unfolding call enter probe script_of
  call-says mode tool input s said last = elim (Bool-cases (str_eq mode mode_unknown)) [
    | inl unknown ↦
        let probed = t.send "tools/list" end meta s in
        let said1 = laws.sent-send "tools/list" end meta s ∙ rw (said, last) refl in
        let last1 = laws.next_id-send "tools/list" end meta s ∙ ap suc last in
        elim (Bool-cases (is_answered probed.1)) [
          | inl answered ↦
              rw (unknown, answered)
                (Told-Said _ 2 _ (
                  call_tool-Told (list_request 1 ∷ []) 1 probed.0 mode_stateless tool input said1
                    last1))
          | inr refused ↦
              rw (unknown, refused)
                (Told-Said _ 3 _ (
                  after_probe tool input (list_request 1 ∷ initialize_request 2 ∷ initialized ∷ [])
                    2 (initialize t probed.0)
                    (initialize-Told (list_request 1 ∷ []) 1 probed.0 said1 last1)))
        ]
    | inr known ↦ elim (Bool-cases (str_eq mode mode_classic)) [
      | inl classic_mode ↦
          let plain : str_eq mode mode_stateless ≡ false =
            rw ((str_eq_iff mode mode_classic).0 classic_mode) refl in
          rw (known, classic_mode)
            (Told-Said _ 2 _ (
              after_handshake mode tool input (initialize_request 1 ∷ initialized ∷ []) 1
                (initialize t s) plain (initialize-Told [] 0 s said last)))
      | inr other ↦
          rw (known, other) (Told-Said _ 1 _ (call_tool-Told [] 0 s mode tool input said last))
    ]
  ]
