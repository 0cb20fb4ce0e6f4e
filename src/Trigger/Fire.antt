-- ===== src/Trigger/Fire.antt =====
-- The starting of runs (internal/trigger/trigger.go): ServeHTTP, Manual, Completed, Failed and Polled.
-- `parse` is wafer.Parse of a workflow's text, and `stamp n` the time in nanoseconds at which the
-- n-th run id is made. What matches does not depend on the runs, so it is gathered before they start.
use servitor.Prelude.{
  ℕ, suc, String, Bool, true, false, Option, none, some, List, [], ◌∷◌, ◌++◌, str_eq, ◌&&◌,
  if◌then◌else◌, ◌<>◌, itoa, lookup,
}
use servitor.Prelude.Int.{ℤ}
use servitor.Value.{Value, str, arr, Items, nil, cons, Fields, end, field, index, string_or_empty}
use servitor.Honker.{WorkflowRow, QueueLib, Store}
use servitor.Honker.Registry.{get_workflow}
use servitor.Registry.{Capability}
use servitor.Wafer.{Trigger, Wafer}
use servitor.Runner.Start.{start_run}
use servitor.Runner.Rerun.{succeeded}
use servitor.Trigger.{match_path, is_webhook_type, scheme_for_type}
use servitor.Trigger.Verify.{Crypto, Receiver, Resolved, verify}

-- A run to start: its workflow, its event, and the id's part between the name and the time.
pub record Start : Type 0 where
  pub wafer : Wafer
  pub event : Fields
  pub tag : String

-- One entry for each trigger of the workflow that `p` holds of.
unfoldable pub hits : (Trigger → Bool) → Wafer → List Trigger → List Wafer
hits p w [] = []
hits p w (tr ∷ on) = let rest = hits p w on in if p tr then w ∷ rest else rest

-- The loop over the registered workflows: a disabled one and one that does not parse are passed over.
unfoldable pub matches : (String → Option Wafer) → (Trigger → Bool) → List WorkflowRow → List Wafer
unfolding hits
matches parse p [] = []
matches parse p (wf ∷ rows) =
    let rest = matches parse p rows in
    let found : List Wafer = elim (parse wf.wafer) [
      | none ↦ rest
      | some w ↦ hits p w w.on ++ rest
    ] in
    if wf.enabled then found else rest

unfoldable pub is_webhook_hit : String → Receiver → Trigger → Bool
unfolding is_webhook_type match_path scheme_for_type
is_webhook_hit path r tr =
    is_webhook_type tr.type
    && str_eq (match_path tr) path
    && str_eq (scheme_for_type tr.type) r.scheme

unfoldable pub is_upstream_hit : String → String → Trigger → Bool
is_upstream_hit kind upstream tr =
    str_eq tr.type kind && str_eq (string_or_empty (index "workflow" tr.config)) upstream

abbrev text_fields : List (String × String) → Fields
text_fields [] = end
text_fields ((k, v) ∷ rest) = field k (str v) (text_fields rest)

abbrev pub webhook_event : String → String → Fields
webhook_event path body =
    text_fields (("trigger", "webhook") ∷ ("path", path) ∷ ("body", body) ∷ [])

abbrev pub upstream_event : String → String → String → Fields
upstream_event kind workflow run =
    text_fields (("trigger", kind) ∷ ("from", workflow) ∷ ("from_run", run) ∷ [])

abbrev pub start_of : Fields → String → Wafer → Start
start_of event tag w = record { wafer = w; event = event; tag = tag }

abbrev pub starts_of : Fields → String → List Wafer → List Start
starts_of event tag [] = []
starts_of event tag (w ∷ ws) = start_of event tag w ∷ starts_of event tag ws

-- internal/components/email/email.go; the date is carried by its JSON text.
pub record Email : Type 0 where
  pub from : String
  pub to : List String
  pub subject : String
  pub body : String
  pub date : String
  pub message_id : String

abbrev text_items : List String → Items
text_items [] = nil
text_items (s ∷ rest) = cons (str s) (text_items rest)

-- `decode` takes an item through encoding/json into an Email.
unfoldable pub poll_event : (Value → Option Email) → String → Value → Option Fields
poll_event decode kind item =
    if str_eq kind "email"
    then elim (decode item) [
      | none ↦ none
      | some e ↦ some (
          field "trigger" (str "email_received") (
            field "from" (str e.from) (
              field "to" (arr (text_items e.to)) (
                field "subject" (str e.subject) (
                  field "body" (str e.body)
                    (field "date" (str e.date) (field "message_id" (str e.message_id) end)))))))
    ]
    else some (field "trigger" (str kind) (field "item" item end))

-- What a request gets: the status code.
pub data Reply : Type 0 where
  ok_200 method_not_allowed_405 unauthorized_401 internal_error_500 : Reply

module _ (lib : QueueLib) (types : List Capability) (parse : String → Option Wafer)
    (stamp : ℕ → ℕ) where
  -- StartRun, for one run after another, up to the first error. The result is false at an error.
  unfoldable pub start_each : ℕ → List Start → Store lib.Live → Store lib.Live × Bool
  unfolding start_run
  start_each n [] s = (s, true)
  start_each n (x ∷ rest) s =
      let (after, result) =
        start_run lib types x.wafer (some x.event) (x.wafer.name <> x.tag <> itoa (stamp n)) s in
      let more = start_each (suc n) rest after in if succeeded result then more else (after, false)

  -- `Completed` and `Failed`, of the trigger type `kind`.
  unfoldable pub fire_upstream : String → String → String → Store lib.Live → Store lib.Live × Bool
  unfolding matches is_upstream_hit start_each
  fire_upstream kind workflow run s =
      start_each 0
        (starts_of (upstream_event kind workflow run) ("-" <> kind <> "-")
          (matches parse (is_upstream_hit kind workflow) s.workflows))
        s

  pub completed : String → String → Store lib.Live → Store lib.Live × Bool
  completed = fire_upstream "completed"

  pub failed : String → String → Store lib.Live → Store lib.Live × Bool
  failed = fire_upstream "failed"

  -- nil inputs are the empty map.
  unfoldable pub manual : String → Option Fields → Store lib.Live → Store lib.Live × Bool
  unfolding get_workflow start_each
  manual name inputs s = elim (get_workflow name s) [
    | none ↦ (s, false)
    | some wf ↦
        if wf.enabled
        then elim (parse wf.wafer) [
          | none ↦ (s, false)
          | some w ↦
              let (after, result) =
                start_run lib types w (some (elim inputs [ none ↦ end | some m ↦ m ]))
                  (name <> "-" <> itoa (stamp 0)) s in
              (after, succeeded result)
        ]
        else (s, false)
  ]

  -- The loop of Polled over the items: one run for each, up to the first error.
  unfoldable pub poll_each :
      (Value → Option Email) → String → Wafer → ℕ → Items → Store lib.Live → Store lib.Live × Bool
  unfolding poll_event start_run
  poll_each decode kind w n nil s = (s, true)
  poll_each decode kind w n (cons item items) s = elim (poll_event decode kind item) [
    | none ↦ (s, false)
    | some event ↦
        let (after, result) =
          start_run lib types w (some event) (w.name <> "-poll-" <> itoa (stamp n)) s in
        if succeeded result then poll_each decode kind w (suc n) items after else (after, false)
  ]

  -- A workflow that is gone or disabled is passed over without an error.
  unfoldable pub polled :
      (Value → Option Email) → String → String → Items → Store lib.Live → Store lib.Live × Bool
  unfolding get_workflow poll_each
  polled decode workflow kind items s = elim (get_workflow workflow s) [
    | none ↦ (s, true)
    | some wf ↦
        if wf.enabled
        then elim (parse wf.wafer) [
          | none ↦ (s, false)
          | some w ↦ poll_each decode kind w 0 items s
        ]
        else (s, true)
  ]

  -- ServeHTTP, after the raw event is persisted: what the declared receiver makes of the request.
  unfoldable pub serve_matched :
      String → String → Receiver → Store lib.Live → Store lib.Live × Reply
  unfolding matches is_webhook_hit start_each
  serve_matched path body r s =
      let (after, ok) =
        start_each 0
          (starts_of (webhook_event path body) "-"
            (matches parse (is_webhook_hit path r) s.workflows))
          s in
      (after, if ok then ok_200 else internal_error_500)

  module _ (crypto : Crypto) (receivers : List (String × Receiver))
      (resolve : Option (String → Resolved)) where
    unfoldable pub serve_received :
        String → String → (String → String) → ℤ → Store lib.Live → Store lib.Live × Reply
    unfolding serve_matched verify lookup
    serve_received path body get now s = elim (lookup path receivers) [
      | none ↦ (s, ok_200)
      | some r ↦
          if verify crypto r resolve get body now
          then serve_matched path body r s
          else (s, unauthorized_401)
    ]

    -- `events` is the table of the raw events.
    unfoldable pub serve_http :
        String
        → String
        → String
        → (String → String)
        → ℤ
        → List (String × String) × Store lib.Live
        → (List (String × String) × Store lib.Live) × Reply
    unfolding serve_received
    serve_http method path body get now (events, s) =
        let (after, reply) = serve_received path body get now s in
        if str_eq method "POST"
        then ((events ++ (path, body) ∷ [], after), reply)
        else ((events, s), method_not_allowed_405)
