-- ===== src/Cli.antt =====
-- The hidden commands of internal/cli/cli.go, which run as a node's subprocess: they read their stdin,
-- and print a JSON value or stop with a code. encoding/json, the expressions, the HTTP client and
-- the mailbox are parameters, and so is the environment.
pub mod Mcp
pub mod Hidden
pub mod Nodes
pub mod Calls
mod Samples
use servitor.Prelude.{
  ℕ, suc, ◌+◌, ◌-◌, ◌*◌, ◌%◌, ◌^◌, String, Bool, true, false, Option, none, some, List, [], ◌∷◌,
  ◌++◌, ◌⊎◌, inl, inr, str_eq, ltb, leb, ◌&&◌, ◌||◌, if◌then◌else◌, ◌<>◌, ◌>>=◌, lookup, insert,
}
use servitor.Prelude.Int.{ℤ, pos, negsuc}
use servitor.Value.{
  Value, obj, arr, str, float, int, bool, null, Items, nil, cons, Fields, end, field, index,
}
use servitor.Honker.{Json}
use servitor.Worker.{stringify}
use servitor.Components.Refs.{Headers, resolved, in_header, resolve_headers}
use servitor.Components.Singer.{Lines, text_field, or_null}
use servitor.Components.Mcp.{int_field, map_field}

abbrev pub exit_failure : ℕ
exit_failure = 1

abbrev pub exit_usage : ℕ
exit_usage = 2

-- A command that prints exits with 0.
pub data Exit : Type 0 where
  prints : Value → Exit
  stops : ℕ → Exit

abbrev pub or_stop : {A : Type 0} → Option A → (A → Exit) → Exit
or_stop none f = stops exit_failure
or_stop (some a) f = f a

-- A field of type map[string]string.
unfoldable pub texts_of : Fields → Option (List (String × String))
unfolding text_field
texts_of end = some []
texts_of (field k v m) =
    let others = texts_of m in text_field (some v) >>= λ s. others >>= λ rest. some ((k, s) ∷ rest)

unfoldable pub text_map_field : Option Value → Option (List (String × String))
unfolding map_field texts_of
text_map_field v = map_field v >>= texts_of

-- The fields of a struct: those of a map, none of null, and no other value.
unfoldable pub struct_of : Option Value → Option Fields
struct_of (some (obj m)) = some m
struct_of (some null) = some end
struct_of _ = none

-- The case of the value, or the default where there is none; the empty text is no target.
unfoldable pub chosen_case : Json → Fields → String → Value → Exit
unfolding stringify
chosen_case json cases default value =
    let target : Value = elim (index (stringify json value) cases) [
      | none ↦ str default
      | some t ↦ t
    ] in
    elim target [
      | str s ↦ if str_eq s "" then stops exit_failure else prints (str s)
      | other ↦ prints other
    ]

module _ (codec : Lines) (eval : String → Value → Option Value) where
  -- An empty stdin is a nil input.
  read_input : String → Option Value
  read_input stdin = if str_eq stdin "" then some null else codec.decode stdin

  evaluated : List String → String → (Value → Exit) → Exit
  unfolding read_input
  evaluated (expr ∷ []) stdin k = or_stop (read_input stdin) λ input. or_stop (eval expr input) k
  evaluated _ stdin k = stops exit_usage

  unfoldable pub cmd_transform_node : List String → String → Exit
  unfolding evaluated
  cmd_transform_node args stdin = evaluated args stdin prints

  unfoldable pub cmd_eval_node : List String → String → Exit
  unfolding evaluated
  cmd_eval_node args stdin = evaluated args stdin prints

  unfoldable pub cmd_foreach_node : List String → String → Exit
  unfolding evaluated
  cmd_foreach_node args stdin =
      evaluated args stdin λ out. elim out [ arr xs ↦ prints (arr xs) | _ ↦ stops exit_failure ]

  unfoldable pub cmd_switch_node : Json → List String → String → Exit
  unfolding struct_of map_field text_field chosen_case
  cmd_switch_node json (expr ∷ []) stdin = or_stop (struct_of (codec.decode stdin)) λ payload.
      or_stop (map_field (index "cases" payload)) λ cases.
        or_stop (text_field (index "default" payload)) λ default.
          or_stop (eval expr (or_null (index "input" payload)))
            λ value. chosen_case json cases default value
  cmd_switch_node json _ stdin = stops exit_usage

-- time.Duration(t) * time.Second is a product of 64 bits with a sign; what is not positive gives way
-- to 30 seconds.
unfoldable pub timeout_of : ℤ → ℕ
timeout_of t =
    let wrapped : ℕ = elim t [
      | pos n ↦ (n * 1000000000) % 2 ^ 64
      | negsuc n ↦ (2 ^ 64 - (suc n * 1000000000) % 2 ^ 64) % 2 ^ 64
    ] in
    if ltb 0 wrapped && ltb wrapped (2 ^ 63) then wrapped else 30 * 1000000000

pub record HttpRequest : Type 0 where
  pub method : String
  pub url : String
  pub headers : List (String × String)
  pub body : Option String
  pub timeout : ℕ

-- `headers` is the response's headers as they are encoded.
pub record HttpResponse : Type 0 where
  pub status : ℕ
  pub status_text : String
  pub headers : Value
  pub body : String

-- Content-Type, if the headers have none of exactly this name.
unfoldable pub with_content_type : List (String × String) → List (String × String)
unfolding lookup insert
with_content_type headers = elim (lookup "Content-Type" headers) [
  | some _ ↦ headers
  | none ↦ insert "Content-Type" "application/json" headers
]

abbrev body_of : Value → Option Value
body_of null = none
body_of v = some v

abbrev response_value : HttpResponse → Value
response_value r = obj (
    field "ok" (bool (leb 200 r.status && ltb r.status 300)) (
      field "status" (int (pos r.status)) (
        field "statusText" (str r.status_text)
          (field "headers" r.headers (field "body" (str r.body) end)))))

module _ (codec : Lines) (env : List String) where
  -- `client` is the round trip of a request, `none` any error of it.
  unfoldable pub cmd_http_node : (HttpRequest → Option HttpResponse) → List String → Exit
  unfolding struct_of text_field text_map_field int_field resolve_headers with_content_type
      timeout_of
  cmd_http_node client (config ∷ []) = or_stop (struct_of (codec.decode config)) λ cfg.
      or_stop (text_field (index "url" cfg)) λ url.
        or_stop (text_field (index "method" cfg)) λ method.
          or_stop (text_map_field (index "headers" cfg)) λ templates.
            or_stop (int_field (index "timeout" cfg)) λ timeout.
              if str_eq url "" || str_eq method ""
              then stops exit_failure
              else or_stop (resolve_headers templates env) λ r. elim r [
                | in_header header secret ↦ stops exit_failure
                | resolved headers ↦
                    let request : HttpRequest = elim (body_of (or_null (index "body" cfg))) [
                      | none ↦ record {
                        method = method;
                        url = url;
                        headers = headers;
                        body = none;
                        timeout = timeout_of timeout;
                      }
                      | some b ↦ record {
                        method = method;
                        url = url;
                        headers = with_content_type headers;
                        body = some (codec.encode b);
                        timeout = timeout_of timeout;
                      }
                    ] in
                    or_stop (client request) λ response. prints (response_value response)
              ]
  cmd_http_node client _ = stops exit_usage

  -- `getenv` is os.Getenv, and `fetch` gmail's Dial and FetchNew of a host, a user and a password,
  -- which yield the messages as they are encoded.
  unfoldable pub cmd_email_poll :
      (String → String) → (String → String → String → Option Value) → List String → String → Exit
  unfolding struct_of text_field
  cmd_email_poll getenv fetch [] stdin = or_stop (struct_of (codec.decode stdin)) λ cfg.
      or_stop (text_field (index "host" cfg)) λ host.
        or_stop (text_field (index "username" cfg)) λ username.
          or_stop (text_field (index "secret" cfg)) λ secret.
            if str_eq host "" || str_eq username "" || str_eq secret ""
            then stops exit_failure
            else if str_eq (getenv secret) ""
            then stops exit_failure
            else or_stop (fetch host username (getenv secret)) prints
  cmd_email_poll getenv fetch _ stdin = stops exit_usage
