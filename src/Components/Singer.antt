-- ===== src/Components/Singer.antt =====
-- internal/components/singer/singer.go, and runSingerNode and recordsFromInput of
-- internal/worker/worker.go. encoding/json and bytes.TrimSpace are parameters, and so is the subprocess:
-- its argv, environment and files give what it writes and how it ends.
pub mod Streams
mod Samples
use servitor.Prelude.{
  ℕ, String, Bool, true, false, Option, none, some, List, [], ◌∷◌, ◌++◌, map, ◌⊎◌, inl, inr, str_eq,
  if◌then◌else◌, ◌<>◌, quote, join, length, add_new, ◌>>=◌,
}
use servitor.Prelude.Int.{pos}
use servitor.Value.{
  Value, obj, arr, str, float, int, bool, null, Items, nil, cons, Fields, end, field, index,
  as_list, as_map, string_or_empty,
}
use servitor.Job.{Head}
use servitor.Worker.{NodeEnv, Result, ok, error, plain_failure, secret_missing}

pub record Record : Type 0 where
  pub stream : String
  pub payload : Value

-- A nil state is null.
pub record TapResult : Type 0 where
  pub records : List Record
  pub streams : List String
  pub state : Value

abbrev pub no_result : TapResult
no_result = record { records = []; streams = []; state = null }

-- A JSON key matches a field by its exact name. `payload` is the field Record, `state` the field Value; `none` is a field that is not there.
pub record Message : Type 0 where
  pub type : String
  pub stream : String
  pub payload : Option Value
  pub state : Option Value

-- A field of type string: one of another type is an error of the decoding.
unfoldable pub text_field : Option Value → Option String
text_field none = some ""
text_field (some null) = some ""
text_field (some (str s)) = some s
text_field (some _) = none

unfoldable pub message_of : Value → Option Message
unfolding text_field
message_of (obj m) = text_field (index "type" m) >>= λ type.
    text_field (index "stream" m) >>= λ stream.
    some
      (record { type = type; stream = stream; payload = index "record" m; state = index "value" m })
message_of null = some (record { type = ""; stream = ""; payload = none; state = none })
message_of _ = none

abbrev pub or_null : Option Value → Value
or_null none = null
or_null (some v) = v

-- The switch on a message's type.
unfoldable pub take_message : Message → TapResult → TapResult
take_message m out =
    if str_eq m.type "RECORD"
    then record out {
      records = out.records ++ record { stream = m.stream; payload = or_null m.payload } ∷ [];
    }
    else if str_eq m.type "STATE"
    then elim m.state [ none ↦ out | some v ↦ record out { state = v } ]
    else if str_eq m.type "SCHEMA"
    then record out { streams = add_new m.stream out.streams }
    else out

-- json.Marshal and json.Unmarshal, and bytes.TrimSpace.
pub record Lines : Type 0 where
  pub encode : Value → String
  pub decode : String → Option Value
  pub trim : String → String

pub record TapRequest : Type 0 where
  pub command : List String
  pub env : List String
  pub config : Value
  pub catalog : Value
  pub state : Value

-- What becomes of a subprocess: an error of its files or its start, or the lines that it writes with the
-- error of reading them or of its end, where there is one.
pub data Ended : Type 0 where
  not_started : String → Ended
  ended : List String → Option String → Ended

abbrev is_null : Value → Bool
is_null null = true
is_null _ = false

-- What a file is passed as, and its content.
abbrev pub flag_of : String → String → Value → List String × List (String × Value)
flag_of dir name v =
    (("--" <> name) ∷ (dir <> "/" <> name <> ".json") ∷ [], (name <> ".json", v) ∷ [])

abbrev with_flag : Bool → List String × List (String × Value) → List String × List (String × Value)
with_flag true added = ([], [])
with_flag false added = added

-- The arguments of a tap behind its command, and the files that they name.
unfoldable pub tap_flags : String → TapRequest → List String × List (String × Value)
tap_flags dir req =
    let (config, config_file) = flag_of dir "config" req.config in
    let (state, state_file) = with_flag (is_null req.state) (flag_of dir "state" req.state) in
    let (catalog, catalog_file) =
      with_flag (is_null req.catalog) (flag_of dir "catalog" req.catalog) in
    (config ++ (state ++ catalog), config_file ++ (state_file ++ catalog_file))

-- The keys of a Go map are encoded in their order.
abbrev pub record_value : Record → Value
record_value r =
    obj (field "record" r.payload (field "stream" (str r.stream) (field "type" (str "RECORD") end)))

module _ (codec : Lines) where
  unfoldable pub take_line : String → TapResult → TapResult
  unfolding message_of take_message
  take_line line out =
      if str_eq (codec.trim line) ""
      then out
      else elim (codec.decode (codec.trim line) >>= message_of) [
        | none ↦ out
        | some m ↦ take_message m out
      ]

  unfoldable pub read_lines : List String → TapResult → TapResult
  unfolding take_line
  read_lines [] out = out
  read_lines (line ∷ lines) out = read_lines lines (take_line line out)

  -- `spawn` takes the argv, the environment and the files of the directory.
  unfoldable pub run_tap :
      String
      → (List String → List String → List (String × Value) → Ended)
      → TapRequest
      → String ⊎ TapResult
  unfolding read_lines tap_flags
  run_tap dir spawn req = elim req.command [
    | [] ↦ inl "singer: tap: empty command"
    | (c ∷ argv) ↦
        let (flags, files) = tap_flags dir req in
        elim (spawn (c ∷ (argv ++ flags)) req.env files) [
          | not_started e ↦ inl e
          | ended lines failure ↦ elim failure [
            | some e ↦ inl e
            | none ↦ inr (read_lines lines no_result)
          ]
        ]
  ]

  unfoldable pub target_lines : List Record → List String
  target_lines [] = []
  target_lines (r ∷ rs) = codec.encode (record_value r) ∷ target_lines rs

  -- The count that was fed and the target's output; `spawn` takes the lines of its input too.
  unfoldable pub run_target :
      String
      → (List String → List String → List (String × Value) → List String → String ⊎ String)
      → List String
      → List String
      → Value
      → List Record
      → String ⊎ (ℕ × String)
  unfolding target_lines
  run_target dir spawn command env config records = elim command [
    | [] ↦ inl "singer: target: empty command"
    | (c ∷ argv) ↦
        let (flags, files) = flag_of dir "config" config in
        elim (spawn (c ∷ (argv ++ flags)) env files (target_lines records)) [
          | inl e ↦ inl ("singer: target: failed: " <> e)
          | inr output ↦ inr (length records, output)
        ]
  ]

-- The records of one step, and of all steps: those of a Go map come in any order of the steps.
unfoldable pub records_of : Items → List Record
records_of nil = []
records_of (cons (obj m) rest) =
    record { stream = string_or_empty (index "stream" m); payload = or_null (index "record" m) }
    ∷ records_of rest
records_of (cons _ rest) = records_of rest

abbrev pub step_records : Value → List Record
step_records (obj m) = elim (as_list (index "records" m)) [ none ↦ [] | some xs ↦ records_of xs ]
step_records _ = []

unfoldable pub records_of_steps : Fields → List Record
unfolding records_of as_list
records_of_steps end = []
records_of_steps (field name v steps) = step_records v ++ records_of_steps steps

unfoldable pub records_from_input : Fields → List Record
unfolding records_of_steps
records_from_input input = elim (as_map (index "steps" input)) [
  | none ↦ []
  | some steps ↦ records_of_steps steps
]

abbrev pub record_items : List Record → Items
record_items [] = nil
record_items (r ∷ rs) =
    cons (obj (field "stream" (str r.stream) (field "record" r.payload end))) (record_items rs)

abbrev pub text_items : List String → Items
text_items [] = nil
text_items (s ∷ rest) = cons (str s) (text_items rest)

-- A nil slice is encoded as null.
abbrev pub slice_value : Items → Value
slice_value nil = null
slice_value (cons v rest) = arr (cons v rest)

-- The result of a tap node, as its JSON is read back.
abbrev pub tap_value : TapResult → Value
tap_value res = obj (
    field "records" (slice_value (record_items res.records))
      (field "streams" (slice_value (text_items res.streams)) (field "state" res.state end)))

abbrev pub target_value : ℕ × String → Value
target_value (consumed, output) =
    obj (field "consumed" (int (pos consumed)) (field "output" (str output) end))

-- A nil map is encoded as null.
abbrev pub config_of : Head → Value
config_of sj = elim (as_map (index "config" sj.config)) [ none ↦ null | some m ↦ obj m ]

-- `run_tap` and `run_target` stand for RunTap and RunTarget over the machine, and `resolve` for nodeEnv. The
-- second part of a result is the bookmark that is committed with it.
unfoldable pub run_singer_node :
    (String → List String → Result NodeEnv)
    → (TapRequest → String ⊎ TapResult)
    → (List String → List String → Value → List Record → String ⊎ (ℕ × String))
    → Head
    → Option Value
    → Result (Value × Option Value)
unfolding records_from_input
run_singer_node resolve tap target sj prior = elim sj.command [
  | [] ↦ error (plain_failure ("node type " <> quote sj.node_type <> " has no command to run"))
  | (c ∷ argv) ↦ elim (resolve sj.node_name sj.secrets) [
    | error f ↦ error f
    | ok r ↦ elim r.missing [
      | (m ∷ ms) ↦
          error (record { kind = secret_missing; text = "secret missing: " <> join (m ∷ ms) ", " })
      | [] ↦
          if str_eq sj.node_type "singer-tap"
          then elim (tap (record {
            command = c ∷ argv;
            env = r.env;
            config = config_of sj;
            catalog = or_null (index "catalog" sj.config);
            state = or_null prior;
          })) [ inl e ↦ error (plain_failure e) | inr res ↦ ok (tap_value res, some res.state) ]
          else if str_eq sj.node_type "singer-target"
          then elim (target (c ∷ argv) r.env (config_of sj) (records_from_input sj.input)) [
            | inl e ↦ error (plain_failure e)
            | inr res ↦ ok (target_value res, none)
          ]
          else error (plain_failure ("node type " <> quote sj.node_type <> " is not a singer node"))
    ]
  ]
]
