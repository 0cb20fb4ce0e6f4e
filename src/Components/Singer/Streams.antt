-- ===== src/Components/Singer/Streams.antt =====
-- What RunTap collects from a tap's lines, and the way of the records from a tap to a target.
use servitor.Prelude.{
  String, false, Option, none, some, List, [], ◌∷◌, ◌++◌, ◌≡◌, refl, ap, ◌∙◌, inl, inr, str_eq,
  if◌then◌else◌, add_new, add_each, IsDistinct, add_each-IsDistinct, append-nil, append_assoc,
  Bool-cases, Option-cases, ◌>>=◌,
}
use servitor.Value.{
  Value, null, obj, Fields, end, field, index, assign, as_list, as_map, string_or_empty,
}
use servitor.Job.{thread_input, steps_of, event_of}
use servitor.Components.Singer.{
  Record, TapResult, no_result, Message, message_of, text_field, or_null, take_message, Lines,
  take_line, read_lines, record_value, target_lines, records_of, records_of_steps,
  records_from_input, record_items, text_items, step_records, slice_value, tap_value,
}

-- What one line says, whatever came before it.
abbrev pub record_in : Message → List Record
record_in m =
    if str_eq m.type "RECORD"
    then record { stream = m.stream; payload = or_null m.payload } ∷ []
    else []

abbrev pub stream_in : Message → List String
stream_in m =
    if str_eq m.type "RECORD"
    then []
    else if str_eq m.type "STATE"
    then []
    else if str_eq m.type "SCHEMA"
    then m.stream ∷ []
    else []

abbrev pub state_in : Message → Value → Value
state_in m before =
    if str_eq m.type "RECORD"
    then before
    else if str_eq m.type "STATE"
    then (elim m.state [ none ↦ before | some v ↦ v ])
    else before

module _ (codec : Lines) where
  -- The message of a line: none for a blank one, and for one that is no message.
  pub message_in : String → Option Message
  message_in line =
      if str_eq (codec.trim line) "" then none else (codec.decode (codec.trim line) >>= message_of)

  pub messages : List String → List Message
  messages [] = []
  messages (line ∷ lines) =
      let rest = messages lines in elim (message_in line) [ none ↦ rest | some m ↦ m ∷ rest ]

abbrev pub records_in : List Message → List Record
records_in [] = []
records_in (m ∷ ms) = record_in m ++ records_in ms

abbrev pub streams_in : List Message → List String
streams_in [] = []
streams_in (m ∷ ms) = stream_in m ++ streams_in ms

abbrev pub last_state : List Message → Value → Value
last_state [] before = before
last_state (m ∷ ms) before = last_state ms (state_in m before)

add_each-append :
    (xs ys out : List String) → add_each (xs ++ ys) out ≡ add_each ys (add_each xs out)
unfolding add_each
add_each-append [] ys out = refl
add_each-append (x ∷ xs) ys out = add_each-append xs ys (add_new x out)

take_message-records :
    (m : Message) (out : TapResult)
    → take_message m out ≡ record {
      records = out.records ++ record_in m;
      streams = add_each (stream_in m) out.streams;
      state = state_in m out.state;
    }
unfolding take_message add_each
take_message-records m out = elim (Bool-cases (str_eq m.type "RECORD")) [
  | inl e ↦ rw e refl
  | inr e ↦ elim (Bool-cases (str_eq m.type "STATE")) [
    | inl f ↦ elim (Option-cases m.state) [
      | inl none_there ↦ rw (e, f, none_there, append-nil) refl
      | inr (v, there) ↦ rw (e, f, there, append-nil) refl
    ]
    | inr f ↦ elim (Bool-cases (str_eq m.type "SCHEMA")) [
      | inl g ↦ rw (e, f, g, append-nil) refl
      | inr g ↦ rw (e, f, g, append-nil) refl
    ]
  ]
]

module _ (codec : Lines) where
  take_line-message_in :
      (line : String) (out : TapResult)
      → take_line codec line out
        ≡ (elim (message_in codec line) [ none ↦ out | some m ↦ take_message m out ])
  unfolding take_line message_in
  take_line-message_in line out = elim (Bool-cases (str_eq (codec.trim line) "")) [
    | inl blank ↦ rw (take_line, message_in, blank) refl
    | inr full ↦ rw (take_line, message_in, full) refl
  ]

  messages-cons :
      (line : String) (lines : List String) (o : Option Message)
      → message_in codec line ≡ o
      → messages codec (line ∷ lines)
        ≡ (elim o [ none ↦ messages codec lines | some m ↦ m ∷ messages codec lines ])
  unfolding messages
  messages-cons line lines o e = rw (messages, e) refl

  read_lines-from :
      (lines : List String) (out : TapResult)
      → read_lines codec lines out ≡ record {
        records = out.records ++ records_in (messages codec lines);
        streams = add_each (streams_in (messages codec lines)) out.streams;
        state = last_state (messages codec lines) out.state;
      }
  unfolding read_lines
  read_lines-from [] out = unfold add_each messages in rw append-nil refl
  read_lines-from (line ∷ lines) out = elim (Option-cases (message_in codec line)) [
    | inl e ↦
        rw (take_line-message_in line out, e, messages-cons line lines none e)
          (read_lines-from lines out)
    | inr (m, e) ↦
        rw
          (
            take_line-message_in line out,
            e,
            take_message-records m out,
            messages-cons line lines (some m) e,
          )
          (read_lines-from lines _ ∙ rw (append_assoc, add_each-append) refl)
  ]

  -- Out of the lines of a tap come its RECORD messages, in their order, the streams of its SCHEMA messages,
  -- each once and in the order in which they first appear, and the value of its last STATE message that
  -- has one, or null; blank lines, lines that are no message and other messages add nothing, so that lines
  -- without any message give the empty result.
  pub read_lines-collects :
      (lines : List String)
      → ((read_lines codec lines no_result).records ≡ records_in (messages codec lines))
        × ((read_lines codec lines no_result).streams
            ≡ add_each (streams_in (messages codec lines)) [])
        × IsDistinct (read_lines codec lines no_result).streams
        × ((read_lines codec lines no_result).state ≡ last_state (messages codec lines) null)
  read_lines-collects lines =
      let whole = read_lines-from lines no_result in
      (
        rw whole refl,
        rw whole refl,
        rw whole (add_each-IsDistinct (streams_in (messages codec lines)) [] tt),
        rw whole refl,
      )

-- What encoding/json and bytes.TrimSpace promise of an encoded record: it is read back, and is a text
-- without space around it that is not empty.
pub record IsFaithful (codec : Lines) (r : Record) : Type 0 where
  pub decode-encode : codec.decode (codec.encode (record_value r)) ≡ some (record_value r)
  pub trim-encode : codec.trim (codec.encode (record_value r)) ≡ codec.encode (record_value r)
  pub encode-full : str_eq (codec.encode (record_value r)) "" ≡ false

abbrev pub AllFaithful : Lines → List Record → Type 0
AllFaithful codec [] = Unit
AllFaithful codec (r ∷ rs) = IsFaithful codec r × AllFaithful codec rs

module _ (codec : Lines) where
  message_in-encode :
      (r : Record)
      → IsFaithful codec r
      → message_in codec (codec.encode (record_value r))
        ≡ some
            (record { type = "RECORD"; stream = r.stream; payload = some r.payload; state = none })
  unfolding message_in message_of text_field index
  message_in-encode r faithful =
      rw (message_in, faithful.trim-encode, faithful.encode-full, faithful.decode-encode) refl

  records_in-target_lines :
      (rs : List Record)
      → AllFaithful codec rs
      → records_in (messages codec (target_lines codec rs)) ≡ rs
  unfolding target_lines
  records_in-target_lines [] faithful = unfold messages in refl
  records_in-target_lines (r ∷ rs) faithful =
      rw
        (messages-cons codec (codec.encode (record_value r)) (target_lines codec rs) _
          (message_in-encode r faithful.0))
        (ap (λ t. r ∷ t) (records_in-target_lines rs faithful.1))

records_of-record_items : (rs : List Record) → records_of (record_items rs) ≡ rs
unfolding records_of index string_or_empty
records_of-record_items [] = refl
records_of-record_items (r ∷ rs) = ap (λ t. r ∷ t) (records_of-record_items rs)

step_records-slice_value :
    (rs : List Record) (streams state : Value)
    → step_records (
        obj (
          field "records"
            (slice_value (record_items rs))
            (field "streams" streams (field "state" state end))))
      ≡ rs
unfolding index as_list records_of
step_records-slice_value [] streams state = refl
step_records-slice_value (r ∷ rs) streams state = records_of-record_items (r ∷ rs)

-- The input of a node behind one tap, whose own input has no steps.
records_from_input-thread_input :
    (parent : Fields) (name : String) (res : TapResult)
    → str_eq name "" ≡ false
    → steps_of parent ≡ end
    → records_from_input (thread_input parent name (tap_value res)) ≡ res.records
unfolding records_from_input records_of_steps thread_input index assign as_map steps_of event_of
records_from_input-thread_input parent name res named first =
    rw (named, first, append-nil (step_records (tap_value res)))
      (step_records-slice_value res.records (slice_value (text_items res.streams)) res.state)

-- The records of a tap node reach a target behind it, whose input has no other steps, unchanged and in their
-- order: a reader of the lines that RunTarget feeds gets the records that RunTap collected.
pub read_lines-target_lines :
    (codec : Lines) (parent : Fields) (name : String) (res : TapResult)
    → AllFaithful codec res.records
    → str_eq name "" ≡ false
    → steps_of parent ≡ end
    → (read_lines codec
        (target_lines codec (records_from_input (thread_input parent name (tap_value res))))
        no_result).records
      ≡ res.records
read_lines-target_lines codec parent name res faithful named first =
    rw (records_from_input-thread_input parent name res named first) (
      (read_lines-collects codec (target_lines codec res.records)).0
      ∙ records_in-target_lines codec res.records faithful)
