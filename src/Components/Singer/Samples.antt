-- ===== src/Components/Singer/Samples.antt =====
-- A tap and a target on small inputs (internal/components/singer/singer.go), and the theorems at them.
use servitor.Prelude.{
  ◌≡◌, refl, String, List, [], ◌∷◌, some, none, str_eq, if◌then◌else◌, add_each, add_new, has,
  IsDistinct,
}
use servitor.Value.{Value, str, null, obj, end, field, index, as_map}
use servitor.Job.{thread_input, steps_of}
use servitor.Components.Singer.{
  Record, TapResult, no_result, Lines, read_lines, record_value, target_lines, records_from_input,
  tap_value, tap_flags,
}
use servitor.Components.Singer.Streams.{
  messages, records_in, streams_in, last_state, read_lines-collects, AllFaithful,
  read_lines-target_lines,
}

abbrev ada : Record
ada = record { stream = "users"; payload = str "ada" }

abbrev schema_line : Value
schema_line = obj (field "type" (str "SCHEMA") (field "stream" (str "users") end))

abbrev state_line : Value
state_line = obj (field "type" (str "STATE") (field "value" (str "page 2") end))

-- It knows three texts.
abbrev codec : Lines
codec = record {
  encode = λ v. "r";
  decode = λ s.
      if str_eq s "r"
      then some (record_value ada)
      else if str_eq s "s"
      then some schema_line
      else if str_eq s "t"
      then some state_line
      else none;
  trim = λ s. s;
}

abbrev lines : List String
lines = "s" ∷ "r" ∷ "noise" ∷ "" ∷ "t" ∷ "s" ∷ []

collected :
    read_lines codec lines no_result
    ≡ record { records = ada ∷ []; streams = "users" ∷ []; state = str "page 2" }
unfolding read_lines index add_new has
collected = refl

-- The first run of a tap gets no state.
flags :
    tap_flags "tmp"
      (record { command = "tap" ∷ []; env = []; config = null; catalog = null; state = null })
    ≡ ("--config" ∷ "tmp/config.json" ∷ [], ("config.json", null) ∷ [])
unfolding tap_flags
flags = refl

read_lines-collects_example :
    ((read_lines codec lines no_result).records ≡ records_in (messages codec lines))
    × ((read_lines codec lines no_result).streams ≡ add_each (streams_in (messages codec lines)) [])
    × IsDistinct (read_lines codec lines no_result).streams
    × ((read_lines codec lines no_result).state ≡ last_state (messages codec lines) null)
read_lines-collects_example = read_lines-collects codec lines

abbrev tapped : TapResult
tapped = record { records = ada ∷ ada ∷ []; streams = "users" ∷ []; state = null }

ada-faithful : AllFaithful codec tapped.records
ada-faithful = (
  record { decode-encode = refl; trim-encode = refl; encode-full = refl },
  (record { decode-encode = refl; trim-encode = refl; encode-full = refl }, tt),
)

no_steps : steps_of end ≡ end
unfolding steps_of index as_map
no_steps = refl

read_lines-target_lines_example :
    (read_lines codec
      (target_lines codec (records_from_input (thread_input end "tap" (tap_value tapped))))
      no_result).records
    ≡ tapped.records
read_lines-target_lines_example =
    read_lines-target_lines codec end "tap" tapped ada-faithful refl no_steps
