-- ===== src/Config/Yaml.antt =====
-- The YAML document of a config, by the struct tags of internal/config/config.go. The YAML package is a
-- parameter: the text of a document, what a scalar that is no string is where the Go field is a string, what
-- a null adds to a list of strings, and the error where a document does not fit. The list of a table stands
-- for the map in the order in which the package writes it.
pub mod Read
pub mod RoundTrip
use servitor.Prelude.{String, Option, none, some, List, [], ◌∷◌, ◌⊎◌, str_eq, if◌then◌else◌}
use servitor.Value.{Value, str, obj, arr, null, Items, nil, cons, Fields, end, field}
use servitor.Trigger.Verify.{Receiver}
use servitor.Config.{Config, Server, Connector, SecretEntry, SingerSection, Table}

pub record Yaml : Type 0 where
  pub parse : String → String ⊎ Value
  pub marshal : Value → String ⊎ String
  pub scalar : Value → Option String
  pub null_item : List String
  pub mismatch : Value → String

-- The fields of a struct; `none` is one that `omitempty` leaves out.
unfoldable pub fields_of : List (String × Option Value) → Fields
fields_of [] = end
fields_of ((tag, none) ∷ rest) = fields_of rest
fields_of ((tag, some v) ∷ rest) = field tag v (fields_of rest)

unfoldable pub texts : List String → Items
texts [] = nil
texts (s ∷ rest) = cons (str s) (texts rest)

unfoldable pub text_map : List (String × String) → Fields
text_map [] = end
text_map ((k, s) ∷ rest) = field k (str s) (text_map rest)

-- A nil pointer is written as null.
unfoldable pub table_fields {ℓ} : {A : Type ℓ} → (A → Value) → Table A → Fields
table_fields enc [] = end
table_fields enc ((k, none) ∷ rest) = field k null (table_fields enc rest)
table_fields enc ((k, some a) ∷ rest) = field k (enc a) (table_fields enc rest)

unfoldable pub omit_text : String → Option Value
omit_text s = if str_eq s "" then none else some (str s)

unfoldable pub omit_texts : List String → Option Value
unfolding texts
omit_texts [] = none
omit_texts (s ∷ rest) = some (arr (texts (s ∷ rest)))

unfoldable pub omit_map : List (String × String) → Option Value
unfolding text_map
omit_map [] = none
omit_map (e ∷ rest) = some (obj (text_map (e ∷ rest)))

abbrev pub receiver_fields : Receiver → List (String × Option Value)
receiver_fields r =
    ("scheme", some (str r.scheme))
    ∷ ("secret", omit_text r.secret)
    ∷ ("header", omit_text r.header)
    ∷ ("encoding", omit_text r.encoding)
    ∷ ("timestamp_header", omit_text r.timestamp_header)
    ∷ ("prefix", omit_text r.prefix)
    ∷ []

abbrev pub secret_fields : SecretEntry → List (String × Option Value)
secret_fields s =
    ("source", some (str s.source))
    ∷ ("account", omit_text s.account)
    ∷ ("permissions", omit_texts s.permissions)
    ∷ ("expiry", omit_text s.expiry)
    ∷ []

abbrev pub server_fields : Server → List (String × Option Value)
server_fields s =
    ("command", some (arr (texts s.command)))
    ∷ ("env", omit_texts s.env)
    ∷ ("url", omit_text s.url)
    ∷ ("headers", omit_map s.headers)
    ∷ []

abbrev pub connector_fields : Connector → List (String × Option Value)
connector_fields c = ("command", some (arr (texts c.command))) ∷ ("env", omit_texts c.env) ∷ []

unfoldable pub receiver_value : Receiver → Value
unfolding fields_of omit_text
receiver_value r = obj (fields_of (receiver_fields r))

unfoldable pub secret_value : SecretEntry → Value
unfolding fields_of omit_text omit_texts
secret_value s = obj (fields_of (secret_fields s))

unfoldable pub server_value : Server → Value
unfolding fields_of texts omit_text omit_texts omit_map
server_value s = obj (fields_of (server_fields s))

unfoldable pub connector_value : Connector → Value
unfolding fields_of texts omit_texts
connector_value c = obj (fields_of (connector_fields c))

abbrev pub section_fields : SingerSection → List (String × Option Value)
section_fields s =
    ("taps", some (obj (table_fields connector_value s.taps)))
    ∷ ("targets", some (obj (table_fields connector_value s.targets)))
    ∷ []

unfoldable pub section_value : Option SingerSection → Value
unfolding fields_of table_fields connector_value
section_value none = null
section_value (some s) = obj (fields_of (section_fields s))

abbrev pub config_fields : Config → List (String × Option Value)
config_fields c =
    ("mcp", some (obj (table_fields server_value c.mcp)))
    ∷ ("singer", some (section_value c.singer))
    ∷ ("secrets", some (obj (table_fields secret_value c.secrets)))
    ∷ ("webhook", some (obj (table_fields receiver_value c.webhook)))
    ∷ []

unfoldable pub config_value : Config → Value
unfolding fields_of table_fields section_value server_value secret_value receiver_value
config_value c = obj (fields_of (config_fields c))
