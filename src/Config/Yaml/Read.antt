-- ===== src/Config/Yaml/Read.antt =====
-- A config read out of a YAML document, by the struct tags of internal/config/config.go. Keys that the
-- structs do not have are passed over.
use servitor.Prelude.{String, Option, none, some, List, [], ◌∷◌, ◌++◌, ◌>>=◌}
use servitor.Value.{Value, str, obj, arr, null, Items, nil, cons, Fields, end, field, index}
use servitor.Trigger.Verify.{Receiver}
use servitor.Config.{Config, Server, Connector, SecretEntry, SingerSection, Table, empty_config}
use servitor.Config.Yaml.{Yaml}

-- A key that is missing, or null, leaves the zero value; `none` is a value that does not fit the type.
module _ (y : Yaml) where
  unfoldable pub text_of : Option Value → Option String
  text_of none = some ""
  text_of (some null) = some ""
  text_of (some (str s)) = some s
  text_of (some (obj _)) = none
  text_of (some (arr _)) = none
  text_of (some v) = y.scalar v

  unfoldable pub each_text : Items → Option (List String)
  unfolding text_of
  each_text nil = some []
  each_text (cons null rest) = each_text rest >>= λ ss. some (y.null_item ++ ss)
  each_text (cons v rest) =
      let more = each_text rest in text_of (some v) >>= λ s. more >>= λ ss. some (s ∷ ss)

  unfoldable pub texts_of : Option Value → Option (List String)
  unfolding each_text
  texts_of none = some []
  texts_of (some null) = some []
  texts_of (some (arr xs)) = each_text xs
  texts_of (some _) = none

  unfoldable pub each_entry : Fields → Option (List (String × String))
  unfolding text_of
  each_entry end = some []
  each_entry (field k v rest) =
      let more = each_entry rest in text_of (some v) >>= λ s. more >>= λ ss. some ((k, s) ∷ ss)

  unfoldable pub text_map_of : Option Value → Option (List (String × String))
  unfolding each_entry
  text_map_of none = some []
  text_map_of (some null) = some []
  text_map_of (some (obj m)) = each_entry m
  text_map_of (some _) = none

  -- Null is a nil pointer.
  unfoldable pub pointer {ℓ} : {A : Type ℓ} → (Fields → Option A) → Value → Option (Option A)
  pointer dec null = some none
  pointer dec (obj m) = dec m >>= λ a. some (some a)
  pointer dec _ = none

  unfoldable pub each_pointer {ℓ} : {A : Type ℓ} → (Fields → Option A) → Fields → Option (Table A)
  unfolding pointer
  each_pointer dec end = some []
  each_pointer dec (field k v rest) =
      let more = each_pointer dec rest in pointer dec v >>= λ a. more >>= λ t. some ((k, a) ∷ t)

  unfoldable pub table_of {ℓ} : {A : Type ℓ} → (Fields → Option A) → Option Value → Option (Table A)
  unfolding each_pointer
  table_of dec none = some []
  table_of dec (some null) = some []
  table_of dec (some (obj m)) = each_pointer dec m
  table_of dec (some _) = none

  unfoldable pub receiver_of : Fields → Option Receiver
  unfolding text_of index
  receiver_of m = do
    scheme ← text_of (index "scheme" m)
    secret ← text_of (index "secret" m)
    header ← text_of (index "header" m)
    encoding ← text_of (index "encoding" m)
    timestamp_header ← text_of (index "timestamp_header" m)
    prefix ← text_of (index "prefix" m)
    some (record {
      scheme = scheme;
      secret = secret;
      header = header;
      encoding = encoding;
      timestamp_header = timestamp_header;
      prefix = prefix;
    })

  unfoldable pub secret_of : Fields → Option SecretEntry
  unfolding text_of texts_of index
  secret_of m = do
    source ← text_of (index "source" m)
    account ← text_of (index "account" m)
    permissions ← texts_of (index "permissions" m)
    expiry ← text_of (index "expiry" m)
    some (record { source = source; account = account; permissions = permissions; expiry = expiry })

  unfoldable pub server_of : Fields → Option Server
  unfolding text_of texts_of text_map_of index
  server_of m = do
    command ← texts_of (index "command" m)
    env ← texts_of (index "env" m)
    url ← text_of (index "url" m)
    headers ← text_map_of (index "headers" m)
    some (record { command = command; env = env; url = url; headers = headers })

  unfoldable pub connector_of : Fields → Option Connector
  unfolding texts_of index
  connector_of m = do
    command ← texts_of (index "command" m)
    env ← texts_of (index "env" m)
    some (record { command = command; env = env })

  unfoldable pub read_section : Fields → Option SingerSection
  unfolding table_of connector_of index
  read_section m = do
    taps ← table_of connector_of (index "taps" m)
    targets ← table_of connector_of (index "targets" m)
    some (record { taps = taps; targets = targets })

  unfoldable pub singer_of : Option Value → Option (Option SingerSection)
  unfolding pointer read_section
  singer_of none = some none
  singer_of (some v) = pointer read_section v

  unfoldable pub read_config : Value → Option Config
  unfolding table_of singer_of server_of secret_of receiver_of index
  read_config null = some empty_config
  read_config (obj m) = do
    mcp ← table_of server_of (index "mcp" m)
    singer ← singer_of (index "singer" m)
    secrets ← table_of secret_of (index "secrets" m)
    webhook ← table_of receiver_of (index "webhook" m)
    some (record { mcp = mcp; singer = singer; secrets = secrets; webhook = webhook })
  read_config _ = none
