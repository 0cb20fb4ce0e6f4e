-- ===== src/Config.antt =====
-- internal/config/config.go: the declared connectors, secrets and webhook receivers of a box. A map of Go
-- is an association list, a nil map the empty one; a value of a map is a pointer, so `none` is nil, which
-- an entry of the file without a value decodes to.
pub mod Yaml
pub mod Save
mod Secrets
mod Receivers
mod Samples
use servitor.Prelude.{
  String, Bool, true, false, Option, none, some, List, [], ◌∷◌, map, str_eq, if◌then◌else◌, ◌||◌,
  not, ◌<>◌, quote, lookup, insert, remove, sort_by,
}
use servitor.Trigger.Verify.{Receiver}

pub record Server : Type 0 where
  pub command : List String
  pub env : List String
  pub url : String
  pub headers : List (String × String)

-- A tap or a target.
pub record Connector : Type 0 where
  pub command : List String
  pub env : List String

pub record SecretEntry : Type 0 where
  pub source : String
  pub account : String
  pub permissions : List String
  pub expiry : String

abbrev pub Table {ℓ} : Type ℓ → Type ℓ
Table V = List (String × Option V)

pub record SingerSection : Type 0 where
  pub taps : Table Connector
  pub targets : Table Connector

pub record Config : Type 0 where
  pub mcp : Table Server
  pub singer : Option SingerSection
  pub secrets : Table SecretEntry
  pub webhook : Table Receiver

abbrev pub empty_config : Config
empty_config = record { mcp = []; singer = none; secrets = []; webhook = [] }

abbrev pub no_connectors : SingerSection
no_connectors = record { taps = []; targets = [] }

-- A run that fails, or that reads through a nil pointer.
pub data Outcome {ℓ} (A : Type ℓ) : Type ℓ where
  done : A → Outcome A
  error : String → Outcome A
  panicked : Outcome A

unfoldable pub known_scheme : String → Bool
known_scheme scheme = str_eq scheme "hmac" || str_eq scheme "standard"

abbrev pub unknown_scheme : String → String → String
unknown_scheme path scheme =
    "config: webhook receiver "
    <> quote path
    <> ": unknown scheme "
    <> quote scheme
    <> " (must be \"hmac\" or \"standard\")"

-- The loop of `validate`, in the order of the list: the order of a Go map is any order.
unfoldable pub validate_receivers : Table Receiver → Outcome (Unit {0})
unfolding known_scheme
validate_receivers [] = done tt
validate_receivers ((path, entry) ∷ rest) =
    let later = validate_receivers rest in
    elim entry [
      | none ↦ panicked
      | some r ↦ if known_scheme r.scheme then later else error (unknown_scheme path r.scheme)
    ]

unfoldable pub validate : Config → Outcome (Unit {0})
unfolding validate_receivers
validate c = validate_receivers c.webhook

unfoldable pub declares {ℓ} : {V : Type ℓ} → String → List (String × V) → Bool
declares key entries = elim (lookup key entries) [ none ↦ false | some _ ↦ true ]

unfoldable pub add_mcp_server : String → List String → List String → Config → Config
add_mcp_server name command env c = record c {
  mcp = insert name (some (record { command = command; env = env; url = ""; headers = [] })) c.mcp;
}

unfoldable pub remove_mcp_server : String → Config → Config × Bool
unfolding remove declares
remove_mcp_server name c =
    if declares name c.mcp then (record c { mcp = remove name c.mcp }, true) else (c, false)

abbrev section_of : Option SingerSection → SingerSection
section_of none = no_connectors
section_of (some s) = s

abbrev connector : List String → List String → Option Connector
connector command env = some (record { command = command; env = env })

unfoldable pub add_tap : String → List String → List String → Config → Config
add_tap name command env c =
    let s = section_of c.singer in
    record c { singer = some (record s { taps = insert name (connector command env) s.taps }) }

unfoldable pub remove_tap : String → Config → Config × Bool
unfolding remove declares
remove_tap name c = elim c.singer [
  | none ↦ (c, false)
  | some s ↦
      if declares name s.taps
      then (record c { singer = some (record s { taps = remove name s.taps }) }, true)
      else (c, false)
]

unfoldable pub add_target : String → List String → List String → Config → Config
add_target name command env c =
    let s = section_of c.singer in
    record c {
      singer = some (record s { targets = insert name (connector command env) s.targets });
    }

unfoldable pub remove_target : String → Config → Config × Bool
unfolding remove declares
remove_target name c = elim c.singer [
  | none ↦ (c, false)
  | some s ↦
      if declares name s.targets
      then (record c { singer = some (record s { targets = remove name s.targets }) }, true)
      else (c, false)
]

unfoldable pub add_secret : String → Option SecretEntry → Config → Config
add_secret name s c = record c { secrets = insert name s c.secrets }

unfoldable pub remove_secret : String → Config → Config × Bool
unfolding remove declares
remove_secret name c =
    if declares name c.secrets
    then (record c { secrets = remove name c.secrets }, true)
    else (c, false)

unfoldable pub add_webhook_receiver : String → Option Receiver → Config → Config
add_webhook_receiver path r c = record c { webhook = insert path r c.webhook }

unfoldable pub remove_webhook_receiver : String → Config → Config × Bool
unfolding remove declares
remove_webhook_receiver path c =
    if declares path c.webhook
    then (record c { webhook = remove path c.webhook }, true)
    else (c, false)

-- The loop of SecretSources, with a nil secret as a panic.
unfoldable pub sources_from : Table SecretEntry → Outcome (List (String × String))
sources_from [] = done []
sources_from ((name, entry) ∷ rest) =
    let later = sources_from rest in
    elim entry [
      | none ↦ panicked
      | some s ↦ elim later [
        | done out ↦ done ((name, s.source) ∷ out)
        | error e ↦ error e
        | panicked ↦ panicked
      ]
    ]

unfoldable pub secret_sources : Config → Outcome (List (String × String))
unfolding sources_from
secret_sources c = sources_from c.secrets

abbrev key_of {ℓ} : {V : Type ℓ} → String × V → String
key_of (k, v) = k

abbrev itself : String → String
itself s = s

unfoldable pub sorted_keys {ℓ} : {V : Type ℓ} → List (String × V) → List String
sorted_keys m = sort_by itself (map key_of m)

unfoldable pub server_names : Config → List String
unfolding sorted_keys
server_names c = sorted_keys c.mcp

unfoldable pub receiver_paths : Config → List String
unfolding sorted_keys
receiver_paths c = sorted_keys c.webhook

unfoldable pub tap_names : Config → List String
unfolding sorted_keys
tap_names c = elim c.singer [ none ↦ [] | some s ↦ sorted_keys s.taps ]

unfoldable pub target_names : Config → List String
unfolding sorted_keys
target_names c = elim c.singer [ none ↦ [] | some s ↦ sorted_keys s.targets ]
