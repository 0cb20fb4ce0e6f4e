-- ===== src/Config/Samples.antt =====
-- Configs built, saved and checked, and the theorems at them.
use servitor.Prelude.{
  ◌≡◌, refl, String, List, [], ◌∷◌, some, none, inl, inr, str_eq, if◌then◌else◌, lookup, insert,
  ◌||◌, ◌&&◌, not, sort_by,
}
use servitor.Prelude.Int.{pos}
use servitor.Trigger.Verify.{Crypto, Receiver, verify_with, verify_standard, verify_hmac}
use servitor.Config.{
  Config, SecretEntry, done, panicked, empty_config, validate, add_secret, remove_secret,
  add_webhook_receiver, secret_sources, add_tap, remove_tap, tap_names,
}
use servitor.Value.{str, obj, null, end, field}
use servitor.Config.Yaml.{Yaml, config_value}
use servitor.Config.Yaml.Read.{read_config}
use servitor.Config.Save.{Disk, checked, filled, make_parent, load, save}
use servitor.Config.Save.RoundTrip.{load-save}
use servitor.Config.Secrets.{knows, secret_sources-declared}
use servitor.Config.Receivers.{verify_with-validated}

abbrev entry : SecretEntry
entry = record { source = "env"; account = ""; permissions = []; expiry = "" }

abbrev receiver : Receiver
receiver = record {
  scheme = "hmac";
  secret = "hook";
  header = "";
  encoding = "hex";
  timestamp_header = "";
  prefix = "sha256";
}

abbrev small : Config
small = record empty_config {
  secrets = ("hook", some entry) ∷ [];
  webhook = ("/in", some receiver) ∷ [];
}

builds :
    add_webhook_receiver "/in" (some receiver) (add_secret "hook" (some entry) empty_config) ≡ small
unfolding add_webhook_receiver add_secret insert
builds = refl

-- An entry of the file without a value makes the check read through a nil pointer.
nil_receiver : validate (record empty_config { webhook = ("/in", none) ∷ [] }) ≡ panicked
unfolding validate
nil_receiver = refl

small-valid : validate small ≡ done tt
unfolding validate
small-valid = refl

taps : tap_names (remove_tap "b" (add_tap "a" [] [] (add_tap "b" [] [] empty_config))).0 ≡ "a" ∷ []
unfolding tap_names remove_tap add_tap insert lookup sort_by
taps = refl

-- A server with an address, a secret with permissions, a tap, and an entry without a value.
abbrev full : Config
full = record small {
  mcp =
      (
        "search",
        some (record {
          command = [];
          env = [];
          url = "https://mcp";
          headers = ("Authorization", "Bearer $TOKEN") ∷ [];
        }),
      )
      ∷ [];
  singer = some (record {
    taps = ("mail", some (record { command = "tap-mail" ∷ []; env = "TOKEN" ∷ [] })) ∷ [];
    targets = ("none", none) ∷ [];
  });
  secrets =
      (
        "hook",
        some (record {
          source = "env";
          account = "";
          permissions = "read" ∷ "write" ∷ [];
          expiry = "2027";
        }),
      )
      ∷ [];
}

-- A YAML package that knows one document.
abbrev one_text : Yaml
one_text = record {
  parse = λ text. if str_eq text "full" then inr (config_value full) else inl "unknown";
  marshal = λ v. inr "full";
  scalar = λ v. none;
  null_item = [];
  mismatch = λ v. "cannot unmarshal";
}

abbrev disk : Disk
disk = record {
  files = [];
  read_error = λ p. none;
  write_error = λ p. none;
  parent = λ p. ".";
  dir_error = λ p. some "denied";
}

parses_back : one_text.parse "full" ≡ inr (config_value (filled full))
unfolding filled
parses_back = refl

here : make_parent "servitor.config.yaml" disk ≡ none
unfolding make_parent
here = refl

load-save_example :
    (after : Disk) × ((save one_text full "" disk).0 ≡ done after)
    × (load one_text "" after ≡ checked (validate full) (filled full))
load-save_example = load-save one_text full "" "full" disk refl parses_back here refl refl

-- What is empty is left out where the tag says so, and a server without a value stays one.
written :
    config_value (record small { mcp = ("off", none) ∷ [] })
    ≡ obj (
        field "mcp" (obj (field "off" null end)) (
          field "singer" null (
            field "secrets" (obj (field "hook" (obj (field "source" (str "env") end)) end)) (
              field "webhook"
                (obj (
                  field "/in"
                    (obj (
                      field "scheme" (str "hmac") (
                        field "secret"
                          (str "hook")
                          (field "encoding" (str "hex") (field "prefix" (str "sha256") end)))))
                    end))
                end))))
unfolding config_value
written = refl

-- A section of the wrong kind is refused, and an unknown key passed over.
refused : read_config one_text (obj (field "mcp" (str "search") end)) ≡ none
unfolding read_config
refused = refl

unknown_key : read_config one_text (obj (field "extra" (str "x") end)) ≡ some empty_config
unfolding read_config
unknown_key = refl

small_sources : secret_sources small ≡ done (("hook", "env") ∷ [])
unfolding secret_sources
small_sources = refl

secret_sources-declared_example :
    (more less : List (String × String)) × (secret_sources (add_secret "token" (some entry) small)
      ≡ done more)
    × (secret_sources (remove_secret "token" small).0 ≡ done less)
    × ((wanted : String)
        → knows none more wanted
          ≡ (str_eq "token" wanted || knows none (("hook", "env") ∷ []) wanted))
    × ((wanted : String)
        → knows none less wanted
          ≡ (not (str_eq "token" wanted) && knows none (("hook", "env") ∷ []) wanted))
secret_sources-declared_example =
    secret_sources-declared none small "token" entry (("hook", "env") ∷ []) small_sources

abbrev crypto : Crypto
crypto = record { hmac = λ k m. k; base64 = λ s. s; hex = λ s. s }

at_in : lookup "/in" small.webhook ≡ some (some receiver)
unfolding lookup
at_in = refl

verify_with-validated_example :
    (r : Receiver) × (some receiver ≡ some r)
    × (verify_with crypto r "key" (λ h. "") "body" (pos 0) ≡ (
        if str_eq r.scheme "standard"
        then verify_standard crypto "key" (λ h. "") "body" (pos 0)
        else verify_hmac crypto "key" (λ h. "") "body" r (pos 0)))
verify_with-validated_example =
    verify_with-validated crypto small "/in" "key" "body" (λ h. "") (pos 0) (some receiver)
      small-valid at_in refl
