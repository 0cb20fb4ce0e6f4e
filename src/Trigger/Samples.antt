-- ===== src/Trigger/Samples.antt =====
-- Small requests to internal/trigger/trigger.go, and the theorems at them.
use servitor.Prelude.{
  ℕ, ◌≡◌, refl, String, true, false, Option, none, some, List, [], ◌∷◌, str_eq, if◌then◌else◌, any,
  codes, lookup, select_row, ◌<>◌,
}
use servitor.Prelude.Int.{pos, negsuc, ◌-ℤ◌}
use servitor.Value.{str, end, field}
use servitor.Honker.{Store}
use servitor.Honker.Samples.{Op, queue, store}
use servitor.Registry.Samples.{types}
use servitor.Wafer.{Wafer, Trigger}
use servitor.Trigger.{is_webhook_type}
use servitor.Trigger.Verify.{
  Crypto, Receiver, Resolved, value, missing, verify, verify_with, verify_standard, verify_hmac,
  is_signature, split, parts_of, parse_int,
}
use servitor.Trigger.Window.{IsRecent, standard_digest, verify_standard-IsRecent, verify-refused}
use servitor.Trigger.Fire.{serve_http}
use servitor.Trigger.Guards.{is_refusal}

-- No digest at all: the key and the message side by side.
abbrev crypto : Crypto
crypto = record { hmac = λ key message. key <> "|" <> message; base64 = λ s. s; hex = λ s. s }

abbrev receiver : Receiver
receiver = record {
  scheme = "standard";
  secret = "KEY";
  header = "";
  encoding = "";
  timestamp_header = "";
  prefix = "";
}

abbrev timed : Receiver
timed = record receiver { scheme = "hmac"; timestamp_header = "x-time"; prefix = "v0" }

abbrev signed : String → String
signed name =
    if str_eq name "webhook-id"
    then "m1"
    else if str_eq name "webhook-timestamp"
    then "1000"
    else if str_eq name "webhook-signature"
    then "v1,old v1,key|m1.1000.hello"
    else if str_eq name "x-time"
    then "1000"
    else if str_eq name "x-servitor-signature"
    then "v0=key|v0:1000:hello"
    else ""

abbrev resolve : String → Resolved
resolve name = if str_eq name "KEY" then value "key" else missing

program : Unit {0}
unfolding verify verify_standard verify_hmac parse_int lookup select_row is_webhook_type ◌-ℤ◌
program = tt

minus : parse_int (codes "-42") ≡ some (negsuc 41)
unfolding program
minus = refl

too_large : parse_int (codes "9223372036854775808") ≡ none
unfolding program
too_large = refl

standard_passes : verify_standard crypto "key" signed "hello" (pos 1300) ≡ true
unfolding program
standard_passes = refl

hmac_passes : verify_hmac crypto "key" signed "hello" timed (pos 700) ≡ true
unfolding program
hmac_passes = refl

too_late : verify crypto receiver (some resolve) signed "hello" (pos 1301) ≡ false
unfolding program
too_late = refl

unresolved :
    verify crypto (record receiver { secret = "GONE" }) (some resolve) signed "forged" (pos 0)
    ≡ true
unfolding program
unresolved = refl

verify_standard-IsRecent_example :
    IsRecent (pos 1300) "1000"
    × (any
          (is_signature (standard_digest crypto "key" signed "hello"))
          (parts_of (split (signed "webhook-signature")))
        ≡ true)
verify_standard-IsRecent_example =
    verify_standard-IsRecent crypto "key" "hello" signed (pos 1300) standard_passes

verify-refused_example :
    (secret : String) × (resolve "KEY" ≡ value secret)
    × (verify_with crypto receiver secret signed "hello" (pos 1301) ≡ false)
verify-refused_example = verify-refused crypto receiver resolve signed "hello" (pos 1301) too_late

abbrev after_build : Trigger
after_build = record { type = "completed"; config = field "workflow" (str "build") end }

abbrev deploy : Wafer
deploy = record { name = "deploy"; on = after_build ∷ []; nodes = []; on_failure = "" }

abbrev parse : String → Option Wafer
parse text = some deploy

abbrev stamp : ℕ → ℕ
stamp n = n

abbrev registered : Store (List Op)
registered = record store {
  workflows =
      record { name = "deploy"; wafer = "text"; enabled = true }
      ∷ record { name = "old"; wafer = "text"; enabled = false }
      ∷ [];
}

late_reply :
    is_refusal
      (serve_http queue types parse stamp crypto
        (("/in", receiver) ∷ [])
        (some resolve)
        "POST"
        "/in"
        "hello"
        signed
        (pos 1301)
        ([], registered)).1
    ≡ true
unfolding program serve_http
late_reply = refl
