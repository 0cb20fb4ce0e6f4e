-- ===== src/Trigger/Verify.antt =====
-- The signatures of webhooks (internal/trigger/trigger.go). Texts stand for byte strings. A receiver
-- is the WebhookReceiver of internal/config/config.go.
use Prim.Native.Char.{code}
use servitor.Prelude.{
  cut_prefix, ℕ, zero, suc, ◌+◌, ◌-◌, ◌*◌, String, Bool, true, false, Option, none, some, List, [],
  ◌∷◌, str_eq, ◌==◌, leb, ltb, ◌&&◌, ◌||◌, if◌then◌else◌, ◌<>◌, codes, any, ◌>>=◌,
}
use servitor.Prelude.Int.{ℤ, pos, negsuc, ◌-ℤ◌, ltb_ℤ}

pub record Receiver : Type 0 where
  pub scheme : String
  pub secret : String
  pub header : String
  pub encoding : String
  pub timestamp_header : String
  pub prefix : String

-- HMAC-SHA256 of a message under a key, and the two encodings of a digest.
pub record Crypto : Type 0 where
  pub hmac : String → String → String
  pub base64 : String → String
  pub hex : String → String

-- What the secret resolver says of one name: an error, missing, or its value.
pub data Resolved : Type 0 where
  unreachable : Resolved
  missing : Resolved
  value : String → Resolved

-- The decimal number that the digits make, `none` where there is another character.
unfoldable pub digits_value : List ℕ → ℕ → Option ℕ
digits_value [] n = some n
digits_value (c ∷ cs) n =
    let rest = digits_value cs (n * 10 + (c - b'0')) in
    if leb b'0' c && leb c b'9' then rest else none

unfoldable pub digits : List ℕ → Option ℕ
unfolding digits_value
digits [] = none
digits (c ∷ cs) = digits_value (c ∷ cs) 0

abbrev negated : ℕ → ℤ
negated zero = pos 0
negated (suc n) = negsuc n

abbrev below_2_63 : ℕ → Option ℤ
below_2_63 n = if ltb n 9223372036854775808 then some (pos n) else none

abbrev to_2_63 : ℕ → Option ℤ
to_2_63 n = if leb n 9223372036854775808 then some (negated n) else none

-- strconv.ParseInt(s, 10, 64), an error as `none`.
unfoldable pub parse_int : List ℕ → Option ℤ
unfolding digits
parse_int [] = none
parse_int (c ∷ cs) =
    if c == b'-'
    then (digits cs >>= to_2_63)
    else if c == b'+'
    then (digits cs >>= below_2_63)
    else (digits (c ∷ cs) >>= below_2_63)

-- `delta < -300 || delta > 300`, for a clock so far from the ends of an int64 that the difference
-- is in the window only where it does not wrap round.
unfoldable pub in_window : ℤ → ℤ → Bool
in_window now ts =
    if ltb_ℤ (now -ℤ ts) (negsuc 299) || ltb_ℤ (pos 300) (now -ℤ ts) then false else true

-- strings.Split at spaces: the part in front, and the others.
unfoldable pub split : String → String × List String
split String.[] = ("", [])
split (String.◌∷◌ c s) =
    let (part, parts) = split s in
    if code c == b' ' then ("", part ∷ parts) else (String.◌∷◌ c part, parts)

abbrev pub parts_of : String × List String → List String
parts_of (part, parts) = part ∷ parts

-- A part `v1,<signature>` whose signature is the expected one.
unfoldable pub is_signature : String → String → Bool
is_signature expected part = str_eq part ("v1," <> expected)

-- strings.TrimPrefix
unfoldable pub trim_prefix : String → String → String
unfolding cut_prefix
trim_prefix p s = elim (cut_prefix p s) [ none ↦ s | some rest ↦ rest ]

-- A timestamp header holds a number in the window.
unfoldable pub is_recent : ℤ → String → Bool
unfolding parse_int in_window
is_recent now raw = elim (parse_int (codes raw)) [ none ↦ false | some ts ↦ in_window now ts ]

module _ (crypto : Crypto) where
  -- `get` is http.Header.Get: "" where there is no such header.
  unfoldable pub verify_standard : String → (String → String) → String → ℤ → Bool
  unfolding is_recent split is_signature
  verify_standard secret get body now =
      let id = get "webhook-id" in
      let raw = get "webhook-timestamp" in
      let signatures = get "webhook-signature" in
      if str_eq id "" || str_eq raw "" || str_eq signatures ""
      then false
      else if is_recent now raw
      then any (is_signature (crypto.base64 (crypto.hmac secret (id <> "." <> raw <> "." <> body))))
          (parts_of (split signatures))
      else false

  -- The last lines of verifyHMAC: the digest of the message against the header's value.
  unfoldable pub check_digest : String → String → String → String → Bool
  check_digest secret encoding got message =
      let used = if str_eq encoding "" then "base64" else encoding in
      if str_eq used "hex"
      then str_eq got (crypto.hex (crypto.hmac secret message))
      else if str_eq used "base64"
      then str_eq got (crypto.base64 (crypto.hmac secret message))
      else false

  abbrev pub signature_header : Receiver → String
  signature_header r = if str_eq r.header "" then "x-servitor-signature" else r.header

  abbrev pub signature_value : Receiver → String → String
  signature_value r got = if str_eq r.prefix "" then got else trim_prefix (r.prefix <> "=") got

  abbrev pub timed_message : Receiver → String → String → String
  timed_message r raw body =
      (if str_eq r.prefix "" then "" else r.prefix <> ":") <> raw <> ":" <> body

  unfoldable pub verify_hmac : String → (String → String) → String → Receiver → ℤ → Bool
  unfolding check_digest is_recent trim_prefix
  verify_hmac secret get body r now =
      let got = get (signature_header r) in
      if str_eq got ""
      then false
      else if str_eq r.timestamp_header ""
      then check_digest secret r.encoding (signature_value r got) body
      else (let raw = get r.timestamp_header in
          if str_eq raw ""
          then false
          else if is_recent now raw
          then check_digest secret r.encoding (signature_value r got) (timed_message r raw body)
          else false)

  -- `resolve` is the resolver at one name, `none` where the receiver has no resolver.
  unfoldable pub verify_with : Receiver → String → (String → String) → String → ℤ → Bool
  unfolding verify_standard verify_hmac
  verify_with r secret get body now =
      if str_eq secret ""
      then true
      else if str_eq r.scheme "standard"
      then verify_standard secret get body now
      else if str_eq r.scheme "hmac"
      then verify_hmac secret get body r now
      else true

  unfoldable pub verify :
      Receiver → Option (String → Resolved) → (String → String) → String → ℤ → Bool
  unfolding verify_with
  verify r none get body now = true
  verify r (some resolve) get body now =
      if str_eq r.secret "" then true else elim (resolve r.secret) [
        | unreachable ↦ true
        | missing ↦ true
        | value secret ↦ verify_with r secret get body now
      ]
