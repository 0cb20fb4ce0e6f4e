-- ===== src/Trigger.antt =====
-- internal/trigger/trigger.go: what starts a run. The verification of webhooks is in Verify, the
-- starting of runs in Fire.
pub mod Verify
pub mod Fire
pub mod Window
pub mod Guards
pub mod Samples
use servitor.Prelude.{
  String, Bool, ◌≡◌, str_eq, str_eq_iff, ◌||◌, if◌then◌else◌, arith, Option, Bool-cases, inl, inr,
  refl, true,
}
use servitor.Value.{index, string_or_empty}
use servitor.Wafer.{Trigger}

-- "" where there is no path.
unfoldable pub match_path : Trigger → String
match_path tr = string_or_empty (index "path" tr.config)

unfoldable pub is_webhook_type : String → Bool
is_webhook_type typ = str_eq typ "hmac-webhook" || str_eq typ "standard-webhook"

unfoldable pub scheme_for_type : String → String
scheme_for_type typ =
    if str_eq typ "hmac-webhook"
    then "hmac"
    else if str_eq typ "standard-webhook"
    then "standard"
    else ""

unfoldable pub type_for_scheme : String → String
type_for_scheme scheme =
    if str_eq scheme "hmac"
    then "hmac-webhook"
    else if str_eq scheme "standard"
    then "standard-webhook"
    else ""

-- A webhook type is given back by the scheme that it stands for.
type_for_scheme-scheme_for_type :
    (typ : String) → is_webhook_type typ ≡ true → type_for_scheme (scheme_for_type typ) ≡ typ
unfolding is_webhook_type scheme_for_type type_for_scheme
type_for_scheme-scheme_for_type typ h = elim (Bool-cases (str_eq typ "hmac-webhook")) [
  | inl e ↦ let same = (str_eq_iff typ "hmac-webhook").0 e in rw same refl
  | inr e ↦
      let other : str_eq typ "standard-webhook" ≡ true = rw e at h in
      let same = (str_eq_iff typ "standard-webhook").0 other in rw same refl
]
