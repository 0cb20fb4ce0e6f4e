-- ===== src/Trigger/Window.antt =====
-- Which requests pass the verification of internal/trigger/trigger.go.
use servitor.Prelude.{
  ◌≡◌, refl, arith, String, true, false, some, str_eq, any, codes, ◌<>◌, ◌||◌, ◌⊎◌, Bool-cases,
  Option-cases, inl, inr,
}
use servitor.Prelude.Int.{ℤ, pos, ◌+ℤ◌, ◌≤ℤ◌, -ℤ_parts, +ℤ_parts}
use servitor.Trigger.Verify.{
  Crypto, Receiver, Resolved, unreachable, missing, value, parse_int, in_window, is_recent, split,
  parts_of, is_signature, verify_standard, verify, verify_with,
}

-- A timestamp of at most 300 seconds before or after `now`.
abbrev pub IsClose : ℤ → ℤ → Type 0
IsClose now ts = (now ≤ℤ (ts +ℤ pos 300)) × (ts ≤ℤ (now +ℤ pos 300))

in_window-IsClose : (now ts : ℤ) → in_window now ts ≡ true → IsClose now ts
unfolding in_window
in_window-IsClose now ts h =
    ground (arith, h, -ℤ_parts now ts, +ℤ_parts ts (pos 300), +ℤ_parts now (pos 300))

abbrev pub IsRecent : ℤ → String → Type 0
IsRecent now raw = (ts : ℤ) × (parse_int (codes raw) ≡ some ts) × IsClose now ts

is_recent-IsRecent : (now : ℤ) (raw : String) → is_recent now raw ≡ true → IsRecent now raw
unfolding is_recent
is_recent-IsRecent now raw h = elim (Option-cases (parse_int (codes raw))) [
  | inl e ↦ let bad : false ≡ true = rw (is_recent, e) at h in absurd cc
  | inr (ts, e) ↦ (ts, e, in_window-IsClose now ts (rw (is_recent, e) at h))
]

Resolved-cases :
    (r : Resolved) → ((r ≡ unreachable) ⊎ (r ≡ missing)) ⊎ ((secret : String) × (r ≡ value secret))
Resolved-cases unreachable = inl (inl refl)
Resolved-cases missing = inl (inr refl)
Resolved-cases (value secret) = inr (secret, refl)

module _ (crypto : Crypto) where
  -- The message that the sender of a standard webhook has signed.
  abbrev pub standard_digest : String → (String → String) → String → String
  standard_digest secret get body =
      crypto.base64
        (crypto.hmac secret (get "webhook-id" <> "." <> get "webhook-timestamp" <> "." <> body))

  pub verify_standard-IsRecent :
      (secret body : String) (get : String → String) (now : ℤ)
      → verify_standard crypto secret get body now ≡ true
      → IsRecent now (get "webhook-timestamp")
        × (any
              (is_signature (standard_digest secret get body))
              (parts_of (split (get "webhook-signature")))
            ≡ true)
  unfolding verify_standard
  verify_standard-IsRecent secret body get now h =
      elim (Bool-cases (
        str_eq (get "webhook-id") ""
        || str_eq (get "webhook-timestamp") ""
        || str_eq (get "webhook-signature") "")) [
          | inl e ↦ let bad : false ≡ true = rw (verify_standard, e) at h in absurd cc
          | inr e ↦ elim (Bool-cases (is_recent now (get "webhook-timestamp"))) [
            | inl f ↦ (
              is_recent-IsRecent now (get "webhook-timestamp") f,
              rw (verify_standard, e, f) at h,
            )
            | inr f ↦ let bad : false ≡ true = rw (verify_standard, e, f) at h in absurd cc
          ]
        ]

  -- A request is turned away only with a key in hand.
  pub verify-refused :
      (r : Receiver) (resolve : String → Resolved) (get : String → String) (body : String) (now : ℤ)
      → verify crypto r (some resolve) get body now ≡ false
      → (secret : String) × (resolve r.secret ≡ value secret)
        × (verify_with crypto r secret get body now ≡ false)
  unfolding verify
  verify-refused r resolve get body now h = elim (Bool-cases (str_eq r.secret "")) [
    | inl e ↦ let bad : true ≡ false = rw (verify, e) at h in absurd cc
    | inr e ↦ elim (Resolved-cases (resolve r.secret)) [
      | inl (inl f) ↦ let bad : true ≡ false = rw (verify, e, f) at h in absurd cc
      | inl (inr f) ↦ let bad : true ≡ false = rw (verify, e, f) at h in absurd cc
      | inr (secret, f) ↦ (secret, f, rw (verify, e, f) at h)
    ]
  ]
