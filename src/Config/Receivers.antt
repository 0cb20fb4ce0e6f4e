-- ===== src/Config/Receivers.antt =====
-- The receivers of a config that passed its check.
use servitor.Prelude.{
  ◌≡◌, refl, true, false, Option, none, some, [], ◌∷◌, inl, inr, String, arith, str_eq,
  if◌then◌else◌, lookup, Bool-cases,
}
use servitor.Prelude.Int.{ℤ}
use servitor.Trigger.Verify.{Crypto, Receiver, verify_standard, verify_hmac, verify_with}
use servitor.Config.{
  Config, Table, done, error, known_scheme, unknown_scheme, validate_receivers, validate,
}

-- The receiver found at a path of a checked table.
validate_receivers-known :
    (path : String) (entry : Option Receiver) (entries : Table Receiver)
    → validate_receivers entries ≡ done tt
    → lookup path entries ≡ some entry
    → (r : Receiver) × (entry ≡ some r) × (known_scheme r.scheme ≡ true)
unfolding validate_receivers lookup
validate_receivers-known path entry [] h found = absurd cc
validate_receivers-known path entry ((old, none) ∷ rest) h found = absurd cc
validate_receivers-known path entry ((old, some r) ∷ rest) h found =
    elim (Bool-cases (known_scheme r.scheme)) [
      | inr bad ↦
          let wrong : error (unknown_scheme old r.scheme) ≡ done tt = rw bad at h in absurd cc
      | inl fine ↦ elim (Bool-cases (str_eq old path)) [
        | inl here ↦ let same : some (some r) ≡ some entry = rw here at found in (r, cc, fine)
        | inr later ↦ validate_receivers-known path entry rest (rw fine at h) (rw later at found)
      ]
    ]

-- In a config that passes the check every declared path has a receiver, not a nil one, and a request with
-- the receiver's secret is judged by the standard or by the HMAC signature, as the scheme says: the branch
-- that lets any request pass is not reached.
pub verify_with-validated :
    (crypto : Crypto) (c : Config) (path secret body : String) (get : String → String) (now : ℤ)
    (entry : Option Receiver)
    → validate c ≡ done tt
    → lookup path c.webhook ≡ some entry
    → str_eq secret "" ≡ false
    → (r : Receiver) × (entry ≡ some r)
      × (verify_with crypto r secret get body now ≡ (
          if str_eq r.scheme "standard"
          then verify_standard crypto secret get body now
          else verify_hmac crypto secret get body r now))
unfolding validate known_scheme verify_with
verify_with-validated crypto c path secret body get now entry h found keyed =
    let (r, is_r, known) = validate_receivers-known path entry c.webhook h found in
    (r, is_r, by_scheme r known)
  where
    by_scheme :
        (r : Receiver)
        → known_scheme r.scheme ≡ true
        → verify_with crypto r secret get body now ≡ (
            if str_eq r.scheme "standard"
            then verify_standard crypto secret get body now
            else verify_hmac crypto secret get body r now)
    by_scheme r known = elim (Bool-cases (str_eq r.scheme "standard")) [
      | inl e ↦ rw (verify_with, keyed, e) refl
      | inr e ↦
          let hmac : str_eq r.scheme "hmac" ≡ true = ground arith in
          rw (verify_with, keyed, e, hmac) refl
    ]
