-- ===== src/Trigger/Guards.antt =====
-- What keeps a run from being started (internal/trigger/trigger.go).
use servitor.Prelude.{
  ℕ, String, Bool, true, false, Option, List, ◌≡◌, refl, str_eq, if◌then◌else◌, arith, lookup,
  Bool-cases, Option-cases, inl, inr,
}
use servitor.Prelude.Int.{ℤ}
use servitor.Honker.{QueueLib, Store}
use servitor.Registry.{Capability}
use servitor.Wafer.{Wafer}
use servitor.Trigger.Verify.{Crypto, Receiver, Resolved, verify}
use servitor.Trigger.Fire.{
  serve_http, serve_received, serve_matched, Reply, ok_200, method_not_allowed_405,
  unauthorized_401, internal_error_500,
}

abbrev pub is_refusal : Reply → Bool
is_refusal unauthorized_401 = true
is_refusal method_not_allowed_405 = true
is_refusal _ = false

outcome_of : (ok : Bool) → is_refusal (if ok then ok_200 else internal_error_500) ≡ false
outcome_of true = refl
outcome_of false = refl

module _ (lib : QueueLib) (types : List Capability) (parse : String → Option Wafer)
    (stamp : ℕ → ℕ) where
  serve_matched-reply :
      (path body : String) (r : Receiver) (s : Store lib.Live)
      → is_refusal (serve_matched lib types parse stamp path body r s).1 ≡ false
  unfolding serve_matched
  serve_matched-reply path body r s = outcome_of _

  module _ (crypto : Crypto) (receivers : List (String × Receiver))
      (resolve : Option (String → Resolved)) where
    serve_received-refused :
        (path body : String) (get : String → String) (now : ℤ) (s : Store lib.Live)
        → is_refusal
            (serve_received lib types parse stamp crypto receivers resolve path body get now s).1
          ≡ true
        → (serve_received lib types parse stamp crypto receivers resolve path body get now s).0 ≡ s
    unfolding serve_received
    serve_received-refused path body get now s h = elim (Option-cases (lookup path receivers)) [
      | inl e ↦ rw (serve_received, e) refl
      | inr (r, e) ↦ elim (Bool-cases (verify crypto r resolve get body now)) [
        | inl f ↦
            let bad : is_refusal (serve_matched lib types parse stamp path body r s).1 ≡ true =
              rw (serve_received, e, f) at h in
            absurd (grind (arith, bad, serve_matched-reply path body r s))
        | inr f ↦ rw (serve_received, e, f) refl
      ]
    ]

    -- A request that is answered 401 or 405 starts nothing.
    serve_http-refused :
        (method path body : String) (get : String → String) (now : ℤ)
        (events : List (String × String)) (s : Store lib.Live)
        → is_refusal
            (serve_http lib types parse stamp crypto receivers resolve method path body get now
              (events, s)).1
          ≡ true
        → (serve_http lib types parse stamp crypto receivers resolve method path body get now
            (events, s)).0.1
          ≡ s
    unfolding serve_http
    serve_http-refused method path body get now events s h =
        elim (Bool-cases (str_eq method "POST")) [
          | inl e ↦
              rw (serve_http, e)
                (serve_received-refused path body get now s (rw (serve_http, e) at h))
          | inr e ↦ rw (serve_http, e) refl
        ]
