-- ===== src/Worker/Failures/Ends.antt =====
-- A node of internal/worker/worker.go that fails again and again.
pub mod Samples
use servitor.Prelude.{
  ℕ, suc, ◌+◌, ◌≤◌, ◌≡◌, refl, String, Bool, true, false, Option, none, some, List, [], ◌∷◌, ◌++◌,
  arith, if◌then◌else◌, Bool-cases, inl, inr, ap, ◌∙◌, select_row, leb, ltb, length,
}
use servitor.Job.{Head, NodeJob, head}
use servitor.Honker.{Status, failed, running, Claim, QueueLib, Store, Json, RunRow, is_run}
use servitor.Honker.Runs.{run_status, get_run}
use servitor.Worker.{
  Kind, secret_missing, source_unreachable, stale, other, Failure, Harness, World, run_failed,
}
use servitor.Worker.Failures.{record_failure}
use servitor.Worker.Failures.Retries.{is_final, record_failure-final, record_failure-retry}

abbrev pub has_failed : Option Status → Bool
has_failed (some failed) = true
has_failed _ = false

-- The claim of a job that `Retry` has returned to the queue: one more attempt.
abbrev pub again : Claim → Claim
again claim = record claim { attempts = suc claim.attempts }

is_final-late :
    (h : Harness) (kind : Kind) (n : ℕ)
    → h.max_attempts ≤ n
    → h.secret_retries ≤ n
    → is_final h kind n ≡ true
unfolding is_final
is_final-late h kind n attempts retries = ground arith

-- A failure that is retried comes before the queue's max, where the secret retries are no more than that.
is_final-before_max :
    (h : Harness) (kind : Kind) (n : ℕ)
    → h.secret_retries ≤ h.max_attempts
    → is_final h kind n ≡ false
    → leb h.max_attempts n ≡ false
unfolding is_final
is_final-before_max h kind n limits later = ground arith

module _ (lib : QueueLib) (h : Harness) (json : Json) (j : NodeJob) where
  -- The failures of the node's attempts one after another, until its run has failed or `Retry` finds the
  -- attempts at the queue's max and moves the job to the dead letters, so that it is not claimed again.
  unfoldable pub failing : List Failure → Claim → World lib.Live → World lib.Live
  unfolding run_status
  failing [] claim w = w
  failing (f ∷ fs) claim w =
      let w' = record_failure lib h json j claim f w in
      let rest = failing fs (again claim) w' in
      if has_failed (run_status (head j).run_id w'.store)
      then w'
      else if leb h.max_attempts claim.attempts
      then w'
      else rest

  abbrev pub HasEnded : World lib.Live → World lib.Live → Type 0
  HasEnded before w =
      (run_status (head j).run_id w.store ≡ some failed)
      × (w.events ≡ before.events ++ run_failed (head j).workflow_id (head j).run_id ∷ [])

  final-HasEnded :
      (f : Failure) (fs : List Failure) (claim : Claim) (w : World lib.Live) {r : RunRow}
      → get_run (head j).run_id w.store ≡ some r
      → is_final h f.kind claim.attempts ≡ true
      → HasEnded w (failing (f ∷ fs) claim w)
  unfolding failing
  final-HasEnded f fs claim w found final =
      let (live, status, events, saved) = record_failure-final lib h json j claim f w final found in
      rw (failing, status) (status, events)

  record_failure-runs :
      (f : Failure) (claim : Claim) (w : World lib.Live) {r : RunRow}
      → get_run (head j).run_id w.store ≡ some r
      → is_final h f.kind claim.attempts ≡ false
      → get_run (head j).run_id (record_failure lib h json j claim f w).store ≡ some r
  unfolding get_run
  record_failure-runs f claim w found again_later =
      let (live, runs, saved, events) = record_failure-retry lib h json j claim f w again_later in
      ap (select_row (is_run (head j).run_id)) runs ∙ found

  failing-retry :
      (f : Failure) (fs : List Failure) (claim : Claim) (w : World lib.Live) {r : RunRow}
      → get_run (head j).run_id w.store ≡ some r
      → r.status ≡ running
      → is_final h f.kind claim.attempts ≡ false
      → leb h.max_attempts claim.attempts ≡ false
      → failing (f ∷ fs) claim w ≡ failing fs (again claim) (record_failure lib h json j claim f w)
  unfolding failing run_status
  failing-retry f fs claim w found is_running again_later early =
      rw (failing, run_status, record_failure-runs f claim w found again_later, is_running, early)
        refl

  -- A failure that is still to be retried at the queue's max leaves the run `running` for good.
  failing-stuck :
      (f : Failure) (fs : List Failure) (claim : Claim) (w : World lib.Live) {r : RunRow}
      → get_run (head j).run_id w.store ≡ some r
      → r.status ≡ running
      → is_final h f.kind claim.attempts ≡ false
      → leb h.max_attempts claim.attempts ≡ true
      → (run_status (head j).run_id (failing (f ∷ fs) claim w).store ≡ some running)
        × ((failing (f ∷ fs) claim w).events ≡ w.events)
  unfolding failing run_status
  failing-stuck f fs claim w found is_running again_later spent =
      let (_, _, _, events) = record_failure-retry lib h json j claim f w again_later in
      let status = record_failure-runs f claim w found again_later in
      rw (failing, run_status, status, is_running, spent) (rw (status, is_running) refl, events)

  -- Where the secret retries are no more than the queue's max attempts, a node of a recorded run that fails
  -- at every attempt ends its run by the last attempt of the queue, whatever the failures are: the run is
  -- marked failed, and this is reported once.
  pub failing-ends :
      (fs : List Failure) (claim : Claim) (w : World lib.Live) (r : RunRow)
      → get_run (head j).run_id w.store ≡ some r
      → r.status ≡ running
      → h.secret_retries ≤ h.max_attempts
      → h.max_attempts ≤ claim.attempts + length fs
      → (f : Failure) → HasEnded w (failing (f ∷ fs) claim w)
  failing-ends [] claim w r found is_running limits enough f =
      final-HasEnded f [] claim w found
        (is_final-late h f.kind claim.attempts (omega arith) (omega arith))
  failing-ends (g ∷ fs) claim w r found is_running limits enough f =
      elim (Bool-cases (is_final h f.kind claim.attempts)) [
        | inl final ↦ final-HasEnded f (g ∷ fs) claim w found final
        | inr later ↦
            let w' = record_failure lib h json j claim f w in
            let early = is_final-before_max h f.kind claim.attempts limits later in
            let (status, events) =
              failing-ends fs (again claim) w' r (record_failure-runs f claim w found later)
                is_running limits (omega arith) g in
            let (live, runs, saved, same_events) =
              record_failure-retry lib h json j claim f w later in
            rw (failing-retry f (g ∷ fs) claim w found is_running later early) (
              status,
              events
                  ∙ ap (λ x. x ++ run_failed (head j).workflow_id (head j).run_id ∷ []) same_events,
            )
      ]
