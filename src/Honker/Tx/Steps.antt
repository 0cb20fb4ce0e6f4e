-- ===== src/Honker/Tx/Steps.antt =====
-- The steps of `CommitNodeAtom` one by one (internal/honker/tx.go).
use servitor.Prelude.{
  ℕ, suc, ◌+◌, ◌≡◌, refl, String, true, Option, none, some, List, [], ◌∷◌, str_eq_iff,
  if◌then◌else◌, has, length, select_row, select_row-replace, replace, ◌>>=◌, >>=-eq-some, arith,
  ap, ◌∙◌, sym, Bool-cases, inl, inr,
}
use mathlib.Core.Option.{some-injective}
use servitor.Prelude.Int.{ℤ, pos, ◌+ℤ◌, int_laws}
use servitor.Value.{Value}
use servitor.Job.{NodeJob}
use servitor.Honker.{
  DedupeRow, SingerRow, DepRow, RunRow, Claim, QueueLib, Store, is_result, is_run,
}
use servitor.Honker.Deps.{decrement_dependents, is_zero}
use servitor.Honker.Runs.{get_run, adjust_pending}
use servitor.Honker.Runs.Rows.{changed, get_run-adjust_pending}
use servitor.Honker.Tx.{
  write_result, write_dedupe, write_singer, result, enqueue_ready, fan_out, ack, adjust_net,
}

-- The jobs that a completion starts: those of ready dependents, and those behind the dependents.
unfoldable pub started : List String → List String → List NodeJob → List NodeJob
started ready deps [] = []
started ready [] (d ∷ ds) = d ∷ started ready [] ds
started ready (dep ∷ deps) (d ∷ ds) =
    let rest = started ready deps ds in if has dep ready then d ∷ rest else rest

-- One more job before a loop that counts.
abbrev bump : {L : Type 0} → ℕ × L → Option (ℕ × L)
bump x = some (x.0 + 1, x.1)

abbrev tag : {L : Type 0} → ℕ → L → Option (ℕ × L)
tag k x = some (k, x)

bump-tag : {L : Type 0} (o : Option L) (k : ℕ) → (o >>= tag k >>= bump) ≡ (o >>= tag (suc k))
bump-tag none k = refl
bump-tag {L = L} (some x) k =
    let next : k + 1 ≡ suc k = omega arith in ap (λ (n : ℕ). tag {L = L} n x) next

one_more :
    {L : Type 0} (m : Option L) (f : L → Option (ℕ × L)) (g : L → Option L) (k : ℕ)
    → ((l : L) → f l ≡ (g l >>= tag k))
    → (m >>= λ l. f l >>= bump) ≡ (m >>= g >>= tag (suc k))
one_more none f g k same = refl
one_more (some l) f g k same = rw (same l) (bump-tag (g l) k)

module _ (lib : QueueLib) where
  unfoldable pub enqueue_all : List NodeJob → lib.Live → Option lib.Live
  enqueue_all [] live = some live
  enqueue_all (d ∷ ds) live = do live' ← lib.enqueue d (pos 0) live; enqueue_all ds live'

  -- The loop enqueues these jobs in their order, and counts them.
  pub enqueue_ready-started :
      (ready deps : List String) (ds : List NodeJob) (live : lib.Live)
      → enqueue_ready lib ready deps ds live
        ≡ (enqueue_all (started ready deps ds) live >>= tag (length (started ready deps ds)))
  unfolding started enqueue_all enqueue_ready
  enqueue_ready-started ready deps [] live = refl
  enqueue_ready-started ready [] (d ∷ ds) live =
      one_more (lib.enqueue d (pos 0) live) _ (enqueue_all (started ready [] ds)) _
        (enqueue_ready-started ready [] ds)
  enqueue_ready-started ready (dep ∷ deps) (d ∷ ds) live = elim (Bool-cases (has dep ready)) [
    | inl now ↦ rw now (
        one_more (lib.enqueue d (pos 0) live) _ (enqueue_all (started ready deps ds)) _
          (enqueue_ready-started ready deps ds))
    | inr later ↦ rw later (enqueue_ready-started ready deps ds live)
  ]

  pub fan_out-inv :
      (run : String) (deps : List String) (ds : List NodeJob) (s : Store lib.Live) {n : ℕ}
      {s' : Store lib.Live}
      → fan_out lib run deps ds s ≡ some (n, s')
      → (ready : List String) × (rows : List DepRow) × (live : lib.Live) × (decrement_dependents run
            deps s.run_deps
          ≡ some (ready, rows))
        × (enqueue_all (started ready deps ds) s.live ≡ some live)
        × (n ≡ length (started ready deps ds))
        × (s' ≡ record s { run_deps = rows; live = live })
  unfolding fan_out
  fan_out-inv run deps ds s h =
      let put : List String × List DepRow → ℕ × lib.Live → Option (ℕ × Store lib.Live) =
        λ p q. some (q.0, record s { run_deps = p.1; live = q.1 }) in
      let ((ready, rows), h1, h') =
        >>=-eq-some (decrement_dependents run deps s.run_deps)
          (λ p. enqueue_ready lib p.0 deps ds s.live >>= put p) h in
      let ((n', live), h2, h'') =
        >>=-eq-some (enqueue_ready lib ready deps ds s.live) (put (ready, rows)) h' in
      let (live', h3, h4) =
        >>=-eq-some (enqueue_all (started ready deps ds) s.live)
          (tag (length (started ready deps ds)))
          (sym (enqueue_ready-started ready deps ds s.live) ∙ h2) in
      (ready, rows, live', h1, h3, cc, cc)

  -- The queue after the claim's ack, where there is a claim.
  unfoldable pub acked : Option Claim → lib.Live → Option lib.Live
  acked none live = some live
  acked (some c) live = lib.ack c live

  pub ack-inv :
      (job : Option Claim) (s : Store lib.Live) {s' : Store lib.Live}
      → ack lib job s ≡ some s'
      → (acked job s.live ≡ some s'.live) × (s' ≡ record s { live = s'.live })
  unfolding ack acked
  ack-inv none s h =
      let eq = some-injective s _ h in
      (ap (λ x. some x.live) eq, sym eq ∙ ap (λ x. record s { live = x.live }) eq)
  ack-inv (some c) s h =
      let put : lib.Live → Option (Store lib.Live) = λ l. some (record s { live = l }) in
      let (live, h1, h2) = >>=-eq-some (lib.ack c s.live) put h in
      let eq = some-injective (record s { live = live }) _ h2 in
      (h1 ∙ ap (λ x. some x.live) eq, sym eq ∙ ap (λ x. record s { live = x.live }) eq)

  pub write_singer-frame :
      (d : Option SingerRow) (s : Store lib.Live)
      → ((write_singer d s).live ≡ s.live)
        × ((write_singer d s).run_deps ≡ s.run_deps)
        × ((write_singer d s).runs ≡ s.runs)
        × ((write_singer d s).node_results ≡ s.node_results)
  unfolding write_singer
  write_singer-frame none s = (refl, refl, refl, refl)
  write_singer-frame (some d) s = (refl, refl, refl, refl)

  pub adjust_net-frame :
      (run : String) (delta : ℤ) (s : Store lib.Live)
      → ((adjust_net lib run delta s).live ≡ s.live)
        × ((adjust_net lib run delta s).run_deps ≡ s.run_deps)
        × ((adjust_net lib run delta s).node_results ≡ s.node_results)
  unfolding adjust_net adjust_pending
  adjust_net-frame run delta s = elim (Bool-cases (is_zero delta)) [
    | inl zero ↦ rw zero (refl, refl, refl)
    | inr other ↦ rw other (refl, refl, refl)
  ]

  is_zero-eq : (z : ℤ) → is_zero z ≡ true → z ≡ pos 0
  is_zero-eq z h = ground (arith, h)

  plus_zero : (z : ℤ) → z +ℤ pos 0 ≡ z
  plus_zero z = omega int_laws

  unchanged :
      (o : Option RunRow) → o ≡ changed true (λ r. record r { pending = r.pending +ℤ pos 0 }) o
  unchanged none = refl
  unchanged (some r) = ap (λ p. some (record r { pending = p })) (sym (plus_zero r.pending))

  pub get_run-adjust_net :
      (run : String) (delta : ℤ) (s : Store lib.Live)
      → get_run run (adjust_net lib run delta s)
        ≡ changed true (λ r. record r { pending = r.pending +ℤ delta }) (get_run run s)
  unfolding adjust_net
  get_run-adjust_net run delta s = elim (Bool-cases (is_zero delta)) [
    | inl zero ↦ rw (zero, is_zero-eq delta zero) (unchanged (get_run run s))
    | inr other ↦ rw (other, get_run-adjust_pending run run delta s, (str_eq_iff run run).1 refl)
  ]

  pub write_result-read :
      (run node : String) (v : Value) (s : Store lib.Live)
      → result run node (write_result run node v s)
        ≡ some (record { run_id = run; node_id = node; result = v })
  unfolding result write_result
  write_result-read run node v s =
      let run_same = (str_eq_iff run run).1 refl in
      let node_same = (str_eq_iff node node).1 refl in
      select_row-replace (is_result run node) (record { run_id = run; node_id = node; result = v })
        s.node_results (ground (arith, run_same, node_same))

  pub write_dedupe-frame :
      (d : Option DedupeRow) (run node : String) (s : Store lib.Live)
      → ((write_dedupe d s).live ≡ s.live)
        × ((write_dedupe d s).runs ≡ s.runs)
        × ((write_dedupe d s).failed_continuations ≡ s.failed_continuations)
        × (result run node (write_dedupe d s) ≡ result run node s)
  unfolding write_dedupe result
  write_dedupe-frame none run node s = (refl, refl, refl, refl)
  write_dedupe-frame (some d) run node s = (refl, refl, refl, refl)

  -- The statements before the fan-out, and those between it and the ack.
  pub opened :
      (d : Option DedupeRow) (run node : String) (v : Value) (s : Store lib.Live)
      → let s0 = write_dedupe d (write_result run node v s) in
        (s0.live ≡ s.live)
        × (s0.run_deps ≡ s.run_deps)
        × (get_run run s0 ≡ get_run run s)
        × (result run node s0 ≡ some (record { run_id = run; node_id = node; result = v }))
  unfolding write_result write_dedupe get_run replace result
  opened none run node v s = (refl, refl, refl, write_result-read run node v s)
  opened (some d) run node v s = (refl, refl, refl, write_result-read run node v s)

  pub closed :
      (d : Option SingerRow) (run node : String) (delta : ℤ) (s : Store lib.Live)
      → let t = write_singer d (adjust_net lib run delta s) in
        (t.live ≡ s.live)
        × (t.run_deps ≡ s.run_deps)
        × (result run node t ≡ result run node s)
        × (get_run run t
            ≡ changed true (λ r. record r { pending = r.pending +ℤ delta }) (get_run run s))
  unfolding result get_run
  closed d run node delta s =
      let t = adjust_net lib run delta s in
      let (live, deps, runs, results) = write_singer-frame d t in
      let (live', deps', results') = adjust_net-frame run delta s in
      (
        live ∙ live',
        deps ∙ deps',
        ap (select_row (is_result run node)) (results ∙ results'),
        ap (select_row (is_run run)) runs ∙ get_run-adjust_net run delta s,
      )
