-- ===== src/Wafer/Dag/Kahn.antt =====
-- The loop of Kahn's algorithm in internal/wafer/dag.go: its invariant.
use servitor.Prelude.{
  ℕ, zero, suc, ◌+◌, ◌-◌, ◌≤◌, ◌<◌, ◌≡◌, refl, List, [], ◌∷◌, ◌++◌, arith, append-nil, append_assoc,
  ltb, leb, ◌&&◌, if◌then◌else◌, length, length-append, List-cases, inl, inr, count, count-append,
  sum_over, sum_below, sum_over-le, sum_over-present, sum_over-snoc, IsOnce, IsBelow,
  length-le_of_IsOnce,
}
use native.Mathlib.Decide.{dec_lt}
use servitor.Wafer.Dag.{Progress, lower, relax, kahn}

indegree-relax :
    (ms : List ℕ) (s : Progress) (m : ℕ) → (relax ms s).indegree m ≡ s.indegree m - count m ms
unfolding relax lower count
indegree-relax [] s m = omega arith
indegree-relax (x ∷ ms) s m = ground (arith, indegree-relax ms (lower x s) m)

order-relax : (ms : List ℕ) (s : Progress) → (relax ms s).order ≡ s.order
unfolding relax lower
order-relax [] s = refl
order-relax (x ∷ ms) s = order-relax ms (lower x s)

-- `m` is put in the queue once, if its count reaches zero.
abbrev reached : ℕ → ℕ → ℕ
reached degree times = if ltb 0 degree && leb degree times then 1 else 0

queue-relax :
    (ms : List ℕ) (s : Progress) (m : ℕ)
    → count m (relax ms s).queue ≡ count m s.queue + reached (s.indegree m) (count m ms)
unfolding relax lower count
queue-relax [] s m = ground arith
queue-relax (x ∷ ms) s m =
    ground (arith, queue-relax ms (lower x s) m, count-append m s.queue (x ∷ []))

module _ (n : ℕ) (adj : ℕ → List ℕ) where
  -- Every node of the list stands behind all nodes that point to it.
  abbrev pub IsSorted : List ℕ → List ℕ → Type 0
  IsSorted seen [] = Unit {0}
  IsSorted seen (m ∷ ms) =
      ((k : ℕ) → k < n → 0 < count m (adj k) → 0 < count k seen) × IsSorted (seen ++ m ∷ []) ms

  pub record Inv (s : Progress) : Type 0 where
    pub once : IsOnce (s.order ++ s.queue)
    pub below : IsBelow n (s.order ++ s.queue)
    pub listed : (m : ℕ) → m < n → s.indegree m ≡ 0 → 0 < count m (s.order ++ s.queue)
    pub free : (m : ℕ) → 0 < count m (s.order ++ s.queue) → s.indegree m ≡ 0
    pub ledger :
        (m : ℕ)
        → s.indegree m + sum_over (λ k. count m (adj k)) s.order
          ≡ sum_below n (λ k. count m (adj k))
    pub sorted : IsSorted [] s.order

  IsSorted-snoc :
      (seen ms : List ℕ) (m : ℕ)
      → IsSorted seen ms
      → ((k : ℕ) → k < n → 0 < count m (adj k) → 0 < count k (seen ++ ms))
      → IsSorted seen (ms ++ m ∷ [])
  IsSorted-snoc seen [] m h last = ((λ k lt pos. rw (append-nil seen) at (last k lt pos)), tt)
  IsSorted-snoc seen (x ∷ ms) m h last = (
    h.0,
    IsSorted-snoc (seen ++ x ∷ []) ms m h.1
        (λ k lt pos. rw (append_assoc seen (x ∷ []) ms) (last k lt pos)),
  )

  module _ (inside : (k m : ℕ) → 0 < count m (adj k) → m < n) (s : Progress) (q : ℕ) (rest : List ℕ)
      (head : s.queue ≡ q ∷ rest) (inv : Inv s) where
    abbrev taken : Progress
    taken = record s { queue = rest; order = s.order ++ q ∷ [] }

    abbrev next : Progress
    next = relax (adj q) taken

    count-taken :
        (m : ℕ) → count m (s.order ++ q ∷ []) + count m rest ≡ count m (s.order ++ s.queue)
    unfolding count
    count-taken m =
        rw head (omega (arith, count-append m s.order (q ∷ []), count-append m s.order (q ∷ rest)))

    count-next :
        (m : ℕ)
        → count m (next.order ++ next.queue)
          ≡ count m (s.order ++ s.queue) + reached (s.indegree m) (count m (adj q))
    count-next m = rw (order-relax (adj q) taken) (
        omega (
          arith,
          count-append m taken.order next.queue,
          queue-relax (adj q) taken m,
          count-taken m,
        ))

    waiting : 0 < count q (s.order ++ s.queue)
    unfolding count
    waiting = rw head (ground (arith, count-append q s.order (q ∷ rest)))

    taken-IsOnce : IsOnce taken.order
    taken-IsOnce m = omega (arith, count-taken m, inv.once m)

    taken-IsBelow : IsBelow n taken.order
    taken-IsBelow m pos = inv.below m (omega (arith, count-taken m))

    -- What is left of the count of `m` holds the edges of the node that is taken.
    edges-le : (m : ℕ) → count m (adj q) ≤ s.indegree m
    edges-le m = omega (
      arith,
      sum_over-le n (λ k. count m (adj k)) taken.order taken-IsOnce taken-IsBelow,
      sum_over-snoc (λ k. count m (adj k)) s.order q,
      inv.ledger m,
    )

    -- All nodes that point to the node that is taken were taken before.
    edges_before : (k : ℕ) → k < n → 0 < count q (adj k) → 0 < count k s.order
    edges_before k lt =
        sum_over-present n (λ k. count q (adj k)) s.order
          (λ m. omega (arith, taken-IsOnce m, count-append m s.order (q ∷ [])))
          (λ m pos. taken-IsBelow m (omega (arith, count-append m s.order (q ∷ [])))) k
          (omega (arith, inv.ledger q, inv.free q waiting)) lt

    next-Inv : Inv next
    next-Inv = record {
      once = λ m. ground (arith, count-next m, inv.once m, inv.free m);
      below = λ m pos. elim (dec_lt 0 (count m (adj q))) [
        | yes edge ↦ inside q m edge
        | no none ↦ inv.below m (ground (arith, count-next m))
      ];
      listed =
          λ m lt z. ground (arith, count-next m, indegree-relax (adj q) taken m, inv.listed m lt);
      free = λ m pos. ground (arith, count-next m, indegree-relax (adj q) taken m, inv.free m);
      ledger = λ m. rw (order-relax (adj q) taken) (
          omega (
            arith,
            indegree-relax (adj q) taken m,
            edges-le m,
            inv.ledger m,
            sum_over-snoc (λ k. count m (adj k)) s.order q,
          ));
      sorted = rw (order-relax (adj q) taken) (IsSorted-snoc [] s.order q inv.sorted edges_before);
    }

  kahn-nil : (fuel : ℕ) (s : Progress) → s.queue ≡ [] → kahn fuel adj s ≡ s
  unfolding kahn
  kahn-nil zero s e = refl
  kahn-nil (suc fuel) s e = ground arith

  kahn-cons :
      (fuel : ℕ) (s : Progress) (q : ℕ) (rest : List ℕ)
      → s.queue ≡ q ∷ rest
      → kahn (suc fuel) adj s
        ≡ kahn fuel adj (relax (adj q) (record s { queue = rest; order = s.order ++ q ∷ [] }))
  unfolding kahn
  kahn-cons fuel s q rest e = rw (e, kahn)

  module _ (inside : (k m : ℕ) → 0 < count m (adj k) → m < n) where
    -- With more rounds than there are nodes the loop ends by its own test, and the invariant holds.
    pub kahn-Inv :
        (fuel : ℕ) (s : Progress)
        → n < fuel + length s.order
        → Inv s
        → Inv (kahn fuel adj s) × ((kahn fuel adj s).queue ≡ [])
    kahn-Inv zero s enough inv = absurd (
        omega (
          arith,
          length-le_of_IsOnce n s.order
              (λ m. omega (arith, inv.once m, count-append m s.order s.queue))
              (λ m pos. inv.below m (omega (arith, count-append m s.order s.queue))),
        ))
    kahn-Inv (suc fuel) s enough inv = elim (List-cases s.queue) [
      | inl e ↦ rw (kahn-nil (suc fuel) s e) (inv, e)
      | inr (q, rest, e) ↦ rw (kahn-cons fuel s q rest e) (
          kahn-Inv fuel (relax (adj q) (record s { queue = rest; order = s.order ++ q ∷ [] }))
            (rw (order-relax (adj q) (record s { queue = rest; order = s.order ++ q ∷ [] }))
              (omega (arith, length-append s.order (q ∷ []))))
            (next-Inv inside s q rest e inv))
    ]
