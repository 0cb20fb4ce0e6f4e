-- ===== src/Worker/Race.antt =====
-- A signal and the wait for it, in either order (internal/worker/suspend.go).
pub mod Samples
pub mod Pending
pub mod Steps
pub mod Orders
use servitor.Prelude.{
  ℕ, ◌≡◌, refl, String, Bool, true, false, Option, none, some, List, [], ◌∷◌, ◌++◌, str_eq,
  str_eq_iff, if◌then◌else◌, ◌&&◌, arith, ap, ◌∙◌, sym, select_row, select_row-append, delete,
  append-nil, map,
}
use servitor.Prelude.Int.{ℤ}
use servitor.Value.{Value}
use servitor.Job.{NodeJob}
use servitor.Honker.{Claim, QueueLib, Store, Json, SignalRow}
use servitor.Honker.Suspend.{
  is_signal, buffer_signal, take_buffered_signal, parked_instances_for_signal,
}
use servitor.Worker.{Harness}
use servitor.Worker.Wait.{continuation_of, complete_wait, after_take, wait_tx}
use servitor.Worker.Signals.{resume_by_signal}

-- The rows of other names, one after another.
other-row :
    (name : String) (r : SignalRow) (rows : List SignalRow)
    → select_row (is_signal name) (r ∷ rows) ≡ none
    → (str_eq r.signal_name name ≡ false) × (select_row (is_signal name) rows ≡ none)
unfolding select_row
other-row name r rows h = ground (arith, h)

select_row-buffered :
    (name text : String) (rows : List SignalRow)
    → select_row (is_signal name) rows ≡ none
    → select_row (is_signal name) (rows ++ record { signal_name = name; payload = text } ∷ [])
      ≡ some (record { signal_name = name; payload = text })
unfolding select_row
select_row-buffered name text rows h =
    let same = (str_eq_iff name name).1 refl in
    select_row-append (is_signal name) rows _ ∙ rw (h, same)

delete-buffered :
    (name text : String) (rows : List SignalRow)
    → select_row (is_signal name) rows ≡ none
    → delete
        (λ q. str_eq q.signal_name name && str_eq q.payload text)
        (rows ++ record { signal_name = name; payload = text } ∷ [])
      ≡ rows
unfolding delete
delete-buffered name text [] h = rw ((str_eq_iff name name).1 refl, (str_eq_iff text text).1 refl)
delete-buffered name text (r ∷ rows) h =
    let (other, rest) = other-row name r rows h in rw (other, delete-buffered name text rows rest)

module _ {L : Type 0} (json : Json) where
  -- A signal that is buffered while none of its name is, is the one that is taken next, and taking it
  -- leaves the store as it was before.
  take-buffer_signal :
      (name : String) (payload : Value) (s : Store L)
      → select_row (is_signal name) s.buffered ≡ none
      → take_buffered_signal json name (buffer_signal json name payload s)
        ≡ (some (json.decode (json.encode payload)), s)
  unfolding take_buffered_signal buffer_signal
  take-buffer_signal name payload s none_there = rw (
    take_buffered_signal,
    select_row-buffered name (json.encode payload) s.buffered none_there,
    delete-buffered name (json.encode payload) s.buffered none_there,
  )

module _ (lib : QueueLib) (h : Harness) (json : Json) where
  resume_by_signal-none :
      (name : String) (payload : Value) (s : Store lib.Live)
      → parked_instances_for_signal name s ≡ []
      → resume_by_signal lib h json name payload s ≡ (buffer_signal json name payload s, true)
  unfolding resume_by_signal
  resume_by_signal-none name payload s alone = rw alone

  wait_tx-taken :
      (j : NodeJob) (claim : Claim) (name : String) (run_at : ℤ) (s : Store lib.Live)
      {payload : Value} {s' : Store lib.Live}
      → str_eq name "" ≡ false
      → take_buffered_signal json name s ≡ (some payload, s')
      → wait_tx lib h json j claim name run_at s
        ≡ complete_wait lib h json claim (continuation_of j) "signal" payload s'
  unfolding wait_tx
  wait_tx-taken j claim name run_at s named taken =
      rw named (ap (λ p. after_take lib h json j claim name run_at p.0 p.1) taken)

  -- A signal that comes before the wait for it: the wait completes at once with the signal's payload, as
  -- if it had never been buffered, and nothing of the signal stays in the store.
  pub wait_tx-after_signal :
      (j : NodeJob) (claim : Claim) (name : String) (run_at : ℤ) (payload : Value)
      (s : Store lib.Live)
      → str_eq name "" ≡ false
      → parked_instances_for_signal name s ≡ []
      → select_row (is_signal name) s.buffered ≡ none
      → json.decode (json.encode payload) ≡ payload
      → wait_tx lib h json j claim name run_at (resume_by_signal lib h json name payload s).0
        ≡ complete_wait lib h json claim (continuation_of j) "signal" payload s
  wait_tx-after_signal j claim name run_at payload s named alone none_there exact =
      let buffered = ap (λ p. p.0) (resume_by_signal-none name payload s alone) in
      let taken = take-buffer_signal json name payload s none_there in
      wait_tx-taken j claim name run_at _ named
        (ap (take_buffered_signal json name) buffered ∙ taken ∙ ap (λ v. (some v, s)) exact)
