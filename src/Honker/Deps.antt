-- ===== src/Honker/Deps.antt =====
-- internal/honker/deps.go: the dependency counts of a run.
pub mod FanIn
pub mod Total
pub mod Init
use servitor.Prelude.{
  ℕ, String, Bool, Option, none, some, List, [], ◌∷◌, ◌++◌, str_eq, ◌==◌, if◌then◌else◌, lookup,
  select_row, replace, update_rows, count_rows, ◌&&◌, ◌>>=◌,
}
use servitor.Prelude.Int.{ℤ, pos, negsuc, ◌-ℤ◌, ltb_ℤ}
use servitor.Honker.{DepRow, Store, is_dep}

-- The test `remaining == 0`.
abbrev pub is_zero : ℤ → Bool
is_zero (pos n) = n == 0
is_zero (negsuc n) = Bool.false

pub record RunDeps : Type 0 where
  pub run_id : String
  pub remaining : List (String × ℤ)
  pub order : List String

-- A missing key of the Go map counts 0.
unfoldable pub count_of : String → List (String × ℤ) → ℤ
count_of node counts = elim (lookup node counts) [ none ↦ pos 0 | some n ↦ n ]

new_counts : List (String × ℤ) → List String → List (String × ℤ)
unfolding count_of
new_counts counts [] = []
new_counts counts (s ∷ order) = (s, count_of s counts) ∷ new_counts counts order

unfoldable pub new_run_deps : String → List (String × ℤ) → List String → RunDeps
unfolding new_counts
new_run_deps run counts order = record {
  run_id = run;
  remaining = new_counts counts order;
  order = order;
}

init_rows : RunDeps → List String → List DepRow → List DepRow
unfolding count_of
init_rows rd [] rows = rows
init_rows rd (node ∷ rest) rows = init_rows rd rest (
    replace (is_dep rd.run_id node)
      (record { run_id = rd.run_id; node_id = node; remaining = count_of node rd.remaining }) rows)

module _ {L : Type 0} where
  unfoldable pub init_run_deps : RunDeps → Store L → Store L
  unfolding init_rows
  init_run_deps rd s = record s { run_deps = init_rows rd rd.order s.run_deps }

  -- (0, nil) where there is no row.
  unfoldable pub run_deps_remaining : String → String → Store L → ℤ
  run_deps_remaining run node s = elim (select_row (is_dep run node) s.run_deps) [
    | none ↦ pos 0
    | some r ↦ r.remaining
  ]

  unfoldable pub run_complete : String → Store L → Bool
  run_complete run s =
      count_rows (λ r. str_eq r.run_id run && ltb_ℤ (pos 0) r.remaining) s.run_deps == 0

  unfoldable pub set_run_deps_remaining : String → String → ℤ → Store L → Store L
  set_run_deps_remaining run node n s = record s {
    run_deps = update_rows (is_dep run node) (λ r. record r { remaining = n }) s.run_deps;
  }

abbrev pub decrement : DepRow → DepRow
decrement r = record r { remaining = r.remaining -ℤ pos 1 }

-- What is ready, and the rows; `none` where a dependent has no row (the SELECT finds nothing, and
-- the transaction fails).
unfoldable pub decrement_dependents :
    String → List String → List DepRow → Option (List String × List DepRow)
decrement_dependents run [] rows = some ([], rows)
decrement_dependents run (dep ∷ rest) rows =
    let after = update_rows (is_dep run dep) decrement rows in
    select_row (is_dep run dep) after >>= λ r.
    decrement_dependents run rest after >>= λ (ready, final).
    some (if is_zero r.remaining then dep ∷ ready else ready, final)
