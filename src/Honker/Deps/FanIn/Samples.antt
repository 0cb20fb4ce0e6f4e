-- ===== src/Honker/Deps/FanIn/Samples.antt =====
-- A join with two dependencies (internal/honker/deps.go), and the theorems at it.
use servitor.Prelude.{◌≡◌, refl, String, some, List, [], ◌∷◌, select_row, update_rows}
use servitor.Prelude.Int.{pos, ◌-ℤ◌}
use servitor.Honker.{DepRow}
use servitor.Honker.Deps.FanIn.{remaining_of, complete_all, total, reaches_zero, complete_all-count}

abbrev rows : List DepRow
rows =
    record { run_id = "r"; node_id = "join"; remaining = pos 2 }
    ∷ record { run_id = "r"; node_id = "last"; remaining = pos 1 }
    ∷ []

abbrev completions : List (List String)
completions = ("join" ∷ []) ∷ ("join" ∷ "last" ∷ []) ∷ []

abbrev rows_after : List DepRow
rows_after =
    record { run_id = "r"; node_id = "join"; remaining = pos 0 }
    ∷ record { run_id = "r"; node_id = "last"; remaining = pos 0 }
    ∷ []

completes : complete_all "r" completions rows ≡ some ([] ∷ ("join" ∷ "last" ∷ []) ∷ [], rows_after)
unfolding complete_all ◌-ℤ◌ select_row update_rows
completes = refl

starts_at_two : remaining_of "r" "join" rows ≡ some (pos 2)
unfolding remaining_of select_row
starts_at_two = refl

complete_all-count_example :
    (remaining_of "r" "join" rows_after ≡ some (pos 2 -ℤ pos (total "join" completions)))
    × (total "join" ([] ∷ ("join" ∷ "last" ∷ []) ∷ [])
        ≡ reaches_zero (pos 2) (total "join" completions))
complete_all-count_example = complete_all-count "r" "join" completions rows completes starts_at_two
