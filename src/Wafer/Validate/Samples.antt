-- ===== src/Wafer/Validate/Samples.antt =====
-- Small documents through internal/wafer/validate.go, and the theorems at them.
use servitor.Prelude.{
  ◌≡◌, ◌≤◌, ◌↔◌, refl, arith, String, true, List, [], ◌∷◌, map, codes, itoa, quote, has, sort_by,
}
use servitor.Prelude.Int.{pos}
use servitor.Value.{Value, obj, arr, str, int, nil, cons, Fields, end, field, index, as_string}
use servitor.Registry.{lookup_node, lookup_trigger, nodes, trigger_types}
use servitor.Registry.Samples.{types}
use servitor.Wafer.{Issue}
use servitor.Wafer.Validate.Parts.{is_valid, unknown_mode, mismatch}
use servitor.Wafer.Validate.{validate_value}
use servitor.Wafer.Validate.Accepts.{IsDocument, validate_value-IsDocument}
use servitor.Wafer.Validate.Distance.{edit_distance}
use servitor.Wafer.Validate.Distance.Scripts.{Edits, IsLeast, edit_distance-IsLeast}
use servitor.Wafer.Validate.Nearest.{nearest, IsIn}
use servitor.Wafer.Validate.Pointer.{ptr, escape}

abbrev entry : String → Fields → Value
entry type rest = obj (field "type" (str type) rest)

abbrev pub document : Value
document = obj (
    field "name" (str "nightly") (
      field "triggers" (arr (cons (entry "cron" (field "schedule" (str "@daily") end)) nil)) (
        field "nodes"
          (arr (
            cons (entry "shell" (field "command" (str "ls") end))
              (cons (entry "wait" (field "signal" (str "go") end)) nil)))
          end)))

abbrev pub faulty : Value
faulty = obj (
    field "name" (str " ") (
      field "triggers" (str "cron") (
        field "on_failure" (str "retry") (
          field "nodes"
            (arr (
              cons (entry "shel" end) (
                cons (entry "shell" (field "command" (int (pos 1)) end))
                  (cons (entry "wait" end) nil))))
            end))))

program : Unit {0}
unfolding validate_value is_valid index as_string lookup_node lookup_trigger nodes trigger_types
    sort_by has itoa quote edit_distance nearest ptr escape
program = tt

abbrev code_of : Issue → String × String
code_of i = (i.path, i.code)

accepted : is_valid (validate_value types document) ≡ true
unfolding program
accepted = refl

refused :
    map code_of (validate_value types faulty).errors
    ≡ ("/name", "missing_name")
      ∷ ("/on_failure", "unknown_rerun_mode")
      ∷ ("/on", "type_mismatch")
      ∷ ("/nodes/0/type", "unknown_node_type")
      ∷ ("/nodes/1/command", "type_mismatch")
      ∷ ("/nodes/2", "wait_requires_source")
      ∷ []
unfolding program unknown_mode mismatch
refused = refl

kitten : edit_distance "kitten" "sitting" ≡ 3
unfolding program
kitten = refl

abbrev names : List String
names = "foreach" ∷ "shell" ∷ "wait" ∷ []

suggested : nearest "shel" names ≡ "shell"
unfolding program
suggested = refl

escaped : ptr "/nodes/0" "a/b~1" ≡ "/nodes/0/a~1b~01"
unfolding program
escaped = refl

validate_value-IsDocument_example :
    (is_valid (validate_value types document) ≡ true) ↔ IsDocument types document
validate_value-IsDocument_example = validate_value-IsDocument types document

edit_distance-IsLeast_example :
    IsLeast (Edits (codes "kitten") (codes "sitting")) (edit_distance "kitten" "sitting")
edit_distance-IsLeast_example = edit_distance-IsLeast "kitten" "sitting"

listed : IsIn "shell" names
listed = refl

close : edit_distance "shel" "shell" ≤ 2
unfolding program
close = omega arith
