-- ===== src/Value.antt =====
-- The values that YAML and JSON decoding yield (`any`, `map[string]any` and `[]any` in the Go
-- code). A map is a list of fields in which the first entry with a key counts.
use servitor.Prelude.{String, Bool, Option, none, some, List, [], ◌∷◌, str_eq, if◌then◌else◌, has}
use servitor.Prelude.Int.{ℤ}

-- A float64 is carried by its text: the code never computes with one.
mutual
  pub data Value : Type 0 where
    obj : Fields → Value
    arr : Items → Value
    str : String → Value
    float : String → Value
    int : ℤ → Value
    bool : Bool → Value
    null : Value

  pub data Items : Type 0 where
    nil : Items
    cons : Value → Items → Items

  pub data Fields : Type 0 where
    end : Fields
    field : String → Value → Fields → Fields

-- m[k]
unfoldable pub index : String → Fields → Option Value
index k end = none
index k (field j v m) = if str_eq j k then some v else index k m

-- m[k] = v
unfoldable pub assign : String → Value → Fields → Fields
assign k v end = field k v end
assign k v (field j w m) = if str_eq j k then field k v m else field j w (assign k v m)

-- The type assertions `v.(string)`, `v.([]any)` and `v.(map[string]any)`; a missing key is nil.
unfoldable pub as_string : Option Value → Option String
as_string (some (str s)) = some s
as_string _ = none

unfoldable pub as_list : Option Value → Option Items
as_list (some (arr xs)) = some xs
as_list _ = none

unfoldable pub as_map : Option Value → Option Fields
as_map (some (obj m)) = some m
as_map _ = none

-- `s, _ := v.(string)`: the empty text where the value is no text.
unfoldable pub string_or_empty : Option Value → String
string_or_empty (some (str s)) = s
string_or_empty _ = ""

-- `copyMap`: the fields but those skipped.
unfoldable pub copy_map : Fields → List String → Fields
unfolding has
copy_map end skip = end
copy_map (field k v m) skip =
    let rest = copy_map m skip in if has k skip then rest else field k v rest

-- The texts of a list, whatever else stands in it.
unfoldable pub strings : Items → List String
strings nil = []
strings (cons (str s) xs) = s ∷ strings xs
strings (cons _ xs) = strings xs
