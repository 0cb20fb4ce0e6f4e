-- ===== src/Components/Secret/Samples.antt =====
-- The resolver and its providers run on small inputs, and the theorems at such inputs.
use servitor.Prelude.{
  ◌≡◌, refl, String, List, [], ◌∷◌, some, none, if◌then◌else◌, has, lookup, insert, sort_by, not,
}
use servitor.Components.Secret.{
  resolve, answer, map_provider, resolver_from_map, default_registry, source_names,
}
use servitor.Components.Secret.Routes.{
  first_fatal, lacking, value_of, is_some, resolve-delivers, resolve-first_fatal,
}
use servitor.Components.Secret.OnBox.{
  Disk, content, Cipher, seal_on_box, load_key, read_file, write_file, load_or_create_key, encrypt,
  read,
}

abbrev held : List (String × String)
held = ("a", "1") ∷ ("b", "") ∷ ("c", "3") ∷ []

abbrev wanted_names : List String
wanted_names = "a" ∷ "b" ∷ "c" ∷ []

found_and_missing :
    resolve (resolver_from_map held) "n" wanted_names
    ≡ record { values = some (("a", "1") ∷ ("c", "3") ∷ []); missing = "b" ∷ []; error = none }
unfolding resolve resolver_from_map map_provider lookup insert
found_and_missing = refl

names_sorted :
    source_names (default_registry (map_provider []) (map_provider []) (map_provider []))
    ≡ "env" ∷ "onbox" ∷ "varlock" ∷ []
unfolding source_names default_registry sort_by insert
names_sorted = refl

no_fatal : first_fatal (resolver_from_map held) "n" wanted_names ≡ none
unfolding first_fatal answer resolver_from_map map_provider lookup insert
no_fatal = refl

resolve-delivers_example :
    (values : List (String × String)) × ((resolve (resolver_from_map held) "n" wanted_names).values
      ≡ some values)
    × ((wanted : String)
        → lookup wanted values ≡ (
            if has wanted wanted_names
            then value_of (answer (resolver_from_map held) "n" wanted)
            else none))
    × ((resolve (resolver_from_map held) "n" wanted_names).missing
        ≡ lacking (resolver_from_map held) "n" wanted_names)
    × ((resolve (resolver_from_map held) "n" wanted_names).error ≡ none)
resolve-delivers_example = resolve-delivers (resolver_from_map held) "n" wanted_names no_fatal

abbrev with_undeclared : List String
with_undeclared = "a" ∷ "d" ∷ "b" ∷ []

resolve-first_fatal_example :
    ((resolve (resolver_from_map held) "n" with_undeclared).error
      ≡ first_fatal (resolver_from_map held) "n" with_undeclared)
    × (is_some (resolve (resolver_from_map held) "n" with_undeclared).values
        ≡ not (is_some (first_fatal (resolver_from_map held) "n" with_undeclared)))
resolve-first_fatal_example = resolve-first_fatal (resolver_from_map held) "n" with_undeclared

-- A cipher that hides nothing.
abbrev plain : Cipher
plain = record {
  key_error = λ key. none;
  seal = λ key nonce text. text;
  open_sealed = λ key nonce text. some text;
  encode = λ s. s;
  decode = λ s. some s;
}

abbrev empty_disk : Disk
empty_disk = record { path = "store"; files = []; refuses = none }

abbrev a_key : String
a_key = "0123456789abcdef0123456789abcdef"

abbrev a_nonce : String
a_nonce = "abcdefghijkl"

abbrev one_sealed : Disk
one_sealed = record empty_disk {
  files = (".key", content a_key) ∷ ("token", content "abcdefghijkls3cret") ∷ [];
}

abbrev two_sealed : Disk
two_sealed = record empty_disk {
  files =
      (".key", content a_key)
      ∷ ("token", content "abcdefghijkls3cret")
      ∷ ("other", content "abcdefghijklx")
      ∷ [];
}

abbrev why : String → String → String
why key raw = "decrypt"

seals_again : seal_on_box plain "" a_nonce "other" "x" one_sealed ≡ some two_sealed
unfolding seal_on_box load_or_create_key load_key read_file write_file encrypt lookup insert
seals_again = refl

has_key : load_key one_sealed ≡ read a_key
unfolding load_key read_file lookup
has_key = refl
