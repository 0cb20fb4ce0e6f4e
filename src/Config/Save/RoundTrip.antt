-- ===== src/Config/Save/RoundTrip.antt =====
-- Loading what was saved.
use servitor.Prelude.{
  ◌≡◌, refl, List, none, some, inr, String, str_eq_iff, lookup, insert, lookup-insert,
}
use servitor.Config.{Config, done, validate}
use servitor.Config.Yaml.{Yaml, config_value}
use servitor.Config.Yaml.RoundTrip.{read_config-config_value}
use servitor.Config.Save.{
  Disk, used_path, checked, filled, from_text, decoded, make_parent, load, save,
}

validate-filled : (c : Config) → validate (filled c) ≡ validate c
unfolding validate filled
validate-filled c = refl

lookup-insert_self :
    (key value : String) (entries : List (String × String))
    → lookup key (insert key value entries) ≡ some value
lookup-insert_self key value entries =
    rw (lookup-insert key key value entries, (str_eq_iff key key).1 refl) refl

-- Where the YAML package reads the text that it gives for the document of the config back as that document,
-- and the path can be read and written, its directory included, Save of the config goes through, and Load of
-- the path then gives the config that Save has filled in if the receivers' schemes are known, and the error
-- of the check if they are not: the struct tags read back every section and every field that they write.
pub load-save :
    (y : Yaml) (c : Config) (path text : String) (d : Disk)
    → y.marshal (config_value (filled c)) ≡ inr text
    → y.parse text ≡ inr (config_value (filled c))
    → make_parent (used_path path) d ≡ none
    → d.write_error (used_path path) ≡ none
    → d.read_error (used_path path) ≡ none
    → (after : Disk) × ((save y c path d).0 ≡ done after)
      × (load y path after ≡ checked (validate c) (filled c))
unfolding load save from_text decoded
load-save y c path text d enc dec dirs writes reads =
    let stored = lookup-insert_self (used_path path) text d.files in
    let back = read_config-config_value y (filled c) in
    (
      record d { files = insert (used_path path) text d.files },
      rw (save, enc, dirs, writes) refl,
      rw (load, reads, stored) (rw (from_text, dec) (rw (decoded, back, validate-filled c) refl)),
    )
