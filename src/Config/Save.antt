-- ===== src/Config/Save.antt =====
-- Load and Save of internal/config/config.go. The YAML package is a parameter (Config.Yaml), and a disk is
-- what its files hold and the errors of reading and writing them.
pub mod RoundTrip
use servitor.Prelude.{
  Option, none, some, List, ◌⊎◌, inl, inr, String, str_eq, if◌then◌else◌, ◌<>◌, ◌||◌, lookup,
  insert,
}
use servitor.Value.{Value}
use servitor.Config.Yaml.{Yaml, config_value}
use servitor.Config.Yaml.Read.{read_config}
use servitor.Config.{
  Config, SingerSection, no_connectors, empty_config, Outcome, done, error, panicked, validate,
}

-- `parent` is filepath.Dir, `dir_error` the error of making a directory and those above it.
pub record Disk : Type 0 where
  pub files : List (String × String)
  pub read_error : String → Option String
  pub write_error : String → Option String
  pub parent : String → String
  pub dir_error : String → Option String

abbrev pub default_file : String
default_file = "servitor.config.yaml"

abbrev pub used_path : String → String
used_path path = if str_eq path "" then default_file else path

-- The checked config, once it is parsed.
abbrev pub checked : Outcome (Unit {0}) → Config → Outcome Config
checked (done _) c = done c
checked (error e) c = error e
checked panicked c = panicked

-- A nil map and an empty one are the same list here: what Save fills in is the nil section.
unfoldable pub filled : Config → Config
filled c = record c { singer = elim c.singer [ none ↦ some no_connectors | some s ↦ some s ] }

unfoldable pub decoded : Yaml → String → String ⊎ Value → Outcome Config
unfolding read_config validate
decoded y path (inl e) = error ("config: parse " <> path <> ": " <> e)
decoded y path (inr v) = elim (read_config y v) [
  | none ↦ error ("config: parse " <> path <> ": " <> y.mismatch v)
  | some c ↦ checked (validate c) c
]

-- What the file holds, none being no file.
unfoldable pub from_text : Yaml → String → Option String → Outcome Config
unfolding decoded
from_text y path none = done empty_config
from_text y path (some text) = decoded y path (y.parse text)

-- The directory of the path is made, unless it is the current one.
unfoldable pub make_parent : String → Disk → Option String
make_parent path d =
    if str_eq (d.parent path) "." || str_eq (d.parent path) ""
    then none
    else d.dir_error (d.parent path)

module _ (y : Yaml) where
  unfoldable pub load : String → Disk → Outcome Config
  unfolding from_text
  load path d = elim (d.read_error (used_path path)) [
    | some e ↦ error ("config: read " <> used_path path <> ": " <> e)
    | none ↦ from_text y (used_path path) (lookup (used_path path) d.files)
  ]

  -- The second part is what Save has made of its argument, also where it fails.
  unfoldable pub save : Config → String → Disk → Outcome Disk × Config
  unfolding filled config_value make_parent
  save c path d = (
    elim (y.marshal (config_value (filled c))) [
      | inl e ↦ error ("config: marshal: " <> e)
      | inr text ↦ elim (make_parent (used_path path) d) [
        | some e ↦ error ("config: create dir: " <> e)
        | none ↦ elim (d.write_error (used_path path)) [
          | some e ↦ error ("config: write " <> used_path path <> ": " <> e)
          | none ↦ done (record d { files = insert (used_path path) text d.files })
        ]
      ]
    ],
    filled c,
  )
