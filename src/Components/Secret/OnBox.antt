-- ===== src/Components/Secret/OnBox.antt =====
-- internal/components/secret/onbox.go: the store of sealed values. A directory is what its files hold,
-- by their names; a secret's name is taken to be the name of a file, with no separator in it.
pub mod RoundTrip
use Prim.Native.Char.{Char}
use Prim.Native.String.{◌++◌}
use servitor.Prelude.{
  ℕ, zero, suc, ◌≡◌, ◌≢◌, refl, ap, ◌∙◌, sym, Bool, true, false, Option, none, some, List, String,
  inl, inr, arith, length, str_eq, str_eq_iff, if◌then◌else◌, ltb, ◌<>◌, codes, lookup, insert,
  lookup-insert, Option-cases, Bool-cases, ◌>>=◌,
}
use servitor.Components.Secret.{
  Answer, value, fail, wrap, source_unreachable, secret_missing, stale,
}

-- A file that can be read, or one of which the reading fails.
pub data File : Type 0 where
  content : String → File
  unreadable : String → File

-- `refuses` is the error of creating the directory and of writing a file, where there is one.
pub record Disk : Type 0 where
  pub path : String
  pub files : List (String × File)
  pub refuses : Option String

-- Packages crypto/aes, crypto/cipher and encoding/base64: the errors of a key, AES-GCM with a nonce, and
-- the standard encoding.
pub record Cipher : Type 0 where
  pub key_error : String → Option String
  pub seal : String → String → String → String
  pub open_sealed : String → String → String → Option String
  pub encode : String → String
  pub decode : String → Option String

pub data Read : Type 0 where
  not_exist : Read
  failed : String → Read
  read : String → Read

unfoldable pub read_file : Disk → String → Read
read_file d name = elim (lookup name d.files) [
  | none ↦ not_exist
  | some f ↦ elim f [ content s ↦ read s | unreadable e ↦ failed e ]
]

-- os.MkdirAll and os.WriteFile; a file that cannot be read takes a new content.
unfoldable pub write_file : Disk → String → String → Option Disk
write_file d name text = elim d.refuses [
  | none ↦ some (record d { files = insert name (content text) d.files })
  | some _ ↦ none
]

abbrev pub key_file : String
key_file = ".key"

unfoldable pub load_key : Disk → Read
load_key d = read_file d key_file

-- loadOrCreateKey: `fresh` is what the random source gives for a key. `none` is an error.
unfoldable pub load_or_create_key : String → Disk → Option (String × Disk)
load_or_create_key fresh d = elim (load_key d) [
  | read key ↦ some (key, d)
  | failed _ ↦ none
  | not_exist ↦ elim (write_file d key_file fresh) [ none ↦ none | some d' ↦ some (fresh, d') ]
]

-- data[:n] and data[n:], `none` where the data is shorter.
unfoldable pub split_text : ℕ → String → Option (String × String)
split_text zero s = some ("", s)
split_text (suc n) String.[] = none
split_text (suc n) (String.◌∷◌ c s) = elim (split_text n s) [
  | none ↦ none
  | some (front, back) ↦ some (String.◌∷◌ c front, back)
]

abbrev pub nonce_size : ℕ
nonce_size = 12

module _ (c : Cipher) where
  -- base64(nonce || ciphertext); `none` is an error.
  unfoldable pub encrypt : String → String → String → Option String
  encrypt nonce key plaintext = elim (c.key_error key) [
    | some _ ↦ none
    | none ↦ some (c.encode (nonce <> c.seal key nonce plaintext))
  ]

  -- `none` is an error, whichever step it comes from.
  unfoldable pub decrypt : String → String → Option String
  unfolding split_text
  decrypt key raw = c.decode raw >>= λ text. elim (c.key_error key) [
    | some _ ↦ none
    | none ↦ split_text nonce_size text >>= λ parts. c.open_sealed key parts.0 parts.1
  ]

  -- OnBoxProvider.Resolve; `reason` is the text of an error of `decrypt`.
  unfoldable pub on_box : (String → String → String) → Disk → String → String → Answer
  on_box reason d node name = elim (load_key d) [
    | not_exist ↦ fail (wrap source_unreachable ("on-box store not initialized at " <> d.path))
    | failed e ↦ fail (wrap source_unreachable e)
    | read key ↦ elim (read_file d name) [
      | not_exist ↦ fail (wrap secret_missing name)
      | failed e ↦ fail (wrap source_unreachable e)
      | read raw ↦ elim (decrypt key raw) [
        | none ↦ fail (wrap stale (reason key raw))
        | some v ↦ value v
      ]
    ]
  ]

  -- SealOnBox: `fresh` and `nonce` come from the random source, and `none` is an error.
  unfoldable pub seal_on_box : String → String → String → String → Disk → Option Disk
  seal_on_box fresh nonce name text d = load_or_create_key fresh d >>= λ keyed.
      encrypt nonce keyed.0 text >>= λ sealed. write_file keyed.1 name sealed
