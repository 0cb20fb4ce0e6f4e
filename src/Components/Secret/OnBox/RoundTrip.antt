-- ===== src/Components/Secret/OnBox/RoundTrip.antt =====
-- Sealing a value and resolving it.
use servitor.Prelude.{
  ◌≡◌, refl, ap, ◌∙◌, sym, false, none, some, String, inl, inr, length, str_eq, if◌then◌else◌,
  codes, insert, lookup-insert, Option-cases, Bool-cases, >>=-eq-some,
}
use servitor.Components.Secret.OnBox.{
  Disk, content, Cipher, read, read_file, write_file, key_file, load_key, load_or_create_key,
  nonce_size, encrypt, on_box, seal_on_box,
}

-- What a file holds after another file, or the same, has been written.
read_file-write_file :
    (d after : Disk) (name text wanted : String)
    → write_file d name text ≡ some after
    → read_file after wanted ≡ (if str_eq name wanted then read text else read_file d wanted)
unfolding read_file write_file
read_file-write_file d after name text wanted h = elim (Option-cases d.refuses) [
  | inl e ↦
      let made : some (record d { files = insert name (content text) d.files }) ≡ some after =
        rw (write_file, e) at h in
      let eq : record d { files = insert name (content text) d.files } ≡ after = cc in
      rw (← eq) (
        rw (read_file, lookup-insert name wanted (content text) d.files)
          (elim (Bool-cases (str_eq name wanted)) [
            | inl same ↦ rw same refl
            | inr other ↦ rw other refl
          ]))
  | inr (e, bad) ↦ let wrong : none ≡ some after = rw (write_file, bad) at h in absurd cc
]

load_key-write_file_other :
    (d after : Disk) (name text : String)
    → str_eq name key_file ≡ false
    → write_file d name text ≡ some after
    → load_key after ≡ load_key d
unfolding load_key
load_key-write_file_other d after name text apart wrote =
    read_file-write_file d after name text key_file wrote ∙ rw apart refl

-- A directory that has a key is left as it is.
load_or_create_key-had :
    (fresh held key : String) (d after : Disk)
    → load_key d ≡ read held
    → load_or_create_key fresh d ≡ some (key, after)
    → d ≡ after
unfolding load_or_create_key
load_or_create_key-had fresh held key d after had h =
    let same : some (held, d) ≡ some (key, after) = rw (load_or_create_key, had) at h in cc

-- What the packages promise: the encoding is undone by its decoding, and what was sealed with a nonce of
-- the right size opens under the same key and nonce.
pub record IsSound (c : Cipher) : Type 0 where
  pub decode-encode : (s : String) → c.decode (c.encode s) ≡ some s
  pub open-seal :
      (key nonce text : String)
      → length (codes nonce) ≡ nonce_size
      → c.open_sealed key nonce (c.seal key nonce text) ≡ some text

module _ (c : Cipher) (sound : IsSound c) where
  -- Sealing succeeds in three steps.
  seal_steps :
      (fresh nonce name text : String) (d after : Disk)
      → seal_on_box c fresh nonce name text d ≡ some after
      → (key : String) × (keyed : Disk) × (sealed : String) × (load_or_create_key fresh d
          ≡ some (key, keyed))
        × (encrypt c nonce key text ≡ some sealed)
        × (write_file keyed name sealed ≡ some after)
  unfolding seal_on_box
  seal_steps fresh nonce name text d after h =
      let ((key, keyed), made, later) = >>=-eq-some (load_or_create_key fresh d) _ h in
      let (sealed, enc, wrote) = >>=-eq-some (encrypt c nonce key text) _ later in
      (key, keyed, sealed, made, enc, wrote)

  -- Where the directory had a key, sealing one secret leaves every other one as it resolved before, its
  -- failures included, for secrets that are not named like the key's file.
  on_box-seal_on_box_other :
      (reason : String → String → String) (fresh nonce name text node other held : String)
      (d after : Disk)
      → load_key d ≡ read held
      → str_eq name key_file ≡ false
      → str_eq name other ≡ false
      → seal_on_box c fresh nonce name text d ≡ some after
      → on_box c reason after node other ≡ on_box c reason d node other
  unfolding on_box
  on_box-seal_on_box_other reason fresh nonce name text node other held d after had apart differ h =
      let (key, keyed, sealed, made, enc, wrote) = seal_steps fresh nonce name text d after h in
      let disk : d ≡ keyed = load_or_create_key-had fresh held key d keyed had made in
      let has_key : load_key after ≡ read held =
        load_key-write_file_other keyed after name sealed apart wrote ∙ rw (← disk) had in
      let kept : read_file after other ≡ read_file d other =
        read_file-write_file keyed after name sealed other wrote
        ∙ rw differ (ap (λ x. read_file x other) (sym disk)) in
      rw (on_box, has_key, had, kept) refl
