-- ===== src/Config/Yaml/RoundTrip.antt =====
-- The struct tags of internal/config/config.go read back what they have written.
use servitor.Prelude.{
  ◌≡◌, refl, sym, ap, false, String, Option, none, some, List, [], ◌∷◌, str_eq, str_eq_iff,
  if◌then◌else◌, Bool-cases, inl, inr, has, map, arith, IsDistinct,
}
use servitor.Value.{Value, Fields, index}
use servitor.Trigger.Verify.{Receiver}
use servitor.Config.{Config, Server, Connector, SecretEntry, SingerSection, Table}
use servitor.Config.Yaml.{
  Yaml, fields_of, texts, text_map, table_fields, omit_text, omit_texts, omit_map, receiver_fields,
  receiver_value, secret_fields, secret_value, server_fields, server_value, connector_fields,
  connector_value, section_value, config_value,
}
use servitor.Config.Yaml.Read.{
  text_of, each_text, texts_of, each_entry, text_map_of, pointer, each_pointer, table_of,
  receiver_of, secret_of, server_of, connector_of, read_section, singer_of, read_config,
}

abbrev tag : String × Option Value → String
tag (t, _) = t

-- The field of a tag, before the empty ones are left out.
abbrev find : String → List (String × Option Value) → Option Value
find k [] = none
find k ((t, o) ∷ rest) = if str_eq t k then o else find k rest

index-absent :
    (k : String) (fs : List (String × Option Value))
    → has k (map tag fs) ≡ false
    → index k (fields_of fs) ≡ none
unfolding index fields_of has
index-absent k [] h = refl
index-absent k ((t, none) ∷ fs) h = index-absent k fs (ground (arith, h))
index-absent k ((t, some v) ∷ fs) h =
    let other : str_eq t k ≡ false = ground (arith, h, str_eq_iff t k, str_eq_iff k t) in
    rw other (index-absent k fs (ground (arith, h)))

index-fields_of :
    (k : String) (fs : List (String × Option Value))
    → IsDistinct (map tag fs)
    → index k (fields_of fs) ≡ find k fs
unfolding index fields_of
index-fields_of k [] d = refl
index-fields_of k ((t, none) ∷ fs) (new, d) = elim (Bool-cases (str_eq t k)) [
  | inl e ↦
      let eq : t ≡ k = (str_eq_iff t k).0 e in
      let absent : has k (map tag fs) ≡ false = rw eq at new in rw e (index-absent k fs absent)
  | inr e ↦ rw e (index-fields_of k fs d)
]
index-fields_of k ((t, some v) ∷ fs) (new, d) =
    ap (λ o. if str_eq t k then some v else o) (index-fields_of k fs d)

module _ (y : Yaml) where
  text_of-omit_text : (s : String) → text_of y (omit_text s) ≡ some s
  unfolding text_of omit_text
  text_of-omit_text s = elim (Bool-cases (str_eq s "")) [
    | inl e ↦ rw (omit_text, e) (ap some (sym ((str_eq_iff s "").0 e)))
    | inr e ↦ rw (omit_text, e) refl
  ]

  each_text-texts : (ss : List String) → each_text y (texts ss) ≡ some ss
  unfolding each_text texts text_of
  each_text-texts [] = refl
  each_text-texts (s ∷ ss) = rw (each_text-texts ss) refl

  texts_of-omit_texts : (ss : List String) → texts_of y (omit_texts ss) ≡ some ss
  unfolding texts_of omit_texts
  texts_of-omit_texts [] = refl
  texts_of-omit_texts (s ∷ ss) = each_text-texts (s ∷ ss)

  each_entry-text_map : (es : List (String × String)) → each_entry y (text_map es) ≡ some es
  unfolding each_entry text_map text_of
  each_entry-text_map [] = refl
  each_entry-text_map ((k, s) ∷ es) = rw (each_entry-text_map es) refl

  text_map_of-omit_map : (es : List (String × String)) → text_map_of y (omit_map es) ≡ some es
  unfolding text_map_of omit_map
  text_map_of-omit_map [] = refl
  text_map_of-omit_map (e ∷ es) = each_entry-text_map (e ∷ es)

  each_pointer-table_fields :
      {A : Type 0} (enc : A → Value) (dec : Fields → Option A) (t : Table A)
      → ((a : A) → pointer y dec (enc a) ≡ some (some a))
      → each_pointer y dec (table_fields enc t) ≡ some t
  unfolding each_pointer table_fields pointer
  each_pointer-table_fields enc dec [] back = refl
  each_pointer-table_fields enc dec ((k, none) ∷ t) back =
      rw (each_pointer-table_fields enc dec t back) refl
  each_pointer-table_fields enc dec ((k, some a) ∷ t) back =
      rw (back a, each_pointer-table_fields enc dec t back) refl

  pointer-receiver_value :
      (r : Receiver) → pointer y (receiver_of y) (receiver_value r) ≡ some (some r)
  unfolding pointer receiver_of receiver_value has
  pointer-receiver_value r =
      let fs = receiver_fields r in
      let d : IsDistinct (map tag fs) = (refl, (refl, (refl, (refl, (refl, (refl, tt)))))) in
      rw
        (
          index-fields_of "scheme" fs d,
          index-fields_of "secret" fs d,
          index-fields_of "header" fs d,
          index-fields_of "encoding" fs d,
          index-fields_of "timestamp_header" fs d,
          index-fields_of "prefix" fs d,
          text_of-omit_text r.secret,
          text_of-omit_text r.header,
          text_of-omit_text r.encoding,
          text_of-omit_text r.timestamp_header,
          text_of-omit_text r.prefix,
        )
        refl

  pointer-secret_value :
      (s : SecretEntry) → pointer y (secret_of y) (secret_value s) ≡ some (some s)
  unfolding pointer secret_of secret_value has
  pointer-secret_value s =
      let fs = secret_fields s in
      let d : IsDistinct (map tag fs) = (refl, (refl, (refl, (refl, tt)))) in
      rw
        (
          index-fields_of "source" fs d,
          index-fields_of "account" fs d,
          index-fields_of "permissions" fs d,
          index-fields_of "expiry" fs d,
          text_of-omit_text s.account,
          texts_of-omit_texts s.permissions,
          text_of-omit_text s.expiry,
        )
        refl

  pointer-server_value : (s : Server) → pointer y (server_of y) (server_value s) ≡ some (some s)
  unfolding pointer server_of server_value texts_of has
  pointer-server_value s =
      let fs = server_fields s in
      let d : IsDistinct (map tag fs) = (refl, (refl, (refl, (refl, tt)))) in
      rw
        (
          index-fields_of "command" fs d,
          index-fields_of "env" fs d,
          index-fields_of "url" fs d,
          index-fields_of "headers" fs d,
          each_text-texts s.command,
          texts_of-omit_texts s.env,
          text_of-omit_text s.url,
          text_map_of-omit_map s.headers,
        )
        refl

  pointer-connector_value :
      (c : Connector) → pointer y (connector_of y) (connector_value c) ≡ some (some c)
  unfolding pointer connector_of connector_value texts_of has
  pointer-connector_value c =
      let fs = connector_fields c in
      let d : IsDistinct (map tag fs) = (refl, (refl, tt)) in
      rw
        (
          index-fields_of "command" fs d,
          index-fields_of "env" fs d,
          each_text-texts c.command,
          texts_of-omit_texts c.env,
        )
        refl

  pointer-section_value :
      (s : Option SingerSection) → pointer y (read_section y) (section_value s) ≡ some s
  unfolding pointer read_section section_value table_of
  pointer-section_value none = refl
  pointer-section_value (some s) =
      rw
        (
          each_pointer-table_fields connector_value (connector_of y) s.taps pointer-connector_value,
          each_pointer-table_fields connector_value (connector_of y) s.targets
              pointer-connector_value,
        )
        refl

  -- The tags read back every config that they have written.
  pub read_config-config_value : (c : Config) → read_config y (config_value c) ≡ some c
  unfolding read_config config_value singer_of table_of
  read_config-config_value c =
      rw
        (
          each_pointer-table_fields server_value (server_of y) c.mcp pointer-server_value,
          pointer-section_value c.singer,
          each_pointer-table_fields secret_value (secret_of y) c.secrets pointer-secret_value,
          each_pointer-table_fields receiver_value (receiver_of y) c.webhook pointer-receiver_value,
        )
        refl
