-- ===== src/Backend/Sources.antt =====
-- The terminal backend of the same config text in different places.
use k8s_operator_hermes_agen.Common.{
  ◌≡◌, String, ◌==◌, eq_refl, false, Option, none, some, [], ◌∷◌, lookup,
}
use k8s_operator_hermes_agen.Api.{KeySelector, Bytes, ConfigMapContents, SecretContents}
use k8s_operator_hermes_agen.Base64.{utf8, encode}
use k8s_operator_hermes_agen.Base64.RoundTrip.{IsBytes, decode-encode}
use k8s_operator_hermes_agen.Snapshots.{
  no_inputs, new_config_map_file_snapshot, new_secret_file_snapshot, secret_file_value,
  config_map_file_value,
}
use k8s_operator_hermes_agen.Backend.{
  terminal_backend_from_config_content, snapshot_backend, search_snapshots,
  config_source_terminal_backend, picked_reference,
}

module _ (yaml : Bytes → Option String) where
  secret_backend :
      (name key : String) (s : SecretContents) (content : Bytes)
      → IsBytes content
      → lookup key s.binary ≡ some content
      → search_snapshots yaml
          (record { kind = "Secret"; name = name; key = key })
          (new_secret_file_snapshot name key (some s) ∷ [])
        ≡ terminal_backend_from_config_content yaml content
  unfolding search_snapshots snapshot_backend new_secret_file_snapshot secret_file_value lookup
  secret_backend name key s content bytes there =
      rw (there, eq_refl name, eq_refl key, decode-encode content bytes)

  config_map_backend :
      (name key text : String) (m : ConfigMapContents)
      → lookup key m.text ≡ some text
      → search_snapshots yaml
          (record { kind = "ConfigMap"; name = name; key = key })
          (new_config_map_file_snapshot name key (some m) ∷ [])
        ≡ terminal_backend_from_config_content yaml (utf8 text)
  unfolding search_snapshots snapshot_backend new_config_map_file_snapshot config_map_file_value
      lookup
  config_map_backend name key text m there = rw (there, eq_refl name, eq_refl key)

  binary_backend :
      (name key : String) (m : ConfigMapContents) (content : Bytes)
      → lookup key m.text ≡ none
      → lookup key m.binary ≡ some content
      → search_snapshots yaml
          (record { kind = "ConfigMap"; name = name; key = key })
          (new_config_map_file_snapshot name key (some m) ∷ [])
        ≡ terminal_backend_from_config_content yaml (utf8 (encode content))
  unfolding search_snapshots snapshot_backend new_config_map_file_snapshot config_map_file_value
      lookup
  binary_backend name key m content absent there = rw (absent, there, eq_refl name, eq_refl key)

  abbrev pub from_raw : String → Option String
  from_raw text =
      config_source_terminal_backend yaml
        (record { raw = text; config_map_ref = none; secret_ref = none }) no_inputs

  abbrev pub from_config_map : KeySelector → ConfigMapContents → Option String
  from_config_map r m =
      config_source_terminal_backend yaml
        (record { raw = ""; config_map_ref = some r; secret_ref = none })
        (record no_inputs { file_refs = new_config_map_file_snapshot r.name r.key (some m) ∷ [] })

  abbrev pub from_secret : KeySelector → SecretContents → Option String
  from_secret r s =
      config_source_terminal_backend yaml
        (record { raw = ""; config_map_ref = none; secret_ref = some r })
        (record no_inputs { file_refs = new_secret_file_snapshot r.name r.key (some s) ∷ [] })

  -- The same config text gives the same terminal backend whether it is inline, under a key of a
  -- ConfigMap's data, or the bytes under a key of a Secret, with a reference that has name and key. Under
  -- a key of a ConfigMap's binary data, the base64 of the text is read as the config instead.
  pub same_text-same_backend :
      (text : String) (r : KeySelector) (m m' : ConfigMapContents) (s : SecretContents)
      → (text == "") ≡ false
      → (r.name == "") ≡ false
      → (r.key == "") ≡ false
      → lookup r.key m.text ≡ some text
      → lookup r.key s.binary ≡ some (utf8 text)
      → IsBytes (utf8 text)
      → lookup r.key m'.text ≡ none
      → lookup r.key m'.binary ≡ some (utf8 text)
      → (from_config_map r m ≡ from_raw text)
        × (from_secret r s ≡ from_raw text)
        × (from_config_map r m'
            ≡ terminal_backend_from_config_content yaml (utf8 (encode (utf8 text))))
  unfolding config_source_terminal_backend picked_reference
  same_text-same_backend text r m m' s given named keyed in_map in_secret bytes absent in_binary = (
    rw (given, named, keyed) (config_map_backend r.name r.key text m in_map),
    rw (given, named, keyed) (secret_backend r.name r.key s (utf8 text) bytes in_secret),
    rw (named, keyed) (binary_backend r.name r.key m' (utf8 text) absent in_binary),
  )
