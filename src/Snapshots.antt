-- ===== src/Snapshots.antt =====
-- internal/controller/hermesagent_resources.go: the snapshots of the referenced ConfigMaps and
-- Secrets, from what was found of them. A map that Go may leave nil is an empty map.
pub mod Projections
use k8s_operator_hermes_agen.Common.{
  String, Bool, true, false, Option, none, some, List, [], ◌∷◌, ◌++◌, Map, StringMap, lookup,
  insert, copy, is_empty, if◌then◌else◌, or_else,
}
use k8s_operator_hermes_agen.Api.{Bytes, ConfigMapContents, SecretContents, FileProjectionItem}
use k8s_operator_hermes_agen.Base64.{encode}

-- referencedObjectSnapshot
pub record Snapshot : Type 0 where
  pub kind : String
  pub name : String
  pub key : String
  pub optional : Bool
  pub present : Bool
  pub key_found : Bool
  pub missing_keys : List String
  pub contents : StringMap

-- referencedInputState
pub record ReferencedInputs : Type 0 where
  pub file_refs : List Snapshot
  pub file_mount_refs : List Snapshot
  pub env_value_refs : List Snapshot
  pub env_from : List Snapshot
  pub secret_refs : List Snapshot

abbrev pub no_inputs : ReferencedInputs
no_inputs = record {
  file_refs = [];
  file_mount_refs = [];
  env_value_refs = [];
  env_from = [];
  secret_refs = [];
}

-- A value under each key, encoded.
unfoldable pub encode_values : Map Bytes → StringMap
encode_values [] = []
encode_values ((k, v) ∷ m) = (k, encode v) ∷ encode_values m

-- The value under one key, encoded.
abbrev pub encoded : Option Bytes → Option String
encoded none = none
encoded (some v) = some (encode v)

-- `encodeSecretData`
unfoldable pub encode_secret_data : Map Bytes → StringMap
unfolding encode_values
encode_secret_data values = encode_values values

-- `configMapFileValue`; `none` is the `false` of the pair.
unfoldable pub config_map_file_value : ConfigMapContents → String → Option String
config_map_file_value m key = or_else (lookup key m.text) (encoded (lookup key m.binary))

-- `secret.Data[key]`, encoded
unfoldable pub secret_file_value : SecretContents → String → Option String
secret_file_value s key = encoded (lookup key s.binary)

-- `copyConfigMapData`
unfoldable pub copy_config_map_data : ConfigMapContents → StringMap
unfolding encode_values
copy_config_map_data m = copy (copy [] m.text) (encode_values m.binary)

-- The snapshot before its object is looked at.
abbrev pub blank : String → String → String → Bool → Bool → Snapshot
blank kind name key optional present = record {
  kind = kind;
  name = name;
  key = key;
  optional = optional;
  present = present;
  key_found = false;
  missing_keys = [];
  contents = [];
}

-- The key's value, or that it is missing.
abbrev pub with_value : Snapshot → Option String → Snapshot
with_value s none = s
with_value s (some v) = record s { key_found = true; contents = (s.key, v) ∷ [] }

unfoldable pub new_config_map_key_snapshot :
    String → String → Bool → Option ConfigMapContents → Snapshot
unfolding config_map_file_value
new_config_map_key_snapshot name key optional none = blank "ConfigMap" name key optional false
new_config_map_key_snapshot name key optional (some m) =
    with_value (blank "ConfigMap" name key optional true) (config_map_file_value m key)

unfoldable pub new_config_map_file_snapshot : String → String → Option ConfigMapContents → Snapshot
unfolding new_config_map_key_snapshot
new_config_map_file_snapshot name key m = new_config_map_key_snapshot name key false m

unfoldable pub new_config_map_env_from_snapshot :
    String → Bool → Option ConfigMapContents → Snapshot
unfolding copy_config_map_data
new_config_map_env_from_snapshot name optional none = blank "ConfigMap" name "" optional false
new_config_map_env_from_snapshot name optional (some m) =
    record (blank "ConfigMap" name "" optional true) { contents = copy_config_map_data m }

-- The loop over the projected items, given how a key is read.
unfoldable pub project_items :
    (String → Option String) → Snapshot → List FileProjectionItem → Snapshot
project_items read s [] = s
project_items read s (item ∷ items) =
    project_items read
      (elim (read item.key) [
        | none ↦ record s { key_found = false; missing_keys = s.missing_keys ++ (item.key ∷ []) }
        | some v ↦ record s { contents = insert item.key v s.contents }
      ])
      items

unfoldable pub new_config_map_projection_snapshot :
    String → List FileProjectionItem → Option ConfigMapContents → Snapshot
unfolding copy_config_map_data project_items config_map_file_value
new_config_map_projection_snapshot name items none = blank "ConfigMap" name "" false false
new_config_map_projection_snapshot name items (some m) =
    if is_empty items
    then record (blank "ConfigMap" name "" false true) { contents = copy_config_map_data m }
    else project_items (config_map_file_value m)
        (record (blank "ConfigMap" name "" false true) { key_found = true }) items

unfoldable pub new_secret_key_snapshot : String → String → Bool → Option SecretContents → Snapshot
unfolding secret_file_value
new_secret_key_snapshot name key optional none = blank "Secret" name key optional false
new_secret_key_snapshot name key optional (some s) =
    with_value (blank "Secret" name key optional true) (secret_file_value s key)

unfoldable pub new_secret_file_snapshot : String → String → Option SecretContents → Snapshot
unfolding new_secret_key_snapshot
new_secret_file_snapshot name key s = new_secret_key_snapshot name key false s

unfoldable pub new_secret_snapshot : String → Bool → Option SecretContents → Snapshot
unfolding encode_secret_data
new_secret_snapshot name optional none = blank "Secret" name "" optional false
new_secret_snapshot name optional (some s) = record (blank "Secret" name "" optional true) {
  contents = encode_secret_data s.binary;
}

unfoldable pub new_secret_projection_snapshot :
    String → List FileProjectionItem → Option SecretContents → Snapshot
unfolding encode_secret_data project_items secret_file_value
new_secret_projection_snapshot name items none = blank "Secret" name "" false false
new_secret_projection_snapshot name items (some s) =
    if is_empty items
    then record (blank "Secret" name "" false true) { contents = encode_secret_data s.binary }
    else project_items (secret_file_value s)
        (record (blank "Secret" name "" false true) { key_found = true }) items
