-- ===== src/Controller/Inputs.antt =====
-- Reading the referenced ConfigMaps and Secrets, and the messages about what is missing.
pub mod Keeps
use k8s_operator_hermes_agen.Common.{
  String, ◌==◌, ◌<>◌, Bool, not, ◌&&◌, Option, none, some, List, [], ◌∷◌, ◌++◌, ok, err,
  if◌then◌else◌,
}
use k8s_operator_hermes_agen.Api.{
  HermesAgent, ConfigSource, KeySelector, FileMountSpec, FileProjectionItem, LocalObjectReference,
  EnvVar, EnvVarSource, EnvFromSource, EnvSource, ConfigMapContents, SecretContents,
}
use k8s_operator_hermes_agen.Settings.{optional_value}
use k8s_operator_hermes_agen.Snapshots.{
  Snapshot, ReferencedInputs, new_config_map_file_snapshot, new_secret_file_snapshot,
  new_config_map_projection_snapshot, new_secret_projection_snapshot, new_config_map_key_snapshot,
  new_secret_key_snapshot, new_config_map_env_from_snapshot, new_secret_snapshot,
}
use k8s_operator_hermes_agen.Controller.Exec.{
  Error, not_found, other, drifted, join_texts, Exec, pure, attempt, ◌>>=◌,
}
use k8s_operator_hermes_agen.Controller.Client.{Store, ConfigMap, Secret}

-- A NotFound is no object; any other error is passed on.
abbrev pub missing_is_none : {S A : Type 0} → Error → Exec S (Option A)
missing_is_none (not_found e) s = (ok none, s)
missing_is_none (other e) s = (err (other e), s)
missing_is_none (drifted d) s = (err (drifted d), s)

module _ {S : Type 0} (config_maps : Store ConfigMap S) (secrets : Store Secret S)
    (namespace : String) where
  unfoldable pub get_config_map_for_reference : String → Exec S (Option ConfigMapContents)
  get_config_map_for_reference name =
      attempt (config_maps.get (record { name = name; namespace = namespace })) missing_is_none
        λ m. pure (some m.spec)

  unfoldable pub get_secret_for_reference : String → Exec S (Option SecretContents)
  get_secret_for_reference name =
      attempt (secrets.get (record { name = name; namespace = namespace })) missing_is_none
        λ m. pure (some m.spec)

  -- `if name != "" { object, err := get…; append snapshot }`
  abbrev pub config_map_snapshot :
      String → (Option ConfigMapContents → Snapshot) → Exec S (List Snapshot)
  config_map_snapshot name snapshot =
      if name == ""
      then pure []
      else get_config_map_for_reference name >>= λ m. pure (snapshot m ∷ [])

  abbrev pub secret_snapshot : String → (Option SecretContents → Snapshot) → Exec S (List Snapshot)
  secret_snapshot name snapshot =
      if name == "" then pure [] else get_secret_for_reference name >>= λ m. pure (snapshot m ∷ [])

  abbrev pub both : Exec S (List Snapshot) → Exec S (List Snapshot) → Exec S (List Snapshot)
  both m n = m >>= λ xs. n >>= λ ys. pure (xs ++ ys)

  abbrev pub config_map_file : Option KeySelector → Exec S (List Snapshot)
  config_map_file none = pure []
  config_map_file (some r) = config_map_snapshot r.name (new_config_map_file_snapshot r.name r.key)

  abbrev pub secret_file : Option KeySelector → Exec S (List Snapshot)
  secret_file none = pure []
  secret_file (some r) = secret_snapshot r.name (new_secret_file_snapshot r.name r.key)

  unfoldable pub append_config_file_snapshots : List ConfigSource → Exec S (List Snapshot)
  unfolding get_config_map_for_reference get_secret_for_reference
  append_config_file_snapshots [] = pure []
  append_config_file_snapshots (source ∷ sources) =
      both (both (config_map_file source.config_map_ref) (secret_file source.secret_ref))
        (append_config_file_snapshots sources)

  abbrev pub secret_projection :
      List FileProjectionItem → Option LocalObjectReference → Exec S (List Snapshot)
  secret_projection items none = pure []
  secret_projection items (some r) =
      secret_snapshot r.name (new_secret_projection_snapshot r.name items)

  -- A named ConfigMap goes first, and then `continue` skips the Secret.
  abbrev pub projection :
      List FileProjectionItem
      → Option LocalObjectReference
      → Option LocalObjectReference
      → Exec S (List Snapshot)
  projection items none secret = secret_projection items secret
  projection items (some r) secret =
      if r.name == ""
      then secret_projection items secret
      else config_map_snapshot r.name (new_config_map_projection_snapshot r.name items)

  unfoldable pub append_file_mount_snapshots : List FileMountSpec → Exec S (List Snapshot)
  unfolding get_config_map_for_reference get_secret_for_reference
  append_file_mount_snapshots [] = pure []
  append_file_mount_snapshots (m ∷ ms) =
      both (projection m.items m.config_map_ref m.secret_ref) (append_file_mount_snapshots ms)

  abbrev pub config_map_key : Option KeySelector → Exec S (List Snapshot)
  config_map_key none = pure []
  config_map_key (some r) =
      config_map_snapshot r.name
        (new_config_map_key_snapshot r.name r.key (optional_value r.optional))

  abbrev pub secret_key : Option KeySelector → Exec S (List Snapshot)
  secret_key none = pure []
  secret_key (some r) =
      secret_snapshot r.name (new_secret_key_snapshot r.name r.key (optional_value r.optional))

  abbrev pub env_value : Option EnvVarSource → Exec S (List Snapshot)
  env_value none = pure []
  env_value (some v) = both (config_map_key v.config_map_key_ref) (secret_key v.secret_key_ref)

  unfoldable pub append_env_value_snapshots : List EnvVar → Exec S (List Snapshot)
  unfolding get_config_map_for_reference get_secret_for_reference
  append_env_value_snapshots [] = pure []
  append_env_value_snapshots (v ∷ vs) =
      both (env_value v.value_from) (append_env_value_snapshots vs)

  abbrev pub config_map_env : Option EnvSource → Exec S (List Snapshot)
  config_map_env none = pure []
  config_map_env (some r) =
      config_map_snapshot r.name
        (new_config_map_env_from_snapshot r.name (optional_value r.optional))

  abbrev pub secret_env : Option EnvSource → Exec S (List Snapshot)
  secret_env none = pure []
  secret_env (some r) =
      secret_snapshot r.name (new_secret_snapshot r.name (optional_value r.optional))

  unfoldable pub append_env_from_snapshots : List EnvFromSource → Exec S (List Snapshot)
  unfolding get_config_map_for_reference get_secret_for_reference
  append_env_from_snapshots [] = pure []
  append_env_from_snapshots (s ∷ ss) =
      both (both (config_map_env s.config_map_ref) (secret_env s.secret_ref))
        (append_env_from_snapshots ss)

  unfoldable pub append_secret_ref_snapshots : List LocalObjectReference → Exec S (List Snapshot)
  unfolding get_secret_for_reference
  append_secret_ref_snapshots [] = pure []
  append_secret_ref_snapshots (r ∷ rs) =
      both (secret_snapshot r.name (new_secret_snapshot r.name Bool.false))
        (append_secret_ref_snapshots rs)

module _ {S : Type 0} (config_maps : Store ConfigMap S) (secrets : Store Secret S) where
  -- `resolveReferencedInputs`
  unfoldable pub resolve_referenced_inputs : HermesAgent → Exec S ReferencedInputs
  unfolding append_config_file_snapshots append_file_mount_snapshots append_env_value_snapshots
      append_env_from_snapshots append_secret_ref_snapshots
  resolve_referenced_inputs a =
      let ns = a.namespace in
      append_config_file_snapshots config_maps secrets ns
        (a.spec.config ∷ a.spec.gateway_config ∷ [])
      >>= λ files.
          append_file_mount_snapshots config_maps secrets ns a.spec.file_mounts >>= λ mounts.
          append_env_value_snapshots config_maps secrets ns a.spec.env >>= λ values.
          append_env_from_snapshots config_maps secrets ns a.spec.env_from >>= λ sources.
          append_secret_ref_snapshots config_maps secrets ns a.spec.secret_refs >>= λ refs.
          pure (record {
            file_refs = files;
            file_mount_refs = mounts;
            env_value_refs = values;
            env_from = sources;
            secret_refs = refs;
          })

abbrev missing_key : Snapshot → String → String
missing_key s key = s.kind <> " " <> s.name <> " is missing key " <> key

missing_keys_messages : Snapshot → List String → List String
missing_keys_messages s [] = []
missing_keys_messages s (key ∷ keys) = missing_key s key ∷ missing_keys_messages s keys

-- The closure `appendMessages` of `missingReferenceMessages`.
unfoldable pub snapshot_messages : Snapshot → List String
unfolding missing_keys_messages
snapshot_messages s =
    if s.optional && not s.present
    then []
    else if s.present && s.key_found
    then []
    else if not s.present
    then (s.kind <> " " <> s.name <> " was not found") ∷ []
    else if s.optional && (not (s.key == "") && not s.key_found)
    then []
    else (if not (s.key == "") && not s.key_found then missing_key s s.key ∷ [] else [])
      ++ missing_keys_messages s s.missing_keys

unfoldable pub messages_of : List Snapshot → List String
unfolding snapshot_messages
messages_of [] = []
messages_of (s ∷ ss) = snapshot_messages s ++ messages_of ss

unfoldable pub missing_reference_messages : ReferencedInputs → List String
unfolding messages_of
missing_reference_messages r =
    messages_of r.file_refs
    ++ (messages_of r.file_mount_refs
        ++ (messages_of r.env_value_refs ++ (messages_of r.env_from ++ messages_of r.secret_refs)))

unfoldable pub join_messages : List String → String
unfolding join_texts
join_messages messages = join_texts "; " messages
