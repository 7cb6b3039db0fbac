-- ===== src/Controller/Inputs/Keeps.antt =====
-- The reading of the referenced inputs makes no call but Gets of ConfigMaps and Secrets.
use k8s_operator_hermes_agen.Common.{Bool, String, ◌==◌, Option, none, some, List, [], ◌∷◌}
use k8s_operator_hermes_agen.Api.{
  HermesAgent, ConfigSource, KeySelector, FileMountSpec, FileProjectionItem, LocalObjectReference,
  EnvVar, EnvVarSource, EnvFromSource, EnvSource, ConfigMapContents, SecretContents,
}
use k8s_operator_hermes_agen.Snapshots.{
  Snapshot, new_config_map_projection_snapshot, new_secret_snapshot,
}
use k8s_operator_hermes_agen.Controller.Exec.{Error, not_found, other, drifted, Exec}
use k8s_operator_hermes_agen.Controller.Exec.Keeps.{Keeps, attempt-Keeps, bind-Keeps, choose-Keeps}
use k8s_operator_hermes_agen.Controller.Client.{Key, Store, ConfigMap, Secret}
use k8s_operator_hermes_agen.Controller.Inputs.{
  missing_is_none, get_config_map_for_reference, get_secret_for_reference, config_map_snapshot,
  secret_snapshot, both, config_map_file, secret_file, append_config_file_snapshots, projection,
  secret_projection, append_file_mount_snapshots, env_value, config_map_key, secret_key,
  append_env_value_snapshots, config_map_env, secret_env, append_env_from_snapshots,
  append_secret_ref_snapshots, resolve_referenced_inputs,
}

module _ {S : Type 0} (P : S → Type 0) where
  pub missing_is_none-Keeps :
      (Obj : Type 0) → (e : Error) → Keeps P (missing_is_none {S = S} {A = Obj} e)
  missing_is_none-Keeps Obj (not_found e) s p = p
  missing_is_none-Keeps Obj (other e) s p = p
  missing_is_none-Keeps Obj (drifted d) s p = p

module _ {S : Type 0} (P : S → Type 0) (m : Store ConfigMap S) (t : Store Secret S)
    (config_map_reads : (key : Key) → Keeps P (m.get key))
    (secret_reads : (key : Key) → Keeps P (t.get key)) (ns : String) where
  config_map_snapshot-Keeps :
      (name : String) (make : Option ConfigMapContents → Snapshot)
      → Keeps P (config_map_snapshot m t ns name make)
  unfolding get_config_map_for_reference
  config_map_snapshot-Keeps name make =
      choose-Keeps P (name == "") _ _ (λ s p. p)
        (bind-Keeps P (get_config_map_for_reference m t ns name) _
          (attempt-Keeps P (m.get (record { name = name; namespace = ns })) missing_is_none _
            (config_map_reads _) (missing_is_none-Keeps P ConfigMapContents) (λ o s p. p))
          (λ o s p. p))

  secret_snapshot-Keeps :
      (name : String) (make : Option SecretContents → Snapshot)
      → Keeps P (secret_snapshot m t ns name make)
  unfolding get_secret_for_reference
  secret_snapshot-Keeps name make =
      choose-Keeps P (name == "") _ _ (λ s p. p)
        (bind-Keeps P (get_secret_for_reference m t ns name) _
          (attempt-Keeps P (t.get (record { name = name; namespace = ns })) missing_is_none _
            (secret_reads _) (missing_is_none-Keeps P SecretContents) (λ o s p. p))
          (λ o s p. p))

  both-Keeps : (x y : Exec S (List Snapshot)) → Keeps P x → Keeps P y → Keeps P (both m t ns x y)
  both-Keeps x y h k = bind-Keeps P x _ h (λ xs. bind-Keeps P y _ k (λ ys s p. p))

  config_map_file-Keeps : (o : Option KeySelector) → Keeps P (config_map_file m t ns o)
  config_map_file-Keeps none s p = p
  config_map_file-Keeps (some r) s p = config_map_snapshot-Keeps r.name _ s p

  secret_file-Keeps : (o : Option KeySelector) → Keeps P (secret_file m t ns o)
  secret_file-Keeps none s p = p
  secret_file-Keeps (some r) s p = secret_snapshot-Keeps r.name _ s p

  append_config_file_snapshots-Keeps :
      (sources : List ConfigSource) → Keeps P (append_config_file_snapshots m t ns sources)
  unfolding append_config_file_snapshots
  append_config_file_snapshots-Keeps [] s p = p
  append_config_file_snapshots-Keeps (c ∷ cs) s p =
      both-Keeps
        (both m t ns (config_map_file m t ns c.config_map_ref) (secret_file m t ns c.secret_ref))
        (append_config_file_snapshots m t ns cs)
        (both-Keeps (config_map_file m t ns c.config_map_ref) (secret_file m t ns c.secret_ref)
          (config_map_file-Keeps c.config_map_ref) (secret_file-Keeps c.secret_ref))
        (append_config_file_snapshots-Keeps cs) s p

  secret_projection-Keeps :
      (items : List FileProjectionItem) (o : Option LocalObjectReference)
      → Keeps P (secret_projection m t ns items o)
  secret_projection-Keeps items none s p = p
  secret_projection-Keeps items (some r) s p = secret_snapshot-Keeps r.name _ s p

  projection-Keeps :
      (items : List FileProjectionItem) (c o : Option LocalObjectReference)
      → Keeps P (projection m t ns items c o)
  projection-Keeps items none o s p = secret_projection-Keeps items o s p
  projection-Keeps items (some r) o s p =
      choose-Keeps P (r.name == "") _ _ (secret_projection-Keeps items o)
        (config_map_snapshot-Keeps r.name (new_config_map_projection_snapshot r.name items)) s p

  append_file_mount_snapshots-Keeps :
      (ms : List FileMountSpec) → Keeps P (append_file_mount_snapshots m t ns ms)
  unfolding append_file_mount_snapshots
  append_file_mount_snapshots-Keeps [] s p = p
  append_file_mount_snapshots-Keeps (x ∷ ms) s p =
      both-Keeps (projection m t ns x.items x.config_map_ref x.secret_ref)
        (append_file_mount_snapshots m t ns ms)
        (projection-Keeps x.items x.config_map_ref x.secret_ref)
        (append_file_mount_snapshots-Keeps ms) s p

  config_map_key-Keeps : (o : Option KeySelector) → Keeps P (config_map_key m t ns o)
  config_map_key-Keeps none s p = p
  config_map_key-Keeps (some r) s p = config_map_snapshot-Keeps r.name _ s p

  secret_key-Keeps : (o : Option KeySelector) → Keeps P (secret_key m t ns o)
  secret_key-Keeps none s p = p
  secret_key-Keeps (some r) s p = secret_snapshot-Keeps r.name _ s p

  env_value-Keeps : (o : Option EnvVarSource) → Keeps P (env_value m t ns o)
  env_value-Keeps none s p = p
  env_value-Keeps (some v) s p =
      both-Keeps (config_map_key m t ns v.config_map_key_ref) (secret_key m t ns v.secret_key_ref)
        (config_map_key-Keeps v.config_map_key_ref) (secret_key-Keeps v.secret_key_ref) s p

  append_env_value_snapshots-Keeps :
      (vs : List EnvVar) → Keeps P (append_env_value_snapshots m t ns vs)
  unfolding append_env_value_snapshots
  append_env_value_snapshots-Keeps [] s p = p
  append_env_value_snapshots-Keeps (v ∷ vs) s p =
      both-Keeps (env_value m t ns v.value_from) (append_env_value_snapshots m t ns vs)
        (env_value-Keeps v.value_from) (append_env_value_snapshots-Keeps vs) s p

  config_map_env-Keeps : (o : Option EnvSource) → Keeps P (config_map_env m t ns o)
  config_map_env-Keeps none s p = p
  config_map_env-Keeps (some r) s p = config_map_snapshot-Keeps r.name _ s p

  secret_env-Keeps : (o : Option EnvSource) → Keeps P (secret_env m t ns o)
  secret_env-Keeps none s p = p
  secret_env-Keeps (some r) s p = secret_snapshot-Keeps r.name _ s p

  append_env_from_snapshots-Keeps :
      (ss : List EnvFromSource) → Keeps P (append_env_from_snapshots m t ns ss)
  unfolding append_env_from_snapshots
  append_env_from_snapshots-Keeps [] s p = p
  append_env_from_snapshots-Keeps (x ∷ ss) s p =
      both-Keeps
        (both m t ns (config_map_env m t ns x.config_map_ref) (secret_env m t ns x.secret_ref))
        (append_env_from_snapshots m t ns ss)
        (both-Keeps (config_map_env m t ns x.config_map_ref) (secret_env m t ns x.secret_ref)
          (config_map_env-Keeps x.config_map_ref) (secret_env-Keeps x.secret_ref))
        (append_env_from_snapshots-Keeps ss) s p

  append_secret_ref_snapshots-Keeps :
      (rs : List LocalObjectReference) → Keeps P (append_secret_ref_snapshots m t ns rs)
  unfolding append_secret_ref_snapshots
  append_secret_ref_snapshots-Keeps [] s p = p
  append_secret_ref_snapshots-Keeps (r ∷ rs) s p =
      both-Keeps (secret_snapshot m t ns r.name (new_secret_snapshot r.name Bool.false))
        (append_secret_ref_snapshots m t ns rs) (secret_snapshot-Keeps r.name _)
        (append_secret_ref_snapshots-Keeps rs) s p

module _ {S : Type 0} (P : S → Type 0) (m : Store ConfigMap S) (t : Store Secret S)
    (config_map_reads : (key : Key) → Keeps P (m.get key))
    (secret_reads : (key : Key) → Keeps P (t.get key)) where
  pub resolve_referenced_inputs-Keeps :
      (a : HermesAgent) → Keeps P (resolve_referenced_inputs m t a)
  unfolding resolve_referenced_inputs
  resolve_referenced_inputs-Keeps a =
      let ns = a.namespace in
      bind-Keeps P
        (append_config_file_snapshots m t ns (a.spec.config ∷ a.spec.gateway_config ∷ [])) _
        (append_config_file_snapshots-Keeps P m t config_map_reads secret_reads ns
          (a.spec.config ∷ a.spec.gateway_config ∷ []))
        (λ files.
          bind-Keeps P (append_file_mount_snapshots m t ns a.spec.file_mounts) _
            (append_file_mount_snapshots-Keeps P m t config_map_reads secret_reads ns
              a.spec.file_mounts)
            (λ mounts.
              bind-Keeps P (append_env_value_snapshots m t ns a.spec.env) _
                (append_env_value_snapshots-Keeps P m t config_map_reads secret_reads ns a.spec.env)
                (λ values.
                  bind-Keeps P (append_env_from_snapshots m t ns a.spec.env_from) _
                    (append_env_from_snapshots-Keeps P m t config_map_reads secret_reads ns
                      a.spec.env_from)
                    (λ sources.
                      bind-Keeps P (append_secret_ref_snapshots m t ns a.spec.secret_refs) _
                        (append_secret_ref_snapshots-Keeps P m t config_map_reads secret_reads ns
                          a.spec.secret_refs)
                        (λ refs s p. p)))))
