-- ===== src/Controller/Watch/Reads.antt =====
-- The reading of an agent's inputs rests only on the objects that the agent refers to.
use k8s_operator_hermes_agen.Common.{
  ◌≡◌, ◌≢◌, refl, ap, String, ◌==◌, ◌||◌, eq_iff, Bool, true, false, Option, none, some, List, [],
  ◌∷◌, any, if◌then◌else◌,
}
use k8s_operator_hermes_agen.Api.{
  HermesAgent, ConfigSource, KeySelector, FileMountSpec, FileProjectionItem, LocalObjectReference,
  EnvVar, EnvVarSource, EnvFromSource, EnvSource, ConfigMapContents, SecretContents,
}
use k8s_operator_hermes_agen.Snapshots.{Snapshot, new_config_map_projection_snapshot}
use k8s_operator_hermes_agen.Controller.Exec.{Exec, attempt, pure, ◌>>=◌}
use k8s_operator_hermes_agen.Controller.Client.{Key, Store, ConfigMap, Secret}
use k8s_operator_hermes_agen.Controller.Inputs.{
  missing_is_none, get_config_map_for_reference, get_secret_for_reference, config_map_snapshot,
  secret_snapshot, both, config_map_file, secret_file, append_config_file_snapshots, projection,
  secret_projection, append_file_mount_snapshots, env_value, config_map_key, secret_key,
  append_env_value_snapshots, config_map_env, secret_env, append_env_from_snapshots,
  append_secret_ref_snapshots, resolve_referenced_inputs,
}
use k8s_operator_hermes_agen.Controller.Watch.{
  selects, refers, imports, config_source_references_config_map, config_source_references_secret,
  value_from_config_map, value_from_secret, references_config_map, references_secret,
}

or_false : (a b : Bool) → (a || b) ≡ false → (a ≡ false) × (b ≡ false)
or_false false b h = (refl, h)
or_false true b h = absurd (cc)

-- The stores before and after a change: they agree but for the ConfigMap `cm` and the Secret `sec`.
module _ {S : Type 0} (m m' : Store ConfigMap S) (t t' : Store Secret S) (cm sec : Key)
    (same_config_maps : (key : Key) → key ≢ cm → (s : S) → m.get key s ≡ m'.get key s)
    (same_secrets : (key : Key) → key ≢ sec → (s : S) → t.get key s ≡ t'.get key s)
    (ns : String) where
  get_config_map-same :
      (name : String)
      → (name == cm.name) ≡ false
      → get_config_map_for_reference m t ns name ≡ get_config_map_for_reference m' t' ns name
  unfolding get_config_map_for_reference
  get_config_map-same name h =
      ap (λ g. attempt g missing_is_none (λ (o : ConfigMap). pure (some o.spec)))
        (λ i s.
          same_config_maps (record { name = name; namespace = ns })
            (λ e. absurd (cc (h, (eq_iff name cm.name).1 (ap (λ (k : Key). k.name) e)))) s i)

  get_secret-same :
      (name : String)
      → (name == sec.name) ≡ false
      → get_secret_for_reference m t ns name ≡ get_secret_for_reference m' t' ns name
  unfolding get_secret_for_reference
  get_secret-same name h =
      ap (λ g. attempt g missing_is_none (λ (o : Secret). pure (some o.spec)))
        (λ i s.
          same_secrets (record { name = name; namespace = ns })
            (λ e. absurd (cc (h, (eq_iff name sec.name).1 (ap (λ (k : Key). k.name) e)))) s i)

  config_map_snapshot-same :
      (name : String) (make : Option ConfigMapContents → Snapshot)
      → (name == cm.name) ≡ false
      → config_map_snapshot m t ns name make ≡ config_map_snapshot m' t' ns name make
  config_map_snapshot-same name make h =
      ap
        (λ (g : Exec S (Option ConfigMapContents)).
          if name == "" then pure [] else g >>= λ o. pure (make o ∷ []))
        (get_config_map-same name h)

  secret_snapshot-same :
      (name : String) (make : Option SecretContents → Snapshot)
      → (name == sec.name) ≡ false
      → secret_snapshot m t ns name make ≡ secret_snapshot m' t' ns name make
  secret_snapshot-same name make h =
      ap
        (λ (g : Exec S (Option SecretContents)).
          if name == "" then pure [] else g >>= λ o. pure (make o ∷ []))
        (get_secret-same name h)

  both-same :
      (p p' q q' : Exec S (List Snapshot)) → p ≡ p' → q ≡ q' → both m t ns p q ≡ both m' t' ns p' q'
  both-same p p' q q' e f = λ i. both m t ns (e i) (f i)

  config_map_file-same :
      (o : Option KeySelector)
      → selects cm.name o ≡ false
      → config_map_file m t ns o ≡ config_map_file m' t' ns o
  config_map_file-same none h = refl
  config_map_file-same (some r) h = config_map_snapshot-same r.name _ h

  secret_file-same :
      (o : Option KeySelector)
      → selects sec.name o ≡ false
      → secret_file m t ns o ≡ secret_file m' t' ns o
  secret_file-same none h = refl
  secret_file-same (some r) h = secret_snapshot-same r.name _ h

  append_config_file_snapshots-same :
      (sources : List ConfigSource)
      → any (λ (c : ConfigSource). config_source_references_config_map c cm.name) sources ≡ false
      → any (λ (c : ConfigSource). config_source_references_secret c sec.name) sources ≡ false
      → append_config_file_snapshots m t ns sources ≡ append_config_file_snapshots m' t' ns sources
  unfolding append_config_file_snapshots config_source_references_config_map
      config_source_references_secret
  append_config_file_snapshots-same [] h k = refl
  append_config_file_snapshots-same (c ∷ cs) h k =
      let (first, rest) = or_false _ _ h in
      let (first', rest') = or_false _ _ k in
      both-same _ _ _ _
        (both-same _ _ _ _ (config_map_file-same c.config_map_ref first)
          (secret_file-same c.secret_ref first'))
        (append_config_file_snapshots-same cs rest rest')

  secret_projection-same :
      (items : List FileProjectionItem) (o : Option LocalObjectReference)
      → refers sec.name o ≡ false
      → secret_projection m t ns items o ≡ secret_projection m' t' ns items o
  secret_projection-same items none k = refl
  secret_projection-same items (some r) k = secret_snapshot-same r.name _ k

  projection-same :
      (items : List FileProjectionItem) (c o : Option LocalObjectReference)
      → refers cm.name c ≡ false
      → refers sec.name o ≡ false
      → projection m t ns items c o ≡ projection m' t' ns items c o
  projection-same items none o h k = secret_projection-same items o k
  projection-same items (some r) o h k = λ i.
      if r.name == ""
      then secret_projection-same items o k i
      else config_map_snapshot-same r.name (new_config_map_projection_snapshot r.name items) h i

  append_file_mount_snapshots-same :
      (ms : List FileMountSpec)
      → any (λ (x : FileMountSpec). refers cm.name x.config_map_ref) ms ≡ false
      → any (λ (x : FileMountSpec). refers sec.name x.secret_ref) ms ≡ false
      → append_file_mount_snapshots m t ns ms ≡ append_file_mount_snapshots m' t' ns ms
  unfolding append_file_mount_snapshots
  append_file_mount_snapshots-same [] h k = refl
  append_file_mount_snapshots-same (x ∷ ms) h k =
      let (first, rest) = or_false _ _ h in
      let (first', rest') = or_false _ _ k in
      both-same _ _ _ _ (projection-same x.items x.config_map_ref x.secret_ref first first')
        (append_file_mount_snapshots-same ms rest rest')

  config_map_key-same :
      (o : Option KeySelector)
      → selects cm.name o ≡ false
      → config_map_key m t ns o ≡ config_map_key m' t' ns o
  config_map_key-same none h = refl
  config_map_key-same (some r) h = config_map_snapshot-same r.name _ h

  secret_key-same :
      (o : Option KeySelector)
      → selects sec.name o ≡ false
      → secret_key m t ns o ≡ secret_key m' t' ns o
  secret_key-same none h = refl
  secret_key-same (some r) h = secret_snapshot-same r.name _ h

  config_map_env-same :
      (o : Option EnvSource)
      → imports cm.name o ≡ false
      → config_map_env m t ns o ≡ config_map_env m' t' ns o
  config_map_env-same none h = refl
  config_map_env-same (some r) h = config_map_snapshot-same r.name _ h

  secret_env-same :
      (o : Option EnvSource)
      → imports sec.name o ≡ false
      → secret_env m t ns o ≡ secret_env m' t' ns o
  secret_env-same none h = refl
  secret_env-same (some r) h = secret_snapshot-same r.name _ h

  env_value-same :
      (o : Option EnvVarSource)
      → value_from_config_map cm.name o ≡ false
      → value_from_secret sec.name o ≡ false
      → env_value m t ns o ≡ env_value m' t' ns o
  env_value-same none h k = refl
  env_value-same (some v) h k =
      both-same _ _ _ _ (config_map_key-same v.config_map_key_ref h)
        (secret_key-same v.secret_key_ref k)

  append_env_value_snapshots-same :
      (vs : List EnvVar)
      → any (λ (v : EnvVar). value_from_config_map cm.name v.value_from) vs ≡ false
      → any (λ (v : EnvVar). value_from_secret sec.name v.value_from) vs ≡ false
      → append_env_value_snapshots m t ns vs ≡ append_env_value_snapshots m' t' ns vs
  unfolding append_env_value_snapshots
  append_env_value_snapshots-same [] h k = refl
  append_env_value_snapshots-same (v ∷ vs) h k =
      let (first, rest) = or_false _ _ h in
      let (first', rest') = or_false _ _ k in
      both-same _ _ _ _ (env_value-same v.value_from first first')
        (append_env_value_snapshots-same vs rest rest')

  append_env_from_snapshots-same :
      (ss : List EnvFromSource)
      → any (λ (x : EnvFromSource). imports cm.name x.config_map_ref) ss ≡ false
      → any (λ (x : EnvFromSource). imports sec.name x.secret_ref) ss ≡ false
      → append_env_from_snapshots m t ns ss ≡ append_env_from_snapshots m' t' ns ss
  unfolding append_env_from_snapshots
  append_env_from_snapshots-same [] h k = refl
  append_env_from_snapshots-same (x ∷ ss) h k =
      let (first, rest) = or_false _ _ h in
      let (first', rest') = or_false _ _ k in
      both-same _ _ _ _
        (both-same _ _ _ _ (config_map_env-same x.config_map_ref first)
          (secret_env-same x.secret_ref first'))
        (append_env_from_snapshots-same ss rest rest')

  append_secret_ref_snapshots-same :
      (rs : List LocalObjectReference)
      → any (λ (r : LocalObjectReference). r.name == sec.name) rs ≡ false
      → append_secret_ref_snapshots m t ns rs ≡ append_secret_ref_snapshots m' t' ns rs
  unfolding append_secret_ref_snapshots
  append_secret_ref_snapshots-same [] k = refl
  append_secret_ref_snapshots-same (r ∷ rs) k =
      let (first, rest) = or_false _ _ k in
      both-same _ _ _ _ (secret_snapshot-same r.name _ first)
        (append_secret_ref_snapshots-same rs rest)

module _ {S : Type 0} (m m' : Store ConfigMap S) (t t' : Store Secret S) (cm sec : Key)
    (same_config_maps : (key : Key) → key ≢ cm → (s : S) → m.get key s ≡ m'.get key s)
    (same_secrets : (key : Key) → key ≢ sec → (s : S) → t.get key s ≡ t'.get key s) where
  pub resolve_referenced_inputs-same :
      (a : HermesAgent)
      → (cm.name == "") ≡ false
      → (sec.name == "") ≡ false
      → references_config_map a cm.name ≡ false
      → references_secret a sec.name ≡ false
      → resolve_referenced_inputs m t a ≡ resolve_referenced_inputs m' t' a
  unfolding resolve_referenced_inputs references_config_map references_secret
  resolve_referenced_inputs-same a named named' h k =
      let ns = a.namespace in
      let (files, others) = or_false _ _ (rw (named) at h) in
      let (config, gateway) =
        or_false (config_source_references_config_map a.spec.config cm.name)
          (config_source_references_config_map a.spec.gateway_config cm.name) files in
      let (values, others) = or_false _ _ others in
      let (sources, mounts) = or_false _ _ others in
      let (files', others') = or_false _ _ (rw (named') at k) in
      let (config', gateway') =
        or_false (config_source_references_secret a.spec.config sec.name)
          (config_source_references_secret a.spec.gateway_config sec.name) files' in
      let (values', others') = or_false _ _ others' in
      let (sources', others') = or_false _ _ others' in
      let (refs', mounts') = or_false _ _ others' in
      λ i.
        append_config_file_snapshots-same m m' t t' cm sec same_config_maps same_secrets ns
          (a.spec.config ∷ a.spec.gateway_config ∷ []) (rw (config, gateway) refl)
          (rw (config', gateway') refl) i
        >>= λ files.
            append_file_mount_snapshots-same m m' t t' cm sec same_config_maps same_secrets ns
              a.spec.file_mounts mounts mounts' i
            >>= λ mounts.
                append_env_value_snapshots-same m m' t t' cm sec same_config_maps same_secrets ns
                  a.spec.env values values' i
                >>= λ values.
                    append_env_from_snapshots-same m m' t t' cm sec same_config_maps same_secrets ns
                      a.spec.env_from sources sources' i
                    >>= λ sources.
                        append_secret_ref_snapshots-same m m' t t' cm sec same_config_maps
                          same_secrets ns a.spec.secret_refs refs' i
                        >>= λ refs. pure (record {
                          file_refs = files;
                          file_mount_refs = mounts;
                          env_value_refs = values;
                          env_from = sources;
                          secret_refs = refs;
                        })
