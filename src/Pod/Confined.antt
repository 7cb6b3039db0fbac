-- ===== src/Pod/Confined.antt =====
-- What the volumes of the pod project: the paths and modes of the files in them.
use k8s_operator_hermes_agen.Common.{
  ℕ, suc, ℤ, ◌≡◌, refl, String, ◌==◌, Option, none, some, List, [], ◌∷◌, ◌++◌, All, All-append, ok,
  Bool-cases, inl, inr,
}
use k8s_operator_hermes_agen.Api.{
  HermesAgent, Volume, VolumeSource, config_map, secret, persistent_volume_claim, empty_dir,
  KeyToPath, LocalObjectReference, FileMountSpec, FileProjectionItem,
}
use k8s_operator_hermes_agen.GoPath.{split_slash}
use k8s_operator_hermes_agen.Settings.{persistence_enabled}
use k8s_operator_hermes_agen.Snapshots.{ReferencedInputs}
use k8s_operator_hermes_agen.FileMounts.{validate_file_mount_specs}
use k8s_operator_hermes_agen.FileMounts.Confined.{
  ModeWithin, ConfinedItem, ConfinedMount, validate_mounts-Confined,
}
use k8s_operator_hermes_agen.Config.{
  ConfigPlan, ResolvedConfigFile, HashPayload, build_config_plan_with_references,
}
use k8s_operator_hermes_agen.Config.Plans.{build_config_plan-checked}
use k8s_operator_hermes_agen.Pod.{
  PodTemplateInputs, config_file_volume_source, append_config_file_inputs,
  append_secret_reference_inputs, add_secret_reference, append_file_mount_inputs, add_file_mount,
  file_mount_projection_items, named_source, named_secret, build_file_mount_volume_source,
  build_pod_template_inputs, build_stateful_set, hermes_data_volume, hermes_tmp_volume,
}

-- A projection puts its files below the volume's directory, with modes of plain files.
abbrev pub ConfinedProjection : List KeyToPath → Option ℤ → Type 0
ConfinedProjection items mode =
    All (λ (i : KeyToPath). ConfinedItem i.path i.mode) items × ModeWithin mode

abbrev pub ConfinedSource : VolumeSource → Type 0
ConfinedSource (config_map name items mode) = ConfinedProjection items mode
ConfinedSource (secret name items mode) = ConfinedProjection items mode
ConfinedSource (persistent_volume_claim name) = Unit {0}
ConfinedSource empty_dir = Unit {0}

abbrev pub ConfinedVolumes : List Volume → Type 0
ConfinedVolumes = All (λ (v : Volume). ConfinedSource v.source)

append_volume :
    (vs : List Volume) (v : Volume)
    → ConfinedVolumes vs
    → ConfinedSource v.source
    → ConfinedVolumes (vs ++ (v ∷ []))
append_volume vs v a h = All-append _ vs (v ∷ []) a (h, tt)

config_file_volume_source-Confined :
    (f : ResolvedConfigFile)
    → ConfinedItem f.file_name none
    → ConfinedSource (config_file_volume_source f)
unfolding config_file_volume_source
config_file_volume_source-Confined f h = elim (Bool-cases (f.secret_name == "")) [
  | inl unnamed ↦ rw (unnamed) ((h, tt), tt)
  | inr named ↦ rw (named) ((h, tt), tt)
]

append_config_file_inputs-Confined :
    (files : List ResolvedConfigFile) (i : PodTemplateInputs)
    → All (λ (f : ResolvedConfigFile). ConfinedItem f.file_name none) files
    → ConfinedVolumes i.volumes
    → ConfinedVolumes (append_config_file_inputs i files).volumes
unfolding append_config_file_inputs
append_config_file_inputs-Confined [] i a c = c
append_config_file_inputs-Confined (f ∷ fs) i (h, a) c =
    append_config_file_inputs-Confined fs _ a
      (append_volume i.volumes _ c (config_file_volume_source-Confined f h))

add_secret_reference-Confined :
    (n : ℕ) (i : PodTemplateInputs) (r : LocalObjectReference)
    → ConfinedVolumes i.volumes
    → ConfinedVolumes (add_secret_reference n i r).volumes
add_secret_reference-Confined n i r c = elim (Bool-cases (r.name == "")) [
  | inl unnamed ↦ rw (unnamed) c
  | inr named ↦ rw (named) (append_volume i.volumes _ c (tt, tt))
]

append_secret_reference_inputs-Confined :
    (refs : List LocalObjectReference) (n : ℕ) (i : PodTemplateInputs)
    → ConfinedVolumes i.volumes
    → ConfinedVolumes (append_secret_reference_inputs n i refs).volumes
unfolding append_secret_reference_inputs
append_secret_reference_inputs-Confined [] n i c = c
append_secret_reference_inputs-Confined (r ∷ rs) n i c =
    append_secret_reference_inputs-Confined rs (suc n) (add_secret_reference n i r)
      (add_secret_reference-Confined n i r c)

projection_items-Confined :
    (items : List FileProjectionItem)
    → All (λ (item : FileProjectionItem). ConfinedItem item.path item.mode) items
    → All (λ (i : KeyToPath). ConfinedItem i.path i.mode) (file_mount_projection_items items)
unfolding file_mount_projection_items
projection_items-Confined [] a = tt
projection_items-Confined (item ∷ items) (h, a) = (h, projection_items-Confined items a)

-- A source that is there projects confined files.
abbrev ConfinedIfSet : Option VolumeSource → Type 0
ConfinedIfSet none = Unit {0}
ConfinedIfSet (some source) = ConfinedSource source

named_secret-Confined :
    (s : Option LocalObjectReference) (items : List KeyToPath) (mode : Option ℤ)
    → ConfinedProjection items mode
    → ConfinedIfSet (named_secret s items mode)
named_secret-Confined none items mode h = tt
named_secret-Confined (some r) items mode h = elim (Bool-cases (r.name == "")) [
  | inl unnamed ↦ rw (unnamed) tt
  | inr named ↦ rw (named) h
]

named_source-Confined :
    (c s : Option LocalObjectReference) (items : List KeyToPath) (mode : Option ℤ)
    → ConfinedProjection items mode
    → ConfinedIfSet (named_source c s items mode)
named_source-Confined none s items mode h = named_secret-Confined s items mode h
named_source-Confined (some r) s items mode h = elim (Bool-cases (r.name == "")) [
  | inl unnamed ↦ rw (unnamed) (named_secret-Confined s items mode h)
  | inr named ↦ rw (named) h
]

add_file_mount-Confined :
    (n : ℕ) (i : PodTemplateInputs) (path : String) (source : Option VolumeSource)
    → ConfinedVolumes i.volumes
    → ConfinedIfSet source
    → ConfinedVolumes (add_file_mount n i path source).volumes
add_file_mount-Confined n i path none c h = c
add_file_mount-Confined n i path (some source) c h = append_volume i.volumes _ c h

append_file_mount_inputs-Confined :
    (mounts : List FileMountSpec) (n : ℕ) (i : PodTemplateInputs)
    → All ConfinedMount mounts
    → ConfinedVolumes i.volumes
    → ConfinedVolumes (append_file_mount_inputs n i mounts).volumes
unfolding append_file_mount_inputs build_file_mount_volume_source
append_file_mount_inputs-Confined [] n i a c = c
append_file_mount_inputs-Confined (m ∷ ms) n i ((mode, items), a) c =
    append_file_mount_inputs-Confined ms (suc n) _ a (
      add_file_mount-Confined n i m.mount_path (build_file_mount_volume_source m) c (
        named_source-Confined m.config_map_ref m.secret_ref _ m.default_mode
          (projection_items-Confined m.items items, mode)))

data_volume-Confined : (a : HermesAgent) → ConfinedSource (hermes_data_volume a).source
unfolding hermes_data_volume
data_volume-Confined a = elim (Bool-cases (persistence_enabled a)) [
  | inl kept ↦ rw (kept) tt
  | inr empty ↦ rw (empty) tt
]

-- The pod of an agent that has a config plan, whatever its spec: each file that a volume projects
-- from a ConfigMap or Secret has a path whose segments are neither empty nor "." nor "..", and a mode,
-- if one is given, from 0 to octal 777.
pub build_stateful_set-Confined :
    (digest : HashPayload → String) (a : HermesAgent) (inputs : ReferencedInputs)
    (plan : ConfigPlan)
    → build_config_plan_with_references digest a inputs ≡ ok plan
    → ConfinedVolumes
        (build_stateful_set a (build_pod_template_inputs a plan)).template_spec.volumes
unfolding build_stateful_set build_pod_template_inputs hermes_tmp_volume validate_file_mount_specs
    split_slash
build_stateful_set-Confined digest a inputs plan h =
    let (checked, files) =
      build_config_plan-checked (λ name. ConfinedItem name none) digest a inputs plan h (refl, tt)
        (refl, tt) in
    let i = build_pod_template_inputs a plan in
    All-append _ i.volumes _
      (append_file_mount_inputs-Confined a.spec.file_mounts 0 _
        (validate_mounts-Confined 0 [] a.spec.file_mounts checked)
        (append_secret_reference_inputs-Confined a.spec.secret_refs 0 _
          (append_config_file_inputs-Confined plan.files _ files tt)))
      (data_volume-Confined a, (tt, tt))
