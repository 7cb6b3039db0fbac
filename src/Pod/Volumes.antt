-- ===== src/Pod/Volumes.antt =====
-- The volumes of the pod and the mounts of its container.
use k8s_operator_hermes_agen.Common.{
  ℕ, suc, ◌≡◌, refl, ap, String, ◌==◌, Option, none, some, List, [], ◌∷◌, ◌++◌, Bool-cases, inl,
  inr,
}
use k8s_operator_hermes_agen.Api.{
  HermesAgent, Volume, VolumeMount, VolumeSource, Container, LocalObjectReference, FileMountSpec,
}
use k8s_operator_hermes_agen.Config.{ConfigPlan, ResolvedConfigFile}
use k8s_operator_hermes_agen.Settings.{persistence_enabled}
use k8s_operator_hermes_agen.Pod.{
  PodTemplateInputs, add_volume, append_config_file_inputs, append_secret_reference_inputs,
  add_secret_reference, append_file_mount_inputs, add_file_mount, build_file_mount_volume_source,
  build_pod_template_inputs, build_stateful_set, hermes_data_volume, hermes_tmp_volume,
  hermes_container,
}

abbrev pub volume_names : List Volume → List String
volume_names [] = []
volume_names (v ∷ vs) = v.name ∷ volume_names vs

abbrev pub mounted_names : List VolumeMount → List String
mounted_names [] = []
mounted_names (m ∷ ms) = m.name ∷ mounted_names ms

volume_names-append :
    (vs ws : List Volume) → volume_names (vs ++ ws) ≡ volume_names vs ++ volume_names ws
volume_names-append [] ws = refl
volume_names-append (v ∷ vs) ws = ap (λ xs. v.name ∷ xs) (volume_names-append vs ws)

mounted_names-append :
    (ms ns : List VolumeMount) → mounted_names (ms ++ ns) ≡ mounted_names ms ++ mounted_names ns
mounted_names-append [] ns = refl
mounted_names-append (m ∷ ms) ns = ap (λ xs. m.name ∷ xs) (mounted_names-append ms ns)

-- The volumes and the mounts have the same names in the same order.
abbrev Paired : PodTemplateInputs → Type 0
Paired i = mounted_names i.volume_mounts ≡ volume_names i.volumes

add_volume-Paired :
    (i : PodTemplateInputs) (v : Volume) (m : VolumeMount)
    → m.name ≡ v.name
    → Paired i
    → Paired (add_volume i v m)
add_volume-Paired i v m same p =
    rw (
      mounted_names-append i.volume_mounts (m ∷ []),
      volume_names-append i.volumes (v ∷ []),
      p,
      same,
    )

append_config_file_inputs-Paired :
    (files : List ResolvedConfigFile) (i : PodTemplateInputs)
    → Paired i
    → Paired (append_config_file_inputs i files)
unfolding append_config_file_inputs
append_config_file_inputs-Paired [] i p = p
append_config_file_inputs-Paired (f ∷ fs) i p =
    append_config_file_inputs-Paired fs _ (add_volume-Paired i _ _ refl p)

add_secret_reference-Paired :
    (n : ℕ) (i : PodTemplateInputs) (r : LocalObjectReference)
    → Paired i
    → Paired (add_secret_reference n i r)
add_secret_reference-Paired n i r p = elim (Bool-cases (r.name == "")) [
  | inl unnamed ↦ rw (unnamed) p
  | inr named ↦ rw (named) (add_volume-Paired i _ _ refl p)
]

append_secret_reference_inputs-Paired :
    (refs : List LocalObjectReference) (n : ℕ) (i : PodTemplateInputs)
    → Paired i
    → Paired (append_secret_reference_inputs n i refs)
unfolding append_secret_reference_inputs
append_secret_reference_inputs-Paired [] n i p = p
append_secret_reference_inputs-Paired (r ∷ rs) n i p =
    append_secret_reference_inputs-Paired rs (suc n) (add_secret_reference n i r)
      (add_secret_reference-Paired n i r p)

add_file_mount-Paired :
    (n : ℕ) (i : PodTemplateInputs) (path : String) (source : Option VolumeSource)
    → Paired i
    → Paired (add_file_mount n i path source)
add_file_mount-Paired n i path none p = p
add_file_mount-Paired n i path (some source) p = add_volume-Paired i _ _ refl p

append_file_mount_inputs-Paired :
    (mounts : List FileMountSpec) (n : ℕ) (i : PodTemplateInputs)
    → Paired i
    → Paired (append_file_mount_inputs n i mounts)
unfolding append_file_mount_inputs
append_file_mount_inputs-Paired [] n i p = p
append_file_mount_inputs-Paired (m ∷ ms) n i p =
    append_file_mount_inputs-Paired ms (suc n)
      (add_file_mount n i m.mount_path (build_file_mount_volume_source m))
      (add_file_mount-Paired n i m.mount_path (build_file_mount_volume_source m) p)

build_pod_template_inputs-Paired :
    (a : HermesAgent) (plan : ConfigPlan) → Paired (build_pod_template_inputs a plan)
unfolding build_pod_template_inputs
build_pod_template_inputs-Paired a plan = append_file_mount_inputs-Paired a.spec.file_mounts 0 _ (
    append_secret_reference_inputs-Paired a.spec.secret_refs 0 _
      (append_config_file_inputs-Paired plan.files _ refl))

hermes_data_volume-name : (a : HermesAgent) → (hermes_data_volume a).name ≡ "hermes-data"
unfolding hermes_data_volume
hermes_data_volume-name a = elim (Bool-cases (persistence_enabled a)) [
  | inl kept ↦ rw (kept)
  | inr empty ↦ rw (empty)
]

-- The pod template of an agent has one container. Its mounts name the pod's volumes, all of them, each
-- as often as it is declared and in the same order.
pub build_stateful_set-mounts :
    (a : HermesAgent) (plan : ConfigPlan)
    → let template = (build_stateful_set a (build_pod_template_inputs a plan)).template_spec in
      (c : Container) × (template.containers ≡ c ∷ [])
      × (mounted_names c.volume_mounts ≡ volume_names template.volumes)
unfolding build_stateful_set hermes_container hermes_tmp_volume
build_stateful_set-mounts a plan =
    let i = build_pod_template_inputs a plan in
    (
      hermes_container a i,
      refl,
      rw (
        mounted_names-append i.volume_mounts _,
        volume_names-append i.volumes _,
        build_pod_template_inputs-Paired a plan,
        hermes_data_volume-name a,
      ),
    )
