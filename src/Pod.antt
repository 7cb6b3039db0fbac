-- ===== src/Pod.antt =====
-- internal/controller/hermesagent_resources.go: the pod template's inputs and the StatefulSet.
-- A copy of a slice, a map or a pointer is the value itself.
pub mod Volumes
pub mod Selectors
pub mod Confined
pub mod Bounds
use k8s_operator_hermes_agen.Common.{
  ℕ, suc, ℤ, pos, String, ◌==◌, ◌<>◌, true, false, Option, none, some, List, [], ◌∷◌, ◌++◌,
  StringMap, if◌then◌else◌,
}
use k8s_operator_hermes_agen.Common.Show.{decimal}
use k8s_operator_hermes_agen.Api.{
  HermesAgent, EnvVar, EnvFromSource, LocalObjectReference, FileMountSpec, FileProjectionItem,
  KeyToPath, Volume, VolumeSource, config_map, secret, persistent_volume_claim, empty_dir,
  VolumeMount, ContainerPort, Container, PodSecurityContext, SecurityContext, StatefulSetSpec,
}
use k8s_operator_hermes_agen.GoPath.{join}
use k8s_operator_hermes_agen.Settings.{
  desired_replicas, persistence_enabled, persistent_volume_claim_name, service_enabled,
  service_target_port, automount_service_account_token, stateful_set_update_strategy, hermes_image,
  hermes_args, config_volume_name, resource_labels, managed_pod_labels, managed_pod_annotations,
}
use k8s_operator_hermes_agen.Config.{ResolvedConfigFile, ConfigPlan, hermes_home_path}
use k8s_operator_hermes_agen.Probes.{
  hermes_startup_probe, hermes_readiness_probe, hermes_liveness_probe,
}

-- podTemplateInputs
pub record PodTemplateInputs : Type 0 where
  pub annotations : StringMap
  pub env : List EnvVar
  pub env_from : List EnvFromSource
  pub volumes : List Volume
  pub volume_mounts : List VolumeMount

-- `upsertEnvVar`
unfoldable pub upsert_env_var : List EnvVar → EnvVar → List EnvVar
upsert_env_var [] value = value ∷ []
upsert_env_var (e ∷ env) value =
    if e.name == value.name then value ∷ env else e ∷ upsert_env_var env value

-- Appends one volume and its mount.
abbrev pub add_volume : PodTemplateInputs → Volume → VolumeMount → PodTemplateInputs
add_volume inputs v m = record inputs {
  volumes = inputs.volumes ++ (v ∷ []);
  volume_mounts = inputs.volume_mounts ++ (m ∷ []);
}

unfoldable pub config_file_volume_source : ResolvedConfigFile → VolumeSource
config_file_volume_source file =
    let items = record { key = file.source_key; path = file.file_name; mode = none } ∷ [] in
    if file.secret_name == ""
    then config_map file.config_map_name items none
    else secret file.secret_name items none

-- `appendConfigFileInputs`
unfoldable pub append_config_file_inputs :
    PodTemplateInputs → List ResolvedConfigFile → PodTemplateInputs
unfolding config_file_volume_source config_volume_name
append_config_file_inputs inputs [] = inputs
append_config_file_inputs inputs (file ∷ files) =
    append_config_file_inputs
      (add_volume inputs
        (record { name = config_volume_name file.id; source = config_file_volume_source file })
        (record {
          name = config_volume_name file.id;
          mount_path = file.mount_path;
          sub_path = file.file_name;
          read_only = true;
        }))
      files

abbrev pub hermes_secret_base_path : String
hermes_secret_base_path = "/var/run/hermes/secrets"

abbrev secret_ref_volume : ℕ → String
secret_ref_volume i = "secret-ref-" <> decimal i

-- A reference without a name is passed over.
abbrev add_secret_reference : ℕ → PodTemplateInputs → LocalObjectReference → PodTemplateInputs
add_secret_reference i inputs r =
    if r.name == ""
    then inputs
    else add_volume inputs (record { name = secret_ref_volume i; source = secret r.name [] none })
        (record {
          name = secret_ref_volume i;
          mount_path = join hermes_secret_base_path r.name;
          sub_path = "";
          read_only = true;
        })

-- `appendSecretReferenceInputs`, from index i
unfoldable pub append_secret_reference_inputs :
    ℕ → PodTemplateInputs → List LocalObjectReference → PodTemplateInputs
append_secret_reference_inputs i inputs [] = inputs
append_secret_reference_inputs i inputs (r ∷ rs) =
    append_secret_reference_inputs (suc i) (add_secret_reference i inputs r) rs

unfoldable pub file_mount_projection_items : List FileProjectionItem → List KeyToPath
file_mount_projection_items [] = []
file_mount_projection_items (i ∷ is) =
    record { key = i.key; path = i.path; mode = i.mode } ∷ file_mount_projection_items is

abbrev named_secret : Option LocalObjectReference → List KeyToPath → Option ℤ → Option VolumeSource
named_secret none items mode = none
named_secret (some r) items mode = if r.name == "" then none else some (secret r.name items mode)

abbrev named_source :
    Option LocalObjectReference
    → Option LocalObjectReference
    → List KeyToPath
    → Option ℤ
    → Option VolumeSource
named_source none s items mode = named_secret s items mode
named_source (some c) s items mode =
    if c.name == "" then named_secret s items mode else some (config_map c.name items mode)

-- `buildFileMountVolumeSource`
unfoldable pub build_file_mount_volume_source : FileMountSpec → Option VolumeSource
unfolding file_mount_projection_items
build_file_mount_volume_source m =
    named_source m.config_map_ref m.secret_ref (file_mount_projection_items m.items) m.default_mode

abbrev file_mount_volume : ℕ → String
file_mount_volume i = "file-mount-" <> decimal i

abbrev add_file_mount : ℕ → PodTemplateInputs → String → Option VolumeSource → PodTemplateInputs
add_file_mount i inputs mount_path none = inputs
add_file_mount i inputs mount_path (some source) =
    add_volume inputs (record { name = file_mount_volume i; source = source })
      (record {
        name = file_mount_volume i;
        mount_path = mount_path;
        sub_path = "";
        read_only = true;
      })

-- `appendFileMountInputs`, from index i
unfoldable pub append_file_mount_inputs :
    ℕ → PodTemplateInputs → List FileMountSpec → PodTemplateInputs
unfolding build_file_mount_volume_source
append_file_mount_inputs i inputs [] = inputs
append_file_mount_inputs i inputs (m ∷ ms) =
    append_file_mount_inputs (suc i)
      (add_file_mount i inputs m.mount_path (build_file_mount_volume_source m)) ms

abbrev pub home_variable : EnvVar
home_variable = record { name = "HERMES_HOME"; value = hermes_home_path; value_from = none }

-- `buildPodTemplateInputs`
unfoldable pub build_pod_template_inputs : HermesAgent → ConfigPlan → PodTemplateInputs
unfolding upsert_env_var append_config_file_inputs append_secret_reference_inputs
    append_file_mount_inputs
build_pod_template_inputs a plan =
    let start : PodTemplateInputs = record {
      annotations = ("hermes.nous.ai/config-hash", plan.hash) ∷ [];
      env = upsert_env_var a.spec.env home_variable;
      env_from = a.spec.env_from;
      volumes = [];
      volume_mounts = [];
    } in
    append_file_mount_inputs 0
      (append_secret_reference_inputs 0 (append_config_file_inputs start plan.files)
        a.spec.secret_refs)
      a.spec.file_mounts

unfoldable pub hermes_data_volume : HermesAgent → Volume
unfolding persistence_enabled persistent_volume_claim_name
hermes_data_volume a =
    if persistence_enabled a
    then record {
      name = "hermes-data";
      source = persistent_volume_claim (persistent_volume_claim_name a.name);
    }
    else record { name = "hermes-data"; source = empty_dir }

unfoldable pub hermes_tmp_volume : Volume
hermes_tmp_volume = record { name = "tmp"; source = empty_dir }

abbrev pub hermes_runtime_uid : ℤ
hermes_runtime_uid = pos 10001

unfoldable pub hermes_pod_security_context : PodSecurityContext
hermes_pod_security_context = record {
  run_as_non_root = true;
  run_as_user = hermes_runtime_uid;
  run_as_group = hermes_runtime_uid;
  fs_group = hermes_runtime_uid;
  seccomp_profile = "RuntimeDefault";
}

unfoldable pub hermes_container_security_context : SecurityContext
hermes_container_security_context = record {
  allow_privilege_escalation = false;
  read_only_root_filesystem = true;
  capabilities_drop = "ALL" ∷ [];
}

unfoldable pub container_ports : HermesAgent → List ContainerPort
unfolding service_enabled service_target_port
container_ports a =
    if service_enabled a
    then record { name = "service"; container_port = service_target_port a; protocol = "TCP" } ∷ []
    else []

unfoldable pub hermes_container : HermesAgent → PodTemplateInputs → Container
unfolding container_ports hermes_image hermes_args
hermes_container a inputs = record {
  name = "hermes";
  image = hermes_image a.spec.image;
  image_pull_policy = a.spec.image.pull_policy;
  args = hermes_args a;
  env = inputs.env;
  env_from = inputs.env_from;
  ports = container_ports a;
  volume_mounts =
      inputs.volume_mounts
      ++ (record {
        name = "hermes-data";
        mount_path = hermes_home_path;
        sub_path = "";
        read_only = false;
      }
          ∷ record { name = "tmp"; mount_path = "/tmp"; sub_path = ""; read_only = false }
          ∷ []);
  resources = a.spec.resources;
  security_context = hermes_container_security_context;
  startup_probe = hermes_startup_probe a;
  readiness_probe = hermes_readiness_probe a;
  liveness_probe = hermes_liveness_probe a;
}

-- The spec of `buildStatefulSet`.
unfoldable pub build_stateful_set : HermesAgent → PodTemplateInputs → StatefulSetSpec
unfolding hermes_container hermes_data_volume hermes_tmp_volume desired_replicas resource_labels
    managed_pod_labels managed_pod_annotations automount_service_account_token
    stateful_set_update_strategy
build_stateful_set a inputs = record {
  replicas = some (desired_replicas a);
  service_name = a.name;
  update_strategy = stateful_set_update_strategy a;
  selector = record { match_labels = resource_labels a; match_expressions = [] };
  template_labels = managed_pod_labels a;
  template_annotations = managed_pod_annotations a inputs.annotations;
  template_spec = record {
    security_context = hermes_pod_security_context;
    image_pull_secrets = a.spec.image_pull_secrets;
    service_account_name = a.spec.service_account_name;
    automount_service_account_token = automount_service_account_token a;
    node_selector = a.spec.node_selector;
    tolerations = a.spec.tolerations;
    affinity = a.spec.affinity;
    topology_spread_constraints = a.spec.topology_spread_constraints;
    termination_grace_period_seconds = a.spec.termination_grace_period_seconds;
    containers = hermes_container a inputs ∷ [];
    volumes = inputs.volumes ++ (hermes_data_volume a ∷ hermes_tmp_volume ∷ []);
  };
}
