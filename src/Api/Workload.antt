-- ===== src/Api/Workload.antt =====
-- The Kubernetes objects that the operator builds. A struct of pointers of which the code sets one
-- is a data type; a pointer that the code always sets is its value.
use k8s_operator_hermes_agen.Common.{ℤ, String, Bool, Option, List, StringMap}
use k8s_operator_hermes_agen.Api.Core.{EnvVar, EnvFromSource, LabelSelector, LocalObjectReference}

-- corev1.KeyToPath
pub record KeyToPath : Type 0 where
  pub key : String
  pub path : String
  pub mode : Option ℤ

-- corev1.VolumeSource: a ConfigMap or Secret by its name with the selected items and the default
-- mode, a claim by its name, or an empty directory.
pub data VolumeSource : Type 0 where
  config_map secret : String → List KeyToPath → Option ℤ → VolumeSource
  persistent_volume_claim : String → VolumeSource
  empty_dir : VolumeSource

-- corev1.Volume
pub record Volume : Type 0 where
  pub name : String
  pub source : VolumeSource

-- corev1.VolumeMount
pub record VolumeMount : Type 0 where
  pub name : String
  pub mount_path : String
  pub sub_path : String
  pub read_only : Bool

-- corev1.Probe with an exec handler
pub record Probe : Type 0 where
  pub command : List String
  pub initial_delay_seconds : ℤ
  pub period_seconds : ℤ
  pub timeout_seconds : ℤ
  pub failure_threshold : ℤ

-- corev1.ContainerPort
pub record ContainerPort : Type 0 where
  pub name : String
  pub container_port : ℤ
  pub protocol : String

-- corev1.PodSecurityContext
pub record PodSecurityContext : Type 0 where
  pub run_as_non_root : Bool
  pub run_as_user : ℤ
  pub run_as_group : ℤ
  pub fs_group : ℤ
  pub seccomp_profile : String

-- corev1.SecurityContext
pub record SecurityContext : Type 0 where
  pub allow_privilege_escalation : Bool
  pub read_only_root_filesystem : Bool
  pub capabilities_drop : List String

-- corev1.Container. Resources are carried along unread, as their JSON.
pub record Container : Type 0 where
  pub name : String
  pub image : String
  pub image_pull_policy : String
  pub args : List String
  pub env : List EnvVar
  pub env_from : List EnvFromSource
  pub ports : List ContainerPort
  pub volume_mounts : List VolumeMount
  pub resources : String
  pub security_context : SecurityContext
  pub startup_probe : Option Probe
  pub readiness_probe : Option Probe
  pub liveness_probe : Option Probe

-- corev1.PodSpec. Tolerations, affinity and spread constraints are carried along as their JSON.
pub record PodSpec : Type 0 where
  pub security_context : PodSecurityContext
  pub image_pull_secrets : List LocalObjectReference
  pub service_account_name : String
  pub automount_service_account_token : Option Bool
  pub node_selector : StringMap
  pub tolerations : List String
  pub affinity : Option String
  pub topology_spread_constraints : List String
  pub termination_grace_period_seconds : Option ℤ
  pub containers : List Container
  pub volumes : List Volume

-- appsv1.StatefulSetUpdateStrategy: the type, and under `rolling_update` the partition.
pub record StatefulSetUpdateStrategy : Type 0 where
  pub type : String
  pub rolling_update : Option (Option ℤ)

-- appsv1.StatefulSetSpec with its pod template
pub record StatefulSetSpec : Type 0 where
  pub replicas : Option ℤ
  pub service_name : String
  pub update_strategy : StatefulSetUpdateStrategy
  pub selector : LabelSelector
  pub template_labels : StringMap
  pub template_annotations : StringMap
  pub template_spec : PodSpec

-- corev1.ServicePort. A target port is always a number here.
pub record ServicePort : Type 0 where
  pub port : ℤ
  pub target_port : ℤ
  pub protocol : String
  pub node_port : ℤ

-- The fields of corev1.ServiceSpec that the operator sets.
pub record ServiceSpec : Type 0 where
  pub type : String
  pub selector : StringMap
  pub ports : List ServicePort

-- policyv1.PodDisruptionBudgetSpec
pub record PodDisruptionBudgetSpec : Type 0 where
  pub selector : LabelSelector
  pub max_unavailable : ℤ

-- networkingv1.NetworkPolicyPort
pub record NetworkPolicyPort : Type 0 where
  pub protocol : String
  pub port : ℤ

-- networkingv1.IPBlock
pub record IpBlock : Type 0 where
  pub cidr : String
  pub except : List String

-- networkingv1.NetworkPolicyPeer
pub record NetworkPolicyPeer : Type 0 where
  pub ip_block : Option IpBlock
  pub namespace_selector : Option LabelSelector
  pub pod_selector : Option LabelSelector

-- networkingv1.NetworkPolicyEgressRule
pub record EgressRule : Type 0 where
  pub to : List NetworkPolicyPeer
  pub ports : List NetworkPolicyPort

-- networkingv1.NetworkPolicySpec
pub record NetworkPolicySpec : Type 0 where
  pub pod_selector : LabelSelector
  pub policy_types : List String
  pub egress : List EgressRule

-- The fields of corev1.PersistentVolumeClaimSpec that the operator reads or sets: `requests` is the
-- storage request, and the storage class is an optional name.
pub record PersistentVolumeClaimSpec : Type 0 where
  pub access_modes : List String
  pub requests : String
  pub storage_class_name : Option String
