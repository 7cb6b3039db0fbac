-- ===== src/Api/Agent.antt =====
-- api/v1/hermesagent_types.go: the spec of a HermesAgent (api/v1alpha1 has the same fields).
use k8s_operator_hermes_agen.Common.{ℤ, String, Bool, Option, List, StringMap}
use k8s_operator_hermes_agen.Api.Core.{
  KeySelector, LocalObjectReference, EnvVar, EnvFromSource, LabelSelector,
}

-- HermesAgentImageSpec
pub record ImageSpec : Type 0 where
  pub repository : String
  pub tag : String
  pub pull_policy : String

-- HermesAgentConfigSource
pub record ConfigSource : Type 0 where
  pub raw : String
  pub config_map_ref : Option KeySelector
  pub secret_ref : Option KeySelector

-- HermesAgentFileProjectionItem
pub record FileProjectionItem : Type 0 where
  pub key : String
  pub path : String
  pub mode : Option ℤ

-- HermesAgentFileMountSpec
pub record FileMountSpec : Type 0 where
  pub mount_path : String
  pub config_map_ref : Option LocalObjectReference
  pub secret_ref : Option LocalObjectReference
  pub items : List FileProjectionItem
  pub default_mode : Option ℤ

-- HermesAgentPersistenceSpec
pub record PersistenceSpec : Type 0 where
  pub enabled : Option Bool
  pub size : String
  pub storage_class_name : Option String
  pub access_modes : List String

-- HermesAgentProbeSpec
pub record ProbeSpec : Type 0 where
  pub enabled : Option Bool
  pub initial_delay_seconds : ℤ
  pub period_seconds : ℤ
  pub timeout_seconds : ℤ
  pub failure_threshold : ℤ

-- HermesAgentProbesSpec
pub record ProbesSpec : Type 0 where
  pub startup : ProbeSpec
  pub readiness : ProbeSpec
  pub liveness : ProbeSpec
  pub require_connected_platform : Bool

-- HermesAgentRollingUpdateStrategySpec
pub record RollingUpdateSpec : Type 0 where
  pub partition : Option ℤ

-- HermesAgentUpdateStrategySpec
pub record UpdateStrategySpec : Type 0 where
  pub type : String
  pub rolling_update : Option RollingUpdateSpec

-- HermesAgentServiceSpec
pub record ServiceConfig : Type 0 where
  pub enabled : Bool
  pub annotations : StringMap
  pub type : String
  pub port : ℤ
  pub target_port : ℤ

-- HermesAgentNetworkPolicyPeer
pub record PolicyPeer : Type 0 where
  pub cidr : String
  pub except : List String
  pub namespace_selector : Option LabelSelector
  pub pod_selector : Option LabelSelector

-- HermesAgentNetworkPolicySpec
pub record NetworkPolicyConfig : Type 0 where
  pub enabled : Option Bool
  pub destinations : List PolicyPeer
  pub additional_tcp_ports : List ℤ
  pub additional_udp_ports : List ℤ

-- HermesAgentSpec. `persistence` is `Storage.Persistence` and `terminal_backend` is
-- `Terminal.Backend`, the one field of their structs. Tolerations, affinity, spread constraints and
-- resources are carried along unread, as their JSON.
pub record AgentSpec : Type 0 where
  pub image : ImageSpec
  pub mode : String
  pub config : ConfigSource
  pub gateway_config : ConfigSource
  pub env : List EnvVar
  pub env_from : List EnvFromSource
  pub secret_refs : List LocalObjectReference
  pub file_mounts : List FileMountSpec
  pub image_pull_secrets : List LocalObjectReference
  pub pod_labels : StringMap
  pub pod_annotations : StringMap
  pub service_account_name : String
  pub automount_service_account_token : Option Bool
  pub node_selector : StringMap
  pub tolerations : List String
  pub affinity : Option String
  pub topology_spread_constraints : List String
  pub termination_grace_period_seconds : Option ℤ
  pub replicas : ℤ
  pub update_strategy : UpdateStrategySpec
  pub persistence : PersistenceSpec
  pub terminal_backend : String
  pub resources : String
  pub probes : ProbesSpec
  pub service : ServiceConfig
  pub network_policy : NetworkPolicyConfig

-- A HermesAgent as the handlers get it: the metadata that they read, and the spec.
pub record HermesAgent : Type 0 where
  pub name : String
  pub namespace : String
  pub uid : String
  pub spec : AgentSpec
