-- ===== src/Settings.antt =====
-- internal/controller/hermesagent_resources.go: the settings that the builders read off a spec,
-- with their defaults, and the names and labels of the managed objects.
pub mod Labels
use k8s_operator_hermes_agen.Common.{
  ℤ, pos, leb_ℤ, ltb_ℤ, eqb_ℤ, String, ◌==◌, ◌<>◌, Bool, true, false, Option, none, some, List, [],
  ◌∷◌, Map, StringMap, copy, if◌then◌else◌, is_empty,
}
use k8s_operator_hermes_agen.Api.{
  HermesAgent, ImageSpec, PersistenceSpec, UpdateStrategySpec, RollingUpdateSpec, ServiceConfig,
  StatefulSetUpdateStrategy,
}

-- `value != nil && *value`
abbrev pub optional_value : Option Bool → Bool
optional_value none = false
optional_value (some b) = b

-- A flag with a default for nil.
abbrev pub flag_or : Bool → Option Bool → Bool
flag_or d none = d
flag_or d (some b) = b

unfoldable pub desired_replicas : HermesAgent → ℤ
desired_replicas a = if eqb_ℤ a.spec.replicas (pos 0) then pos 1 else a.spec.replicas

unfoldable pub persistence_enabled : HermesAgent → Bool
persistence_enabled a = flag_or true a.spec.persistence.enabled

unfoldable pub network_policy_enabled : HermesAgent → Bool
network_policy_enabled a = flag_or false a.spec.network_policy.enabled

unfoldable pub service_enabled : HermesAgent → Bool
service_enabled a = a.spec.service.enabled

unfoldable pub service_type : HermesAgent → String
service_type a = if a.spec.service.type == "" then "ClusterIP" else a.spec.service.type

unfoldable pub service_port : HermesAgent → ℤ
service_port a = if leb_ℤ a.spec.service.port (pos 0) then pos 8080 else a.spec.service.port

unfoldable pub service_target_port : HermesAgent → ℤ
unfolding service_port
service_target_port a =
    if leb_ℤ a.spec.service.target_port (pos 0) then service_port a else a.spec.service.target_port

unfoldable pub persistence_size : HermesAgent → String
persistence_size a = if a.spec.persistence.size == "" then "10Gi" else a.spec.persistence.size

unfoldable pub persistence_access_modes : HermesAgent → List String
persistence_access_modes a =
    if is_empty a.spec.persistence.access_modes
    then "ReadWriteOnce" ∷ []
    else a.spec.persistence.access_modes

unfoldable pub pod_disruption_budget_enabled : HermesAgent → Bool
unfolding desired_replicas
pod_disruption_budget_enabled a = ltb_ℤ (pos 1) (desired_replicas a)

unfoldable pub automount_service_account_token : HermesAgent → Option Bool
automount_service_account_token a = elim a.spec.automount_service_account_token [
  | none ↦ some false
  | some b ↦ some b
]

abbrev pub partition_of : Option RollingUpdateSpec → Option ℤ
partition_of none = none
partition_of (some r) = r.partition

unfoldable pub stateful_set_update_strategy : HermesAgent → StatefulSetUpdateStrategy
stateful_set_update_strategy a =
    let given = a.spec.update_strategy.type in
    let type = if given == "" then "RollingUpdate" else given in
    if type == "RollingUpdate"
    then record {
      type = type;
      rolling_update = some (partition_of a.spec.update_strategy.rolling_update);
    }
    else record { type = type; rolling_update = none }

unfoldable pub hermes_image : ImageSpec → String
hermes_image i = if i.tag == "" then i.repository else i.repository <> ":" <> i.tag

unfoldable pub hermes_args : HermesAgent → List String
hermes_args a = "hermes" ∷ (if a.spec.mode == "" then "gateway" else a.spec.mode) ∷ []

unfoldable pub persistent_volume_claim_name : String → String
persistent_volume_claim_name resource_name = resource_name <> "-data"

unfoldable pub generated_config_map_name : String → String → String
generated_config_map_name resource_name id = resource_name <> "-" <> id

unfoldable pub config_volume_name : String → String
config_volume_name id = "hermes-" <> id

unfoldable pub source_field_name : String → String
source_field_name id = if id == "config" then "config" else "gatewayConfig"

-- `mergeStringMaps`
unfoldable pub merge_string_maps : StringMap → StringMap → StringMap
merge_string_maps base extra = copy (copy [] base) extra

unfoldable pub resource_labels : HermesAgent → StringMap
resource_labels a =
    ("app.kubernetes.io/name", "k8s-operator-hermes-agent")
    ∷ ("app.kubernetes.io/managed-by", "kustomize")
    ∷ ("app.kubernetes.io/instance", a.name)
    ∷ []

unfoldable pub managed_pod_labels : HermesAgent → StringMap
unfolding merge_string_maps resource_labels
managed_pod_labels a = merge_string_maps a.spec.pod_labels (resource_labels a)

unfoldable pub managed_pod_annotations : HermesAgent → StringMap → StringMap
unfolding merge_string_maps
managed_pod_annotations a inputs = merge_string_maps a.spec.pod_annotations inputs
