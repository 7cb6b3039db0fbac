-- ===== src/Examples/Admissions.antt =====
-- Agents before the webhook and the controller.
use k8s_operator_hermes_agen.Settings.{
  pod_disruption_budget_enabled, persistence_enabled, desired_replicas,
}
use k8s_operator_hermes_agen.Webhook.Replicas.{admitted-no_shared_state}
use k8s_operator_hermes_agen.Webhook.Validate.{validate_probe_spec}
use k8s_operator_hermes_agen.Webhook.Network.{validate_network_policy}
use k8s_operator_hermes_agen.Webhook.Validate.{validate_service}
use k8s_operator_hermes_agen.Webhook.Validate.{validate_update_strategy}
use k8s_operator_hermes_agen.Webhook.Validate.{validate_replicas}
use k8s_operator_hermes_agen.GoPath.{clean}
use k8s_operator_hermes_agen.Common.{true, false, some, lookup}
use k8s_operator_hermes_agen.GoPath.{is_abs}
use k8s_operator_hermes_agen.Webhook.References.{validate_local_object_references}
use k8s_operator_hermes_agen.Webhook.References.{validate_env_from}
use k8s_operator_hermes_agen.Webhook.References.{validate_env}
use k8s_operator_hermes_agen.Common.{
  ℤ, pos, ◌≡◌, refl, String, ◌&&◌, Option, none, [], ◌∷◌, Result, ok, is_empty,
}
use k8s_operator_hermes_agen.Api.{HermesAgent, LabelSelector}
use k8s_operator_hermes_agen.Snapshots.{no_inputs}
use k8s_operator_hermes_agen.FileMounts.{validate_file_mount_specs}
use k8s_operator_hermes_agen.Config.{HashPayload, ConfigPlan, build_config_plan_with_references}
use k8s_operator_hermes_agen.Webhook.Fields.{FieldPath, ErrorList, child}
use k8s_operator_hermes_agen.Webhook.Mounts.{validate_file_mounts}
use k8s_operator_hermes_agen.Webhook.References.{validate_config_source}
use k8s_operator_hermes_agen.Webhook.Validate.{validate_hermes_agent}
use k8s_operator_hermes_agen.FileMounts.{no_error}
use k8s_operator_hermes_agen.Webhook.Agreement.Loops.{validate_file_mounts-agree}
use k8s_operator_hermes_agen.Webhook.Admission.{
  is_ok, build_config_plan-agrees, admitted-build_config_plan,
}
use k8s_operator_hermes_agen.Examples.Agents.{plain, doubled}

abbrev digest : HashPayload → String
digest payload = "hash"

abbrev positive_quantity : String → Result String ℤ
positive_quantity q = ok (pos 1)

abbrev any_prefix : String → Option String
any_prefix p = none

abbrev any_selector : LabelSelector → FieldPath → ErrorList
any_selector s path = []

abbrev path : FieldPath
path = child "x" ∷ []

validate_file_mounts-agree_example :
    is_empty (validate_file_mounts path 0 [] plain.spec.file_mounts)
    ≡ no_error (validate_file_mount_specs plain.spec.file_mounts)
validate_file_mounts-agree_example = validate_file_mounts-agree path plain.spec.file_mounts

build_config_plan-agrees_example :
    is_ok (build_config_plan_with_references digest doubled no_inputs) ≡ (
      is_empty (validate_file_mounts path 0 [] doubled.spec.file_mounts)
      && (is_empty (validate_config_source path doubled.spec.config)
          && is_empty (validate_config_source path doubled.spec.gateway_config)))
build_config_plan-agrees_example = build_config_plan-agrees digest path path path doubled no_inputs

admitted-build_config_plan_example :
    (plan : ConfigPlan) × (build_config_plan_with_references digest plain no_inputs ≡ ok plan)
unfolding validate_hermes_agent validate_config_source validate_env validate_env_from
    validate_local_object_references validate_file_mounts is_abs lookup clean validate_replicas
    validate_update_strategy validate_service validate_network_policy validate_probe_spec
admitted-build_config_plan_example =
    admitted-build_config_plan positive_quantity any_prefix any_selector digest plain no_inputs refl

-- Three replicas without persistence.
abbrev spread : HermesAgent
spread = record plain {
  spec = record (plain.spec) {
    replicas = pos 3;
    persistence = record (plain.spec.persistence) { enabled = some false };
  };
}

admitted-no_shared_state_example :
    (pod_disruption_budget_enabled spread ≡ true → persistence_enabled spread ≡ false)
    × (desired_replicas spread ≡ pos 3)
unfolding validate_hermes_agent validate_config_source validate_env validate_env_from
    validate_local_object_references validate_file_mounts is_abs lookup clean validate_replicas
    validate_update_strategy validate_service validate_network_policy validate_probe_spec
admitted-no_shared_state_example =
    admitted-no_shared_state positive_quantity any_prefix any_selector spread refl
