-- ===== src/Objects.antt =====
-- internal/controller/hermesagent_resources.go: the Service, the PodDisruptionBudget and the
-- PersistentVolumeClaim. `Quantity` values are carried along as their text; `parse_quantity` is the
-- foreign parser, which fails with a message.
use k8s_operator_hermes_agen.Common.{pos, String, ◌<>◌, [], ◌∷◌, StringMap, Result, ok, err}
use k8s_operator_hermes_agen.Api.{
  HermesAgent, ServiceSpec, PodDisruptionBudgetSpec, PersistentVolumeClaimSpec,
}
use k8s_operator_hermes_agen.Settings.{
  resource_labels, service_type, service_port, service_target_port, persistence_size,
  persistence_access_modes, persistent_volume_claim_name,
}

-- A built object: its name and labels, annotations where the code sets them, and its spec.
pub record Built (Spec : Type 0) : Type 0 where
  pub name : String
  pub namespace : String
  pub labels : StringMap
  pub annotations : StringMap
  pub spec : Spec

unfoldable pub build_service : HermesAgent → Built ServiceSpec
unfolding resource_labels service_type service_port service_target_port
build_service a = record {
  name = a.name;
  namespace = a.namespace;
  labels = resource_labels a;
  annotations = a.spec.service.annotations;
  spec = record {
    type = service_type a;
    selector = resource_labels a;
    ports =
        record {
          port = service_port a;
          target_port = service_target_port a;
          protocol = "TCP";
          node_port = pos 0;
        }
        ∷ [];
  };
}

unfoldable pub build_pod_disruption_budget : HermesAgent → Built PodDisruptionBudgetSpec
unfolding resource_labels
build_pod_disruption_budget a = record {
  name = a.name;
  namespace = a.namespace;
  labels = resource_labels a;
  annotations = [];
  spec = record {
    selector = record { match_labels = resource_labels a; match_expressions = [] };
    max_unavailable = pos 1;
  };
}

module _ (parse_quantity : String → Result String String) where
  unfoldable pub build_persistent_volume_claim :
      HermesAgent → Result String (Built PersistentVolumeClaimSpec)
  unfolding resource_labels persistence_size persistence_access_modes persistent_volume_claim_name
  build_persistent_volume_claim a = elim (parse_quantity (persistence_size a)) [
    | err e ↦ err ("parse storage size: " <> e)
    | ok quantity ↦ ok (record {
      name = persistent_volume_claim_name a.name;
      namespace = a.namespace;
      labels = resource_labels a;
      annotations = [];
      spec = record {
        access_modes = persistence_access_modes a;
        requests = quantity;
        storage_class_name = a.spec.persistence.storage_class_name;
      };
    })
  ]
