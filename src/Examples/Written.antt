-- ===== src/Examples/Written.antt =====
-- Objects that are written, statuses that are set, and events.
use k8s_operator_hermes_agen.Settings.{service_type}
use k8s_operator_hermes_agen.Controller.Drift.{equal_persistent_volume_access_modes}
use k8s_operator_hermes_agen.Common.{◌↔◌, pos, ◌≡◌, refl, true, false, some, [], ◌∷◌, ok, err}
use k8s_operator_hermes_agen.Api.{
  AgentStatus, PersistentVolumeClaimSpec, ServicePort, ServiceSpec, condition_true, condition_false,
  condition_unknown,
}
use k8s_operator_hermes_agen.Objects.{Built}
use k8s_operator_hermes_agen.Settings.{service_port, service_target_port}
use k8s_operator_hermes_agen.Controller.Exec.{DriftError, drifted, other}
use k8s_operator_hermes_agen.Controller.Client.{ClaimStatus, Service, Claim}
use k8s_operator_hermes_agen.Controller.Drift.{persistent_volume_claim_immutable_field_drift}
use k8s_operator_hermes_agen.Controller.Status.{
  mark_config_failure, mark_persistence_failure, mark_workload_failure, set_condition,
  persistence_ready,
}
use k8s_operator_hermes_agen.Controller.Status.Coherent.{
  set_condition_self, HasConditions, mark_config_failure-HasConditions,
  mark_persistence_failure-HasConditions, mark_workload_failure-HasConditions,
}
use k8s_operator_hermes_agen.Controller.Events.{status_events_for_transition}
use k8s_operator_hermes_agen.Controller.Events.Transitions.{status_events-unchanged}
use k8s_operator_hermes_agen.Controller.Ensure.{
  mutate_claim, mutate_service, resized_claim, updated_service,
}
use k8s_operator_hermes_agen.Controller.Ensure.Claims.{
  SameFields, mutate_claim-existing, mutate_claim-refused,
}
use k8s_operator_hermes_agen.Controller.Ensure.Settled.{mutate_claim-again}
use k8s_operator_hermes_agen.Controller.Ensure.Converge.{
  Agree, mutate_service-again, mutate_service-node_port,
}
use k8s_operator_hermes_agen.Examples.Agents.{plain, no_status}
use k8s_operator_hermes_agen.Examples.Cluster.{
  ownership, ownership-IsOwnership, conditions, conditions-IsConditionApi,
}

abbrev desired : Built PersistentVolumeClaimSpec
desired = record {
  name = "demo-data";
  namespace = "team";
  labels = [];
  annotations = [];
  spec = record {
    access_modes = "ReadWriteOnce" ∷ [];
    requests = "5Gi";
    storage_class_name = some "fast";
  };
}

abbrev small_claim : Claim
small_claim = record {
  name = "demo-data";
  namespace = "team";
  generation = pos 1;
  labels = [];
  annotations = [];
  owners = record { kind = "HermesAgent"; name = "demo"; uid = "u1"; controller = true } ∷ [];
  spec = record {
    access_modes = "ReadWriteOnce" ∷ [];
    requests = "1Gi";
    storage_class_name = some "fast";
  };
  status = record { phase = "Bound" };
}

mutate_claim-existing_example :
    (persistent_volume_claim_immutable_field_drift plain small_claim.spec desired.spec ≡ [])
    × ((resized_claim ownership plain desired small_claim).spec
        ≡ record (small_claim.spec) { requests = "5Gi" })
    × ((resized_claim ownership plain desired small_claim).status ≡ small_claim.status)
    × (ownership.is_controlled_by (resized_claim ownership plain desired small_claim).owners plain
        ≡ true)
unfolding mutate_claim persistent_volume_claim_immutable_field_drift
    equal_persistent_volume_access_modes
mutate_claim-existing_example =
    mutate_claim-existing ownership ownership-IsOwnership plain desired small_claim
      (resized_claim ownership plain desired small_claim) refl

mutate_claim-again_example :
    (c : Claim) × (mutate_claim ownership plain true desired
        (resized_claim ownership plain desired small_claim)
      ≡ ok c)
    × Agree PersistentVolumeClaimSpec ClaimStatus c
        (resized_claim ownership plain desired small_claim)
unfolding mutate_claim persistent_volume_claim_immutable_field_drift
    equal_persistent_volume_access_modes
mutate_claim-again_example =
    mutate_claim-again ownership ownership-IsOwnership plain true desired small_claim
      (resized_claim ownership plain desired small_claim) refl

abbrev slow_claim : Claim
slow_claim = record small_claim {
  spec = record (small_claim.spec) { storage_class_name = some "slow" };
}

mutate_claim-refused_example :
    ((d : DriftError) × (mutate_claim ownership plain true desired slow_claim ≡ err (drifted d))
      × (d.name ≡ "demo-data"))
    ↔ ¬ SameFields plain slow_claim.spec desired.spec
mutate_claim-refused_example =
    mutate_claim-refused ownership plain desired slow_claim slow_claim.owners refl

abbrev old_port : ServicePort
old_port = record { port = pos 80; target_port = pos 80; protocol = "TCP"; node_port = pos 30080 }

abbrev old_service : Service
old_service = record {
  name = "demo";
  namespace = "team";
  generation = pos 1;
  labels = ("team", "blue") ∷ [];
  annotations = [];
  owners = record { kind = "HermesAgent"; name = "demo"; uid = "u1"; controller = true } ∷ [];
  spec = record { type = "NodePort"; selector = []; ports = old_port ∷ [] };
  status = tt;
}

abbrev new_service : Service
new_service = updated_service ownership plain old_service

mutate_service-again_example :
    (s'' : Service) × (mutate_service ownership plain new_service ≡ ok s'')
    × Agree ServiceSpec (Unit {0}) s'' new_service
unfolding mutate_service
mutate_service-again_example =
    mutate_service-again ownership ownership-IsOwnership plain old_service new_service refl

mutate_service-node_port_example :
    (new : ServicePort) × (new_service.spec.ports ≡ new ∷ [])
    × (new.node_port ≡ pos 30080)
    × (new.port ≡ service_port plain)
    × (new.target_port ≡ service_target_port plain)
unfolding mutate_service service_type
mutate_service-node_port_example =
    mutate_service-node_port ownership ownership-IsOwnership plain old_service new_service old_port
      refl refl refl

mark_config_failure-HasConditions_example :
    HasConditions conditions conditions-IsConditionApi "now"
      (mark_config_failure conditions "now" "InvalidConfig" "bad" "invalid" no_status)
      (condition_false, "InvalidConfig")
      (condition_unknown, "Unknown")
      (condition_unknown, "Unknown")
      (condition_false, "InvalidConfig")
    × ((mark_config_failure conditions "now" "InvalidConfig" "bad" "invalid" no_status).phase
        ≡ "ConfigError")
    × ((mark_config_failure conditions "now" "InvalidConfig" "bad" "invalid"
          no_status).ready_replicas
        ≡ pos 0)
    × ((mark_config_failure conditions "now" "InvalidConfig" "bad" "invalid"
          no_status).persistence_bound
        ≡ false)
mark_config_failure-HasConditions_example =
    mark_config_failure-HasConditions conditions conditions-IsConditionApi "now" "InvalidConfig"
      "bad" "invalid" no_status

status_events-unchanged_example :
    status_events_for_transition conditions
      (set_condition conditions "then" persistence_ready condition_true "Bound" "ok" no_status)
      (record (set_condition conditions "then" persistence_ready condition_true "Bound" "ok"
        no_status) { ready_replicas = pos 3 })
    ≡ []
status_events-unchanged_example =
    status_events-unchanged conditions
      (set_condition conditions "then" persistence_ready condition_true "Bound" "ok" no_status)
      (record (set_condition conditions "then" persistence_ready condition_true "Bound" "ok"
        no_status) { ready_replicas = pos 3 })
      refl refl refl

mark_persistence_failure-HasConditions_example :
    HasConditions conditions conditions-IsConditionApi "now"
      (mark_persistence_failure conditions "now" (other "no disk") no_status)
      (condition_true, "ConfigReconciled")
      (condition_false, "PersistentVolumeClaimReconcileFailed")
      (condition_false, "WaitingForPersistence")
      (condition_false, "PersistentVolumeClaimReconcileFailed")
    × ((mark_persistence_failure conditions "now" (other "no disk") no_status).phase
        ≡ "StorageError")
    × ((mark_persistence_failure conditions "now" (other "no disk") no_status).ready_replicas
        ≡ pos 0)
    × ((mark_persistence_failure conditions "now" (other "no disk") no_status).persistence_bound
        ≡ false)
    × ((mark_persistence_failure conditions "now"
          (other "no disk")
          no_status).persistent_volume_claim_drifted_fields
        ≡ [])
mark_persistence_failure-HasConditions_example =
    mark_persistence_failure-HasConditions conditions conditions-IsConditionApi "now"
      (other "no disk") no_status

abbrev bound_status : AgentStatus
bound_status =
    set_condition conditions "then" persistence_ready condition_true "PersistentVolumeClaimBound"
      "bound" no_status

abbrev failed_status : AgentStatus
failed_status =
    mark_workload_failure conditions "now" "StatefulSetReconcileFailed" "denied" "failed"
      bound_status

mark_workload_failure-HasConditions_example :
    HasConditions conditions conditions-IsConditionApi "now" failed_status
      (condition_true, "ConfigReconciled")
      (condition_true, "PersistentVolumeClaimBound")
      (condition_false, "StatefulSetReconcileFailed")
      (condition_false, "StatefulSetReconcileFailed")
    × (failed_status.phase ≡ "WorkloadError")
    × (failed_status.ready_replicas ≡ pos 0)
    × (failed_status.persistence_bound ≡ bound_status.persistence_bound)
mark_workload_failure-HasConditions_example =
    mark_workload_failure-HasConditions conditions conditions-IsConditionApi "now"
      "StatefulSetReconcileFailed" "denied" "failed" "PersistentVolumeClaimBound" condition_true
      bound_status
      (set_condition_self conditions conditions-IsConditionApi "then" persistence_ready
        condition_true "PersistentVolumeClaimBound" "bound" no_status)
