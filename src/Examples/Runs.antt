-- ===== src/Examples/Runs.antt =====
-- Runs of the reconciler on the cluster in memory.
use k8s_operator_hermes_agen.Common.{pos, ◌≡◌, refl, Option, none, some, [], ◌∷◌, lookup}
use k8s_operator_hermes_agen.Config.{build_config_plan, resolve_config_file}
use k8s_operator_hermes_agen.FileMounts.{validate_file_mount_specs, validate_file_mount_item_path}
use k8s_operator_hermes_agen.GoPath.{is_abs, clean}
use k8s_operator_hermes_agen.Settings.{source_field_name, service_enabled}
use k8s_operator_hermes_agen.Controller.Exec.Keeps.{Keeps}
use k8s_operator_hermes_agen.Controller.Client.{Service, StatefulSet, ConfigMap, AgentObject}
use k8s_operator_hermes_agen.Controller.Patch.Keeps.{StatusKeeps}
use k8s_operator_hermes_agen.Controller.Ensure.{
  reconcile_service, cleanup_stale_generated_config_maps,
}
use k8s_operator_hermes_agen.Controller.Ensure.Owned.{refused, reconcile_service-not_owned}
use k8s_operator_hermes_agen.Controller.Ensure.Cleanup.{cleanup-Keeps}
use k8s_operator_hermes_agen.Controller.Reconcile.{reconcile_agent}
use k8s_operator_hermes_agen.Controller.Reconcile.Gates.{reconcile_agent_invalid-Keeps}
use k8s_operator_hermes_agen.Examples.Agents.{plain, doubled}
use k8s_operator_hermes_agen.Examples.Cluster.{Cluster, nothing, env, found_or_missing}

abbrev foreign_service : Service
foreign_service = record {
  name = "demo";
  namespace = "team";
  generation = pos 1;
  labels = [];
  annotations = [];
  owners = [];
  spec = record { type = "NodePort"; selector = []; ports = [] };
  status = tt;
}

abbrev with_service : Cluster
with_service = record nothing { services = ("demo", foreign_service) ∷ [] }

reconcile_service-not_owned_example :
    reconcile_service env plain with_service
    ≡ (refused env plain (service_enabled plain) "service" "demo", with_service)
unfolding lookup
reconcile_service-not_owned_example =
    reconcile_service-not_owned env plain foreign_service with_service with_service refl refl

-- The Services stay what they are.
abbrev pub SameServices : Cluster → Type 0
SameServices s = s.services ≡ with_service.services

pub found_or_missing-Keeps :
    (Obj : Type 0) (o : Option Obj) → Keeps SameServices (found_or_missing o)
found_or_missing-Keeps Obj none s p = p
found_or_missing-Keeps Obj (some x) s p = p

cleanup-Keeps_example : Keeps SameServices (cleanup_stale_generated_config_maps env plain [])
cleanup-Keeps_example =
    cleanup-Keeps env plain SameServices []
      (λ s p. found_or_missing-Keeps StatefulSet (lookup "demo" s.stateful_sets) s p)
      (λ id s p. found_or_missing-Keeps ConfigMap (lookup _ s.config_maps) s p)
      (λ id stale m s s' got mine p. p)

pub status_keeps : StatusKeeps env SameServices
status_keeps = record {
  get_agent = λ key s p. found_or_missing-Keeps AgentObject (lookup key.name s.agents) s p;
  patch = λ o after s p. p;
  events = λ record_event a e s set p. absurd (cc);
}

reconcile_agent_invalid-Keeps_example : Keeps SameServices (reconcile_agent env doubled)
unfolding build_config_plan validate_file_mount_specs is_abs lookup validate_file_mount_item_path
    clean resolve_config_file source_field_name
reconcile_agent_invalid-Keeps_example =
    reconcile_agent_invalid-Keeps env SameServices status_keeps doubled
      "spec.config must set exactly one of raw, configMapRef, or secretRef" refl
