-- ===== src/Examples/Steps.antt =====
-- Runs of the steps behind a valid plan, of the reading of the inputs and of the status.
use k8s_operator_hermes_agen.Snapshots.{new_config_map_projection_snapshot}
use k8s_operator_hermes_agen.Controller.Patch.{patch_status}
use k8s_operator_hermes_agen.Controller.View.{read_status_view}
use k8s_operator_hermes_agen.Controller.Reconcile.{reconcile_status}
use k8s_operator_hermes_agen.Settings.{pod_disruption_budget_enabled}
use k8s_operator_hermes_agen.Controller.Ensure.{reconcile_pod_disruption_budget}
use k8s_operator_hermes_agen.Settings.{network_policy_enabled}
use k8s_operator_hermes_agen.Controller.Ensure.{reconcile_network_policy}
use k8s_operator_hermes_agen.Settings.{service_enabled}
use k8s_operator_hermes_agen.Controller.Ensure.{reconcile_service}
use k8s_operator_hermes_agen.Controller.Ensure.{reconcile_stateful_set}
use k8s_operator_hermes_agen.Objects.{build_persistent_volume_claim}
use k8s_operator_hermes_agen.Settings.{persistence_enabled}
use k8s_operator_hermes_agen.Common.{
  ◌≡◌, refl, [], ◌∷◌, pos, Option, none, some, lookup, Result, ok, err,
}
use k8s_operator_hermes_agen.Api.{HermesAgent}
use k8s_operator_hermes_agen.Config.{ConfigPlan}
use k8s_operator_hermes_agen.Snapshots.{no_inputs, ReferencedInputs}
use k8s_operator_hermes_agen.Controller.Exec.{Error}
use k8s_operator_hermes_agen.Controller.Exec.Keeps.{Keeps}
use k8s_operator_hermes_agen.Controller.Client.{Environment, StatefulSet, ConfigMap}
use k8s_operator_hermes_agen.Controller.Inputs.{
  resolve_referenced_inputs, missing_reference_messages,
}
use k8s_operator_hermes_agen.Controller.Patch.Keeps.{StatusKeeps}
use k8s_operator_hermes_agen.Controller.Ensure.{
  reconcile_persistent_volume_claim, reconcile_generated_config_maps,
}
use k8s_operator_hermes_agen.Controller.Ensure.Cleanup.{cleanup-Keeps}
use k8s_operator_hermes_agen.Controller.Reconcile.{apply_plan, reconcile_agent}
use k8s_operator_hermes_agen.Controller.Reconcile.Gates.{
  reconcile_agent_missing-Keeps, apply_plan_without_claim-Keeps,
}
use k8s_operator_hermes_agen.Controller.Reconcile.Steps.{AllSteps, apply_plan-Succeeds}
use k8s_operator_hermes_agen.Examples.Agents.{plain}
use k8s_operator_hermes_agen.Examples.Cluster.{Cluster, nothing, env, found_or_missing}
use k8s_operator_hermes_agen.Examples.Runs.{SameServices, status_keeps, found_or_missing-Keeps}

abbrev no_files : ConfigPlan
no_files = record { files = []; hash = "hash" }

apply_plan-Succeeds_example : AllSteps env plain no_inputs no_files nothing nothing
unfolding apply_plan reconcile_generated_config_maps lookup reconcile_persistent_volume_claim
    persistence_enabled build_persistent_volume_claim reconcile_stateful_set reconcile_service
    service_enabled reconcile_network_policy network_policy_enabled reconcile_pod_disruption_budget
    pod_disruption_budget_enabled reconcile_status read_status_view patch_status
apply_plan-Succeeds_example = apply_plan-Succeeds env plain no_inputs no_files nothing nothing refl

-- An agent whose only input is the ConfigMap `files`.
abbrev mounting : HermesAgent
mounting = record plain { spec = record (plain.spec) { secret_refs = [] } }

-- The ConfigMap is not there, and the Services stay what they are.
abbrev Missing : Cluster → Type 0
Missing s = (lookup "files" s.config_maps ≡ none) × SameServices s

same_inputs :
    (r : Result Error ReferencedInputs × Cluster) (i inputs : ReferencedInputs) (s s' : Cluster)
    → r ≡ (ok i, s)
    → r ≡ (ok inputs, s')
    → inputs ≡ i
same_inputs r i inputs s s' e f = cc

found-Missing : {Obj : Type 0} → (o : Option Obj) → Keeps Missing (found_or_missing o)
found-Missing none s p = p
found-Missing (some o) s p = p

status-Missing : StatusKeeps env Missing
status-Missing = record {
  get_agent = λ key s p. found-Missing (lookup key.name s.agents) s p;
  patch = λ o after s p. p;
  events = λ record_event a e s set p. absurd (cc);
}

reads-Missing :
    (s : Cluster)
    → Missing s
    → resolve_referenced_inputs env.client.config_maps env.client.secrets mounting s ≡ (
      ok (record no_inputs {
        file_mount_refs =
            new_config_map_projection_snapshot "files"
              (record { key = "a"; path = "sub/a.txt"; mode = some (pos 420) } ∷ [])
              none
            ∷ [];
      }),
      s,
    )
unfolding resolve_referenced_inputs lookup
reads-Missing s (gone, services) = rw (gone) refl

reconcile_agent_missing-Keeps_example : Keeps Missing (reconcile_agent env mounting)
unfolding missing_reference_messages new_config_map_projection_snapshot
reconcile_agent_missing-Keeps_example =
    reconcile_agent_missing-Keeps env Missing status-Missing mounting
      (λ s p. rw (reads-Missing s p) p)
      (λ inputs s s' p e. rw (same_inputs _ _ inputs s s' (reads-Missing s p) e))

-- Where no quantity can be parsed, no claim can be built.
abbrev unparsing : Environment Cluster
unparsing = record env { parse_quantity = λ q. err "bad quantity" }

unparsing_keeps : StatusKeeps unparsing SameServices
unparsing_keeps = record {
  get_agent = status_keeps.get_agent;
  patch = λ o after s p. p;
  events = λ record_event a e s set p. absurd (cc);
}

apply_plan_without_claim-Keeps_example :
    Keeps SameServices (apply_plan unparsing plain no_inputs no_files)
unfolding reconcile_persistent_volume_claim reconcile_generated_config_maps persistence_enabled
    build_persistent_volume_claim
apply_plan_without_claim-Keeps_example =
    apply_plan_without_claim-Keeps unparsing SameServices unparsing_keeps plain no_inputs no_files
      (cleanup-Keeps unparsing plain SameServices []
        (λ s p. found_or_missing-Keeps StatefulSet (lookup "demo" s.stateful_sets) s p)
        (λ id s p. found_or_missing-Keeps ConfigMap (lookup _ s.config_maps) s p)
        (λ id stale m s s' got mine p. p))
      (λ s p. p) (λ s p e. absurd (cc))
