-- ===== src/Controller/Reconcile.antt =====
-- `Reconcile`.
pub mod Gates
pub mod Steps
pub mod Frame
pub mod Settled
use k8s_operator_hermes_agen.Common.{String, ◌<>◌, Result, ok, err, is_empty, if◌then◌else◌}
use k8s_operator_hermes_agen.Api.{HermesAgent, AgentStatus}
use k8s_operator_hermes_agen.Snapshots.{ReferencedInputs}
use k8s_operator_hermes_agen.Config.{
  ConfigPlan, build_config_plan, build_config_plan_with_references,
}
use k8s_operator_hermes_agen.Pod.{build_pod_template_inputs}
use k8s_operator_hermes_agen.Controller.Exec.{Error, other, error_text, Exec, attempt, ◌>>=◌}
use k8s_operator_hermes_agen.Controller.Client.{Key, Environment}
use k8s_operator_hermes_agen.Controller.Inputs.{
  resolve_referenced_inputs, missing_reference_messages, join_messages,
}
use k8s_operator_hermes_agen.Controller.Status.{
  populate_status_metadata, mark_config_failure, mark_persistence_failure, mark_workload_failure,
}
use k8s_operator_hermes_agen.Controller.View.{read_status_view, apply_status_view}
use k8s_operator_hermes_agen.Controller.Ensure.{
  reconcile_generated_config_maps, reconcile_persistent_volume_claim, reconcile_stateful_set,
  reconcile_service, reconcile_network_policy, reconcile_pod_disruption_budget,
}
use k8s_operator_hermes_agen.Controller.Patch.{
  done_if_missing, patch_status, return_status_failure, return_error_with_status,
}

module _ {S : Type 0} (env : Environment S) where
  open env use {client, conditions, now}

  abbrev NoValue : Type 0
  NoValue = Unit {0}

  -- The four closures that failures pass to `patchStatus`.
  abbrev pub config_failed : HermesAgent → String → String → String → AgentStatus → AgentStatus
  config_failed a reason config_message ready_message status =
      mark_config_failure conditions now reason config_message ready_message
        (populate_status_metadata a "" status)

  abbrev config_maps_failed : HermesAgent → ConfigPlan → Error → AgentStatus → AgentStatus
  config_maps_failed a plan e status =
      mark_config_failure conditions now "ConfigMapReconcileFailed" (error_text e)
        "Inline configuration resources could not be reconciled"
        (populate_status_metadata a plan.hash status)

  abbrev persistence_failed : HermesAgent → ConfigPlan → Error → AgentStatus → AgentStatus
  persistence_failed a plan e status =
      mark_persistence_failure conditions now e (populate_status_metadata a plan.hash status)

  abbrev workload_failed :
      HermesAgent → ConfigPlan → String → String → Error → AgentStatus → AgentStatus
  workload_failed a plan reason ready_message e status =
      mark_workload_failure conditions now reason (error_text e) ready_message
        (populate_status_metadata a plan.hash status)

  unfoldable pub reconcile_status : HermesAgent → String → Exec S NoValue
  reconcile_status a config_hash = read_status_view client.claims client.stateful_sets a >>= λ v.
      patch_status env a (apply_status_view conditions now a config_hash v)

  -- `if err := step; err != nil { return r.returnErrorWithStatus(…) }`
  abbrev pub step :
      HermesAgent
      → String
      → Exec S NoValue
      → (Error → AgentStatus → AgentStatus)
      → Exec S NoValue
      → Exec S NoValue
  step a operation action failed rest =
      attempt action (λ e. return_error_with_status env a operation e (failed e)) (λ _. rest)

  -- The steps behind a valid plan, in the order of the code.
  unfoldable pub apply_plan : HermesAgent → ReferencedInputs → ConfigPlan → Exec S NoValue
  apply_plan a inputs plan =
      step a "reconcile configmap" (reconcile_generated_config_maps env a plan)
        (config_maps_failed a plan)
        (step a "reconcile pvc" (reconcile_persistent_volume_claim env a)
          (persistence_failed a plan)
          (step a "reconcile statefulset"
            (reconcile_stateful_set env a (build_pod_template_inputs a plan))
            (workload_failed a plan "StatefulSetReconcileFailed"
              "Hermes workload could not be reconciled")
            (step a "reconcile service" (reconcile_service env a)
              (workload_failed a plan "ServiceReconcileFailed"
                "Hermes Service could not be reconciled")
              (step a "reconcile networkpolicy" (reconcile_network_policy env a inputs)
                (workload_failed a plan "NetworkPolicyReconcileFailed"
                  "Hermes NetworkPolicy could not be reconciled")
                (step a "reconcile poddisruptionbudget" (reconcile_pod_disruption_budget env a)
                  (workload_failed a plan "PodDisruptionBudgetReconcileFailed"
                    "Hermes PodDisruptionBudget could not be reconciled")
                  (reconcile_status a plan.hash))))))

  unfoldable pub invalid_config : HermesAgent → String → Exec S NoValue
  invalid_config a e =
      return_status_failure env a "build config plan" (other e)
        (config_failed a "InvalidConfig" e "HermesAgent configuration is invalid")

  unfoldable pub inputs_unread : HermesAgent → Error → Exec S NoValue
  inputs_unread a e = return_error_with_status env a "read referenced inputs" e (
      config_failed a "ReferencedInputsReadFailed"
        ("Could not read referenced ConfigMaps or Secrets: " <> error_text e)
        "Referenced configuration inputs could not be read")

  unfoldable pub inputs_missing : HermesAgent → String → Exec S NoValue
  inputs_missing a message =
      return_status_failure env a "missing referenced inputs" (other message) (
        config_failed a "MissingReferencedInput" message
          "Referenced configuration inputs are missing")

  abbrev pub with_plan : HermesAgent → ReferencedInputs → Result String ConfigPlan → Exec S NoValue
  with_plan a inputs (err e) = invalid_config a e
  with_plan a inputs (ok plan) = apply_plan a inputs plan

  -- What follows the reading of the referenced inputs.
  unfoldable pub reconcile_inputs : HermesAgent → ReferencedInputs → Exec S NoValue
  reconcile_inputs a inputs =
      let missing = missing_reference_messages inputs in
      if is_empty missing
      then with_plan a inputs (build_config_plan_with_references env.digest a inputs)
      else inputs_missing a (join_messages missing)

  abbrev pub with_valid_config : HermesAgent → Result String ConfigPlan → Exec S NoValue
  with_valid_config a (err e) = invalid_config a e
  with_valid_config a (ok plan) =
      attempt (resolve_referenced_inputs client.config_maps client.secrets a) (inputs_unread a)
        (reconcile_inputs a)

  -- What follows the Get of the agent.
  unfoldable pub reconcile_agent : HermesAgent → Exec S NoValue
  reconcile_agent a = with_valid_config a (build_config_plan env.digest a)

  unfoldable pub reconcile : Key → Exec S NoValue
  reconcile req = attempt (client.get_agent req) done_if_missing (λ o. reconcile_agent o.agent)
