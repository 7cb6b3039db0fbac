-- ===== src/Controller/Reconcile/Frame.antt =====
-- What a reconciliation may touch.
use k8s_operator_hermes_agen.Common.{◌≡◌, refl, String, ◌==◌, Result, ok, err, All, is_empty}
use k8s_operator_hermes_agen.Api.{HermesAgent, AgentStatus}
use k8s_operator_hermes_agen.Settings.{persistence_enabled}
use k8s_operator_hermes_agen.Snapshots.{ReferencedInputs}
use k8s_operator_hermes_agen.Config.{
  ConfigPlan, build_config_plan, build_config_plan_with_references,
}
use k8s_operator_hermes_agen.Config.Plans.{OwnFile, build_config_plan-Own}
use k8s_operator_hermes_agen.Pod.{build_pod_template_inputs}
use k8s_operator_hermes_agen.Controller.Exec.{Error, not_found, other, drifted, Exec}
use k8s_operator_hermes_agen.Controller.Exec.Keeps.{Keeps, attempt-Keeps, bind-Keeps, choose-Keeps}
use k8s_operator_hermes_agen.Controller.Client.{Claim, agent_key, IsOwnership, Environment}
use k8s_operator_hermes_agen.Controller.Inputs.{
  missing_reference_messages, resolve_referenced_inputs,
}
use k8s_operator_hermes_agen.Controller.Inputs.Keeps.{resolve_referenced_inputs-Keeps}
use k8s_operator_hermes_agen.Controller.View.{
  StatusView, PersistenceView, claim_key, view_if_missing, read_workload_view, read_status_view,
}
use k8s_operator_hermes_agen.Controller.Patch.{return_status_failure}
use k8s_operator_hermes_agen.Controller.Patch.Keeps.{
  StatusKeeps, patch_status-Keeps, patch_failure_status-Keeps, return_error_with_status-Keeps,
}
use k8s_operator_hermes_agen.Controller.Ensure.{
  reconcile_generated_config_maps, reconcile_persistent_volume_claim, reconcile_stateful_set,
  reconcile_service, reconcile_network_policy, reconcile_pod_disruption_budget,
}
use k8s_operator_hermes_agen.Controller.Ensure.Frame.{
  OwnCallsKeep, reconcile_stateful_set-Keeps, reconcile_service-Keeps,
  reconcile_network_policy-Keeps, reconcile_pod_disruption_budget-Keeps,
}
use k8s_operator_hermes_agen.Controller.Ensure.Frame.Plans.{
  reconcile_generated_config_maps-Keeps, reconcile_persistent_volume_claim-Keeps,
}
use k8s_operator_hermes_agen.Controller.Reconcile.{
  step, reconcile_status, apply_plan, invalid_config, inputs_unread, inputs_missing, with_plan,
  reconcile_inputs, with_valid_config, reconcile_agent,
}

module _ {S : Type 0} (env : Environment S) (law : IsOwnership env.ownership) (P : S → Type 0)
    (status : StatusKeeps env P) (a : HermesAgent) (keeps : OwnCallsKeep env P a) where
  open env use {client}

  view_if_missing-Keeps : (v : StatusView) (e : Error) → Keeps P (view_if_missing v e)
  view_if_missing-Keeps v (not_found e) s p = p
  view_if_missing-Keeps v (other e) s p = p
  view_if_missing-Keeps v (drifted d) s p = p

  read_workload_view-Keeps :
      (v : PersistenceView) → Keeps P (read_workload_view client.stateful_sets a v)
  unfolding read_workload_view
  read_workload_view-Keeps v =
      attempt-Keeps P (client.stateful_sets.get (agent_key a)) _ _
        (keeps.stateful_set_reads (agent_key a)) (view_if_missing-Keeps _) (λ o s p. p)

  read_status_view-Keeps : Keeps P (read_status_view client.claims client.stateful_sets a)
  unfolding read_status_view
  read_status_view-Keeps =
      choose-Keeps P (persistence_enabled a) _ _
        (attempt-Keeps P (client.claims.get (claim_key a)) _ _ (keeps.claim_reads (claim_key a))
          (view_if_missing-Keeps _)
          (λ (c : Claim).
            choose-Keeps P (c.status.phase == "Bound") _ _ (read_workload_view-Keeps _) (λ s p. p)))
        (read_workload_view-Keeps _)

  reconcile_status-Keeps : (config_hash : String) → Keeps P (reconcile_status env a config_hash)
  unfolding reconcile_status
  reconcile_status-Keeps config_hash =
      bind-Keeps P (read_status_view client.claims client.stateful_sets a) _ read_status_view-Keeps
        (λ v. patch_status-Keeps env P status a _)

  step-Keeps :
      (operation : String) (action : Exec S (Unit {0})) (failed : Error → AgentStatus → AgentStatus)
      (rest : Exec S (Unit {0}))
      → Keeps P action
      → Keeps P rest
      → Keeps P (step env a operation action failed rest)
  step-Keeps operation action failed rest h k =
      attempt-Keeps P action _ _ h
        (λ e. return_error_with_status-Keeps env P status a operation e (failed e)) (λ u. k)

  apply_plan-Keeps :
      (inputs : ReferencedInputs) (plan : ConfigPlan)
      → All (OwnFile a) plan.files
      → Keeps P (apply_plan env a inputs plan)
  unfolding apply_plan
  apply_plan-Keeps inputs plan own =
      step-Keeps _ (reconcile_generated_config_maps env a plan) _ _
        (reconcile_generated_config_maps-Keeps env law P a keeps plan own)
        (step-Keeps _ (reconcile_persistent_volume_claim env a) _ _
          (reconcile_persistent_volume_claim-Keeps env law P a keeps)
          (step-Keeps _ (reconcile_stateful_set env a (build_pod_template_inputs a plan)) _ _
            (reconcile_stateful_set-Keeps env law P a keeps _)
            (step-Keeps _ (reconcile_service env a) _ _ (reconcile_service-Keeps env law P a keeps)
              (step-Keeps _ (reconcile_network_policy env a inputs) _ _
                (reconcile_network_policy-Keeps env law P a keeps inputs)
                (step-Keeps _ (reconcile_pod_disruption_budget env a) _
                  (reconcile_status env a plan.hash)
                  (reconcile_pod_disruption_budget-Keeps env law P a keeps)
                  (reconcile_status-Keeps plan.hash))))))

  reported-Keeps :
      (operation : String) (cause : Error) (mutate : AgentStatus → AgentStatus)
      → Keeps P (return_status_failure env a operation cause mutate)
  unfolding return_status_failure
  reported-Keeps operation cause mutate =
      patch_failure_status-Keeps env P status a operation cause mutate

  with_plan-Keeps :
      (inputs : ReferencedInputs) (plan : Result String ConfigPlan)
      → build_config_plan_with_references env.digest a inputs ≡ plan
      → Keeps P (with_plan env a inputs plan)
  unfolding invalid_config
  with_plan-Keeps inputs (err e) made s p = reported-Keeps _ _ _ s p
  with_plan-Keeps inputs (ok plan) made s p =
      apply_plan-Keeps inputs plan (build_config_plan-Own env.digest a inputs plan made) s p

  reconcile_inputs-Keeps : (inputs : ReferencedInputs) → Keeps P (reconcile_inputs env a inputs)
  unfolding reconcile_inputs inputs_missing
  reconcile_inputs-Keeps inputs =
      choose-Keeps P (is_empty (missing_reference_messages inputs)) _ _
        (with_plan-Keeps inputs (build_config_plan_with_references env.digest a inputs) refl)
        (reported-Keeps _ _ _)

  valid_config-Keeps : (plan : Result String ConfigPlan) → Keeps P (with_valid_config env a plan)
  unfolding invalid_config inputs_unread
  valid_config-Keeps (err e) s p = reported-Keeps _ _ _ s p
  valid_config-Keeps (ok plan) s p =
      attempt-Keeps P (resolve_referenced_inputs client.config_maps client.secrets a) _ _
        (resolve_referenced_inputs-Keeps P client.config_maps client.secrets keeps.config_map_reads
          keeps.secret_reads a)
        (λ e. return_error_with_status-Keeps env P status a _ e _) reconcile_inputs-Keeps s p

  -- A reconciliation of an agent keeps, whatever its result, any property of the state that these calls
  -- keep: Gets, writes of the status and events, writes of objects of the agent's own names by
  -- closures that make the agent their controller, and deletions of objects of those names that were
  -- read and that the agent controls. It is assumed that SetControllerReference, where it succeeds,
  -- makes the agent the controller.
  pub reconcile_agent-Keeps : Keeps P (reconcile_agent env a)
  unfolding reconcile_agent
  reconcile_agent-Keeps = valid_config-Keeps (build_config_plan env.digest a)
