-- ===== src/Controller/Reconcile/Steps.antt =====
-- What a reconciliation without an error has done.
use k8s_operator_hermes_agen.Common.{◌≡◌, ◌≢◌, refl, String, Result, ok, err}
use k8s_operator_hermes_agen.Api.{HermesAgent, AgentStatus}
use k8s_operator_hermes_agen.Snapshots.{ReferencedInputs}
use k8s_operator_hermes_agen.Config.{ConfigPlan}
use k8s_operator_hermes_agen.Pod.{build_pod_template_inputs}
use k8s_operator_hermes_agen.Controller.Exec.{Error, Exec, raise, resume}
use k8s_operator_hermes_agen.Controller.Client.{Environment}
use k8s_operator_hermes_agen.Controller.Patch.{return_error_with_status, patch_failure_status}
use k8s_operator_hermes_agen.Controller.Ensure.{
  reconcile_generated_config_maps, reconcile_persistent_volume_claim, reconcile_stateful_set,
  reconcile_service, reconcile_network_policy, reconcile_pod_disruption_budget,
}
use k8s_operator_hermes_agen.Controller.Reconcile.{apply_plan, reconcile_status}

module _ {S : Type 0} (env : Environment S) where
  abbrev pub Succeeds : Exec S (Unit {0}) → S → S → Type 0
  Succeeds m s s' = m s ≡ (ok tt, s')

  raised :
      (r : Result Error (Unit {0}) × S) (cause : Error) (s' : S)
      → resume raise (λ u. raise cause) r.0 r.1 ≢ (ok tt, s')
  raised (ok u, s) cause s' e = absurd (cc)
  raised (err f, s) cause s' e = absurd (cc)

  return_error-fails :
      (a : HermesAgent) (operation : String) (cause : Error) (failed : AgentStatus → AgentStatus)
      (s s' : S)
      → return_error_with_status env a operation cause failed s ≢ (ok tt, s')
  unfolding return_error_with_status
  return_error-fails a operation cause failed s s' =
      raised (patch_failure_status env a operation cause failed s) cause s'

  after_step :
      (a : HermesAgent) (operation : String) (failed : Error → AgentStatus → AgentStatus)
      (rest : Exec S (Unit {0})) (r : Result Error (Unit {0}) × S) (s' : S)
      → resume (λ e. return_error_with_status env a operation e (failed e)) (λ u. rest) r.0 r.1
        ≡ (ok tt, s')
      → (s1 : S) × (r ≡ (ok tt, s1)) × Succeeds rest s1 s'
  after_step a operation failed rest (ok u, s1) s' e = (s1, refl, e)
  after_step a operation failed rest (err f, s1) s' e =
      absurd (return_error-fails a operation f (failed f) s1 s' e)

  -- Each step succeeded on the state that the one before left, and the status was written last.
  abbrev pub AllSteps : HermesAgent → ReferencedInputs → ConfigPlan → S → S → Type 0
  AllSteps a inputs plan s s' =
      (s1 s2 s3 s4 s5 s6 : S) × Succeeds (reconcile_generated_config_maps env a plan) s s1
      × Succeeds (reconcile_persistent_volume_claim env a) s1 s2
      × Succeeds (reconcile_stateful_set env a (build_pod_template_inputs a plan)) s2 s3
      × Succeeds (reconcile_service env a) s3 s4
      × Succeeds (reconcile_network_policy env a inputs) s4 s5
      × Succeeds (reconcile_pod_disruption_budget env a) s5 s6
      × Succeeds (reconcile_status env a plan.hash) s6 s'

  -- If the steps of a valid plan return no error, then each of them succeeded, in the order
  -- ConfigMaps, claim, StatefulSet, Service, NetworkPolicy, PodDisruptionBudget, each on the state that
  -- the one before left, and the status was written last, with the plan's hash.
  pub apply_plan-Succeeds :
      (a : HermesAgent) (inputs : ReferencedInputs) (plan : ConfigPlan) (s s' : S)
      → Succeeds (apply_plan env a inputs plan) s s'
      → AllSteps a inputs plan s s'
  unfolding apply_plan
  apply_plan-Succeeds a inputs plan s s' e0 =
      let (s1, maps, e1) =
        after_step a _ _ _ (reconcile_generated_config_maps env a plan s) s' e0 in
      let (s2, claim, e2) = after_step a _ _ _ (reconcile_persistent_volume_claim env a s1) s' e1 in
      let (s3, workload, e3) =
        after_step a _ _ _ (reconcile_stateful_set env a (build_pod_template_inputs a plan) s2) s'
          e2 in
      let (s4, service, e4) = after_step a _ _ _ (reconcile_service env a s3) s' e3 in
      let (s5, policy, e5) = after_step a _ _ _ (reconcile_network_policy env a inputs s4) s' e4 in
      let (s6, budget, e6) = after_step a _ _ _ (reconcile_pod_disruption_budget env a s5) s' e5 in
      (s1, s2, s3, s4, s5, s6, maps, claim, workload, service, policy, budget, e6)
