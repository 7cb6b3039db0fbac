-- ===== src/Controller/Ensure/Owned.antt =====
-- What is done with an object of the agent's name that the agent does not control.
use k8s_operator_hermes_agen.Common.{
  ◌≡◌, String, Bool, true, false, some, Result, ok, err, if◌then◌else◌,
}
use k8s_operator_hermes_agen.Api.{HermesAgent}
use k8s_operator_hermes_agen.Snapshots.{ReferencedInputs}
use k8s_operator_hermes_agen.Settings.{
  service_enabled, network_policy_enabled, pod_disruption_budget_enabled,
}
use k8s_operator_hermes_agen.Controller.Exec.{Error}
use k8s_operator_hermes_agen.Controller.Client.{
  agent_key, Object, Store, Service, NetworkPolicy, DisruptionBudget, Environment,
}
use k8s_operator_hermes_agen.Controller.Ensure.{
  ensure_found, not_owned, reconcile_service, reconcile_network_policy,
  reconcile_pod_disruption_budget,
}

module _ {S : Type 0} (env : Environment S) (a : HermesAgent) where
  open env use {client, ownership}

  -- The refusal of an object that another controls, if the object is wanted.
  abbrev pub refused : Bool → String → String → Result Error (Unit {0})
  refused enabled what name = if enabled then err (not_owned env a what name) else ok tt

  ensure_found-not_owned :
      {Spec Status : Type 0}
      → (store : Store (Object Spec Status) S) → (enabled : Bool) → (what : String)
      → (mutate : Object Spec Status → Result Error (Object Spec Status)) → (o : Object Spec Status)
      → (s : S) → ownership.is_controlled_by o.owners a ≡ false
      → ensure_found env a store enabled what mutate (some o) s ≡ (refused enabled what o.name, s)
  ensure_found-not_owned store false what mutate o s foreign = rw (foreign)
  ensure_found-not_owned store true what mutate o s foreign = rw (foreign)

  -- A Service of the agent's name that the agent does not control is neither written nor deleted: the
  -- state is the one the Get left, and the result is an error exactly if a Service is wanted.
  pub reconcile_service-not_owned :
      (o : Service) (s s' : S)
      → client.services.get (agent_key a) s ≡ (ok o, s')
      → ownership.is_controlled_by o.owners a ≡ false
      → reconcile_service env a s ≡ (refused (service_enabled a) "service" o.name, s')
  unfolding reconcile_service
  reconcile_service-not_owned o s s' found foreign =
      rw (found, ensure_found-not_owned client.services _ _ _ o s' foreign)

  -- A NetworkPolicy of the agent's name that the agent does not control is neither written nor deleted:
  -- the state is the one the Get left, and the result is an error exactly if one is wanted.
  pub reconcile_network_policy-not_owned :
      (inputs : ReferencedInputs) (o : NetworkPolicy) (s s' : S)
      → client.network_policies.get (agent_key a) s ≡ (ok o, s')
      → ownership.is_controlled_by o.owners a ≡ false
      → reconcile_network_policy env a inputs s
        ≡ (refused (network_policy_enabled a) "networkpolicy" o.name, s')
  unfolding reconcile_network_policy
  reconcile_network_policy-not_owned inputs o s s' found foreign =
      rw (found, ensure_found-not_owned client.network_policies _ _ _ o s' foreign)

  -- A PodDisruptionBudget of the agent's name that the agent does not control is neither written nor
  -- deleted: the state is the one the Get left, and the result is an error exactly if one is wanted.
  pub reconcile_pod_disruption_budget-not_owned :
      (o : DisruptionBudget) (s s' : S)
      → client.disruption_budgets.get (agent_key a) s ≡ (ok o, s')
      → ownership.is_controlled_by o.owners a ≡ false
      → reconcile_pod_disruption_budget env a s
        ≡ (refused (pod_disruption_budget_enabled a) "PodDisruptionBudget" o.name, s')
  unfolding reconcile_pod_disruption_budget
  reconcile_pod_disruption_budget-not_owned o s s' found foreign =
      rw (found, ensure_found-not_owned client.disruption_budgets _ _ _ o s' foreign)
