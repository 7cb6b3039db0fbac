-- ===== src/Controller/Ensure/Control.antt =====
-- What every closure does that is handed to CreateOrUpdate: it makes the agent the controller of the
-- object and leaves its name and namespace.
use k8s_operator_hermes_agen.Common.{◌≡◌, refl, Bool, true, false, ok, Bool-cases, inl, inr, Result}
use k8s_operator_hermes_agen.Api.{HermesAgent, PersistentVolumeClaimSpec, NetworkPolicySpec}
use k8s_operator_hermes_agen.Config.{ResolvedConfigFile}
use k8s_operator_hermes_agen.Pod.{PodTemplateInputs}
use k8s_operator_hermes_agen.Objects.{Built}
use k8s_operator_hermes_agen.Controller.Exec.{Error}
use k8s_operator_hermes_agen.Controller.Client.{Object, Ownership, IsOwnership}
use k8s_operator_hermes_agen.Controller.Drift.{persistent_volume_claim_immutable_field_drift}
use k8s_operator_hermes_agen.Controller.Ensure.{
  take_control, mutate_config_map, mutate_claim, mutate_stateful_set, mutate_disruption_budget,
  mutate_service, mutate_network_policy, no_drift, labelled_claim, resized_claim,
}
use k8s_operator_hermes_agen.Controller.Ensure.Converge.{take_control-ok}

module _ (own : Ownership) (a : HermesAgent) where
  abbrev pub TakesControl :
      {Spec Status : Type 0} → (Object Spec Status → Result Error (Object Spec Status)) → Type 0
  TakesControl {Spec} {Status} mutate =
      (o o' : Object Spec Status)
      → mutate o ≡ ok o'
      → (own.is_controlled_by o'.owners a ≡ true)
        × (o'.name ≡ o.name)
        × (o'.namespace ≡ o.namespace)

module _ (own : Ownership) (law : IsOwnership own) (a : HermesAgent) where
  -- An object is changed but for its name and namespace, and then taken control of.
  take_control-Takes :
      {Spec Status : Type 0}
      → (change : Object Spec Status → Object Spec Status)
      → ((o : Object Spec Status) → (change o).name ≡ o.name)
      → ((o : Object Spec Status) → (change o).namespace ≡ o.namespace)
      → TakesControl own a (λ o. take_control own a (change o))
  take_control-Takes {Spec} {Status} change names namespaces o o' e =
      let (owners, mine, eq) = take_control-ok own law a Spec Status (change o) o' e in
      (rw (eq) mine, rw (eq) (names o), rw (eq) (namespaces o))

  pub mutate_config_map-TakesControl :
      (file : ResolvedConfigFile) → TakesControl own a (mutate_config_map own a file)
  unfolding mutate_config_map
  mutate_config_map-TakesControl file = take_control-Takes _ (λ o. refl) (λ o. refl)

  pub mutate_stateful_set-TakesControl :
      (inputs : PodTemplateInputs) → TakesControl own a (mutate_stateful_set own a inputs)
  unfolding mutate_stateful_set
  mutate_stateful_set-TakesControl inputs = take_control-Takes _ (λ o. refl) (λ o. refl)

  pub mutate_disruption_budget-TakesControl : TakesControl own a (mutate_disruption_budget own a)
  unfolding mutate_disruption_budget
  mutate_disruption_budget-TakesControl = take_control-Takes _ (λ o. refl) (λ o. refl)

  pub mutate_service-TakesControl : TakesControl own a (mutate_service own a)
  unfolding mutate_service
  mutate_service-TakesControl = take_control-Takes _ (λ o. refl) (λ o. refl)

  pub mutate_network_policy-TakesControl :
      (spec : NetworkPolicySpec) → TakesControl own a (mutate_network_policy own a spec)
  unfolding mutate_network_policy
  mutate_network_policy-TakesControl spec = take_control-Takes _ (λ o. refl) (λ o. refl)

  pub mutate_claim-TakesControl :
      (exists : Bool) (desired : Built PersistentVolumeClaimSpec)
      → TakesControl own a (mutate_claim own a exists desired)
  unfolding mutate_claim
  mutate_claim-TakesControl false desired c c' e =
      take_control-Takes (λ c. record (labelled_claim own a desired c) { spec = desired.spec })
        (λ o. refl) (λ o. refl) c c' e
  mutate_claim-TakesControl true desired c c' e =
      elim (Bool-cases
        (no_drift own a (persistent_volume_claim_immutable_field_drift a c.spec desired.spec))) [
          | inl same ↦
              take_control-Takes (resized_claim own a desired) (λ o. refl) (λ o. refl) c c'
                (rw (same) at e)
          | inr drift ↦ absurd (cc (rw (drift) at e))
        ]
