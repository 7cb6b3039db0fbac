-- ===== src/Webhook/Defaults/Built.antt =====
-- What is built of an agent before and after defaulting.
use k8s_operator_hermes_agen.Common.{
  ◌≡◌, refl, ap, sym, ◌∙◌, String, Result, Result-cases, inl, inr, ok, err, arith,
}
use k8s_operator_hermes_agen.Api.{HermesAgent}
use k8s_operator_hermes_agen.Settings.{
  resource_labels, persistence_enabled, persistence_size, persistence_access_modes, service_enabled,
  service_type, pod_disruption_budget_enabled, network_policy_enabled,
}
use k8s_operator_hermes_agen.Snapshots.{ReferencedInputs}
use k8s_operator_hermes_agen.Config.{
  HashPayload, ConfigPlan, build_config_plan_with_references, resolve_config_file,
}
use k8s_operator_hermes_agen.Policy.{build_network_policy}
use k8s_operator_hermes_agen.Pod.{PodTemplateInputs, build_stateful_set, build_pod_template_inputs}
use k8s_operator_hermes_agen.Objects.{
  build_service, build_persistent_volume_claim, build_pod_disruption_budget,
}
use k8s_operator_hermes_agen.Webhook.Defaults.{
  default_image, default_persistence, default_service, default_network_policy, default_spec,
  default,
}
use k8s_operator_hermes_agen.Webhook.Defaults.Settled.{text_or-again, default_image-again}
use k8s_operator_hermes_agen.Webhook.Defaults.Builders.{
  stateful_set-default, desired_replicas-default, persistence_enabled-default, flag_off-default,
  service_port-default, service_target_port-default,
}

module _ (a : HermesAgent) where
  service_type-default : service_type (default a) ≡ service_type a
  unfolding service_type default default_spec default_service
  service_type-default = text_or-again "ClusterIP" a.spec.service.type

  service-default : build_service (default a) ≡ build_service a
  unfolding build_service resource_labels default default_spec default_service
  service-default =
      rw (service_type-default, service_target_port-default a, service_port-default a) refl

  size-default : persistence_size (default a) ≡ persistence_size a
  unfolding persistence_size default default_spec default_persistence
  size-default = text_or-again "10Gi" a.spec.persistence.size

  access_modes-default : persistence_access_modes (default a) ≡ persistence_access_modes a
  unfolding persistence_access_modes default default_spec default_persistence
  access_modes-default = ground arith

  claim-default :
      (parse_quantity : String → Result String String)
      → build_persistent_volume_claim parse_quantity (default a)
        ≡ build_persistent_volume_claim parse_quantity a
  unfolding build_persistent_volume_claim resource_labels default default_spec default_persistence
  claim-default parse_quantity = elim (Result-cases (parse_quantity (persistence_size a))) [
    | inl (q, parsed) ↦
        let defaulted : parse_quantity (persistence_size (default a)) ≡ ok q =
          ap parse_quantity size-default ∙ parsed in
        rw (build_persistent_volume_claim, defaulted, parsed, access_modes-default) refl
    | inr (e, failed) ↦
        let defaulted : parse_quantity (persistence_size (default a)) ≡ err e =
          ap parse_quantity size-default ∙ failed in
        rw (build_persistent_volume_claim, defaulted, failed) refl
  ]

  -- The agent with the defaults of its image alone.
  abbrev pub with_image : HermesAgent
  with_image = record a { spec = record (a.spec) { image = default_image a.spec.image } }

  default-with_image : default with_image ≡ default a
  unfolding default default_spec
  default-with_image =
      ap (λ i. record (default a) { spec = record ((default a).spec) { image = i } })
        (default_image-again a.spec.image)

module _ (a : HermesAgent) where
  -- Of what is built of an agent, defaulting changes nothing but the image: the StatefulSet, with any
  -- inputs, is that of the agent with the defaults of its image alone; the config plan and the inputs
  -- of the pod, the Service, the claim, the PodDisruptionBudget and the NetworkPolicy are those of the
  -- agent itself; and so is what is enabled of the last four.
  pub builds-default :
      (digest : HashPayload → String) (parse_quantity : String → Result String String)
      (references : ReferencedInputs) (plan : ConfigPlan) (backend : String)
      (inputs : PodTemplateInputs)
      → (build_stateful_set (default a) inputs ≡ build_stateful_set (with_image a) inputs)
        × (build_config_plan_with_references digest (default a) references
            ≡ build_config_plan_with_references digest a references)
        × (build_pod_template_inputs (default a) plan ≡ build_pod_template_inputs a plan)
        × (build_service (default a) ≡ build_service a)
        × (build_persistent_volume_claim parse_quantity (default a)
            ≡ build_persistent_volume_claim parse_quantity a)
        × (build_pod_disruption_budget (default a) ≡ build_pod_disruption_budget a)
        × (build_network_policy (default a) backend ≡ build_network_policy a backend)
        × (service_enabled (default a) ≡ service_enabled a)
        × (persistence_enabled (default a) ≡ persistence_enabled a)
        × (pod_disruption_budget_enabled (default a) ≡ pod_disruption_budget_enabled a)
        × (network_policy_enabled (default a) ≡ network_policy_enabled a)
  unfolding default default_spec default_network_policy build_config_plan_with_references
      resolve_config_file build_pod_template_inputs build_pod_disruption_budget build_network_policy
      resource_labels service_enabled pod_disruption_budget_enabled network_policy_enabled
  builds-default digest parse_quantity references plan backend inputs = (
    ap (λ x. build_stateful_set x inputs) (sym (default-with_image a))
        ∙ stateful_set-default (with_image a) inputs (default_image-again a.spec.image),
    refl,
    refl,
    service-default a,
    claim-default a parse_quantity,
    refl,
    refl,
    refl,
    persistence_enabled-default a,
    rw (desired_replicas-default a) refl,
    flag_off-default a.spec.network_policy.enabled,
  )
