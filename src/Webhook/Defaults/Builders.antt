-- ===== src/Webhook/Defaults/Builders.antt =====
-- The StatefulSet before and after defaulting.
use k8s_operator_hermes_agen.Common.{
  ℤ, ◌<>◌, ◌++◌, pos, ltb_ℤ, eqb_ℤ, ◌≡◌, refl, ap, ◌==◌, Bool, true, false, ◌&&◌, Option, none,
  some, [], ◌∷◌, arith, if◌then◌else◌, eq_iff, Bool-cases, Option-cases, inl, inr,
}
use k8s_operator_hermes_agen.Api.{HermesAgent, ProbeSpec, ImageSpec}
use k8s_operator_hermes_agen.Settings.{
  managed_pod_labels, managed_pod_annotations, resource_labels, flag_or, desired_replicas,
  persistence_enabled, service_enabled, service_port, service_target_port,
  automount_service_account_token, stateful_set_update_strategy, hermes_image, hermes_args,
}
use k8s_operator_hermes_agen.Probes.{
  probe_if_enabled, shell_quote, hermes_gateway_pid_path, state_file_check, probe_process_check,
  probe_gateway_state_check, probe_any_connected_platform_connected_check, positive_or,
  resolve_probe_config, startup_probe_defaults, readiness_probe_defaults, liveness_probe_defaults,
  hermes_startup_probe, hermes_readiness_probe, hermes_liveness_probe, ProbeConfig,
}
use k8s_operator_hermes_agen.Pod.{
  hermes_container_security_context, PodTemplateInputs, build_stateful_set, hermes_container,
  container_ports, hermes_data_volume,
}
use k8s_operator_hermes_agen.Webhook.Defaults.{
  set_or, nonzero_or, ProbeDefaults, default_probe, startup_defaults, readiness_defaults,
  liveness_defaults, default_image, default_persistence, default_service, default_update_strategy,
  default_probes, default_spec, default,
}

-- The same defaults, for the webhook and for the builders.
abbrev Same : ProbeDefaults → ProbeConfig → Type 0
Same d c =
    (c.enabled ≡ true)
    × (d.initial_delay_seconds ≡ c.initial_delay_seconds)
    × (d.period_seconds ≡ c.period_seconds)
    × (d.timeout_seconds ≡ c.timeout_seconds)
    × (d.failure_threshold ≡ c.failure_threshold)

flag-default : (o : Option Bool) → flag_or true (set_or true o) ≡ flag_or true o
flag-default none = refl
flag-default (some b) = refl

pub flag_off-default : (o : Option Bool) → flag_or false (set_or false o) ≡ flag_or false o
flag_off-default none = refl
flag_off-default (some b) = refl

positive-default : (d n : ℤ) → positive_or d (nonzero_or d n) ≡ positive_or d n
positive-default d n = ground arith

delay-default :
    (d n : ℤ)
    → positive_or d (if eqb_ℤ n (pos 0) && ltb_ℤ (pos 0) d then d else n) ≡ positive_or d n
delay-default d n = ground arith

resolve_probe_config-default_probe :
    (p : ProbeSpec) (d : ProbeDefaults) (c : ProbeConfig)
    → Same d c
    → resolve_probe_config (default_probe p d) c ≡ resolve_probe_config p c
unfolding resolve_probe_config default_probe
resolve_probe_config-default_probe p d c (e, i, n, t, f) = rw (
  e,
  ← i,
  ← n,
  ← t,
  ← f,
  flag-default p.enabled,
  delay-default d.initial_delay_seconds p.initial_delay_seconds,
  positive-default d.period_seconds p.period_seconds,
  positive-default d.timeout_seconds p.timeout_seconds,
  positive-default d.failure_threshold p.failure_threshold,
)

module _ (a : HermesAgent) where
  pub desired_replicas-default : desired_replicas (default a) ≡ desired_replicas a
  unfolding desired_replicas default default_spec
  desired_replicas-default = ground arith

  pub service_port-default : service_port (default a) ≡ service_port a
  unfolding service_port default default_spec default_service
  service_port-default = ground arith

  pub service_target_port-default : service_target_port (default a) ≡ service_target_port a
  unfolding service_target_port default default_spec default_service
  service_target_port-default = rw (service_port-default)

  pub persistence_enabled-default : persistence_enabled (default a) ≡ persistence_enabled a
  unfolding persistence_enabled default default_spec default_persistence
  persistence_enabled-default = flag-default a.spec.persistence.enabled

  hermes_args-default : hermes_args (default a) ≡ hermes_args a
  unfolding hermes_args default default_spec
  hermes_args-default = ground (arith, eq_iff a.spec.mode "")

  automount-default :
      automount_service_account_token (default a) ≡ automount_service_account_token a
  unfolding automount_service_account_token default default_spec
  automount-default = elim (Option-cases a.spec.automount_service_account_token) [
    | inl unset ↦ rw (unset)
    | inr (b, given) ↦ rw (given)
  ]

  strategy-default : stateful_set_update_strategy (default a) ≡ stateful_set_update_strategy a
  unfolding stateful_set_update_strategy default default_spec default_update_strategy
  strategy-default = elim (Bool-cases (a.spec.update_strategy.type == "")) [
    | inl unset ↦ rw (unset)
    | inr given ↦ rw (given, given)
  ]

  startup-default : hermes_startup_probe (default a) ≡ hermes_startup_probe a
  unfolding hermes_startup_probe default default_spec default_probes startup_probe_defaults
      startup_defaults
  startup-default =
      ap
        (λ (c : ProbeConfig).
          probe_if_enabled c
            (("test -s " <> shell_quote hermes_gateway_pid_path) ∷ state_file_check ∷ []))
        (resolve_probe_config-default_probe a.spec.probes.startup startup_defaults
          startup_probe_defaults (refl, refl, refl, refl, refl))

  readiness-default : hermes_readiness_probe (default a) ≡ hermes_readiness_probe a
  unfolding hermes_readiness_probe default default_spec default_probes readiness_probe_defaults
      readiness_defaults
  readiness-default =
      ap
        (λ (c : ProbeConfig). probe_if_enabled c (
          (probe_process_check ∷ probe_gateway_state_check "running" ∷ [])
          ++ (if a.spec.probes.require_connected_platform
              then probe_any_connected_platform_connected_check ∷ []
              else [])))
        (resolve_probe_config-default_probe a.spec.probes.readiness readiness_defaults
          readiness_probe_defaults (refl, refl, refl, refl, refl))

  liveness-default : hermes_liveness_probe (default a) ≡ hermes_liveness_probe a
  unfolding hermes_liveness_probe default default_spec default_probes liveness_probe_defaults
      liveness_defaults
  liveness-default =
      ap (λ (c : ProbeConfig). probe_if_enabled c (probe_process_check ∷ state_file_check ∷ []))
        (resolve_probe_config-default_probe a.spec.probes.liveness liveness_defaults
          liveness_probe_defaults (refl, refl, refl, refl, refl))

  container_ports-default : container_ports (default a) ≡ container_ports a
  unfolding container_ports default default_spec default_service service_enabled
  container_ports-default = rw (service_target_port-default)

  image_text-default :
      default_image a.spec.image ≡ a.spec.image
      → hermes_image (default a).spec.image ≡ hermes_image a.spec.image
  unfolding default default_spec
  image_text-default image = ap hermes_image image

  pull_policy-default :
      default_image a.spec.image ≡ a.spec.image
      → (default a).spec.image.pull_policy ≡ a.spec.image.pull_policy
  unfolding default default_spec
  pull_policy-default image = ap (λ (i : ImageSpec). i.pull_policy) image

  resources-default : (default a).spec.resources ≡ a.spec.resources
  unfolding default default_spec
  resources-default = refl

  container-default :
      (inputs : PodTemplateInputs)
      → default_image a.spec.image ≡ a.spec.image
      → hermes_container (default a) inputs ≡ hermes_container a inputs
  unfolding hermes_container hermes_container_security_context hermes_startup_probe
      hermes_readiness_probe hermes_liveness_probe
  container-default inputs image = rw (
    image_text-default image,
    pull_policy-default image,
    hermes_args-default,
    container_ports-default,
    resources-default,
    startup-default,
    readiness-default,
    liveness-default,
  )

  data_volume-default : hermes_data_volume (default a) ≡ hermes_data_volume a
  unfolding hermes_data_volume default
  data_volume-default = rw (persistence_enabled-default)

  pub stateful_set-default :
      (inputs : PodTemplateInputs)
      → default_image a.spec.image ≡ a.spec.image
      → build_stateful_set (default a) inputs ≡ build_stateful_set a inputs
  unfolding build_stateful_set default default_spec managed_pod_labels managed_pod_annotations
      resource_labels
  stateful_set-default inputs image = rw (
    desired_replicas-default,
    strategy-default,
    automount-default,
    data_volume-default,
    container-default inputs image,
  )
