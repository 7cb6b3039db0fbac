-- ===== src/Pod/Bounds.antt =====
-- The numbers of the built objects: probes, and the ports of the Service and of the container.
use k8s_operator_hermes_agen.Common.{
  ℤ, pos, ◌≤ℤ◌, ◌≡◌, refl, String, Option, none, some, List, [], ◌∷◌, map, All, Bool-cases, inl,
  inr, if◌then◌else◌, arith,
}
use k8s_operator_hermes_agen.Api.{
  HermesAgent, ProbeSpec, Probe, Container, ContainerPort, ServicePort,
}
use k8s_operator_hermes_agen.Settings.{service_port, service_target_port, service_enabled}
use k8s_operator_hermes_agen.Probes.{
  ProbeConfig, positive_or, resolve_probe_config, startup_probe_defaults, readiness_probe_defaults,
  liveness_probe_defaults, probe_if_enabled, build_exec_probe, hermes_startup_probe,
  hermes_readiness_probe, hermes_liveness_probe,
}
use k8s_operator_hermes_agen.Objects.{build_service}
use k8s_operator_hermes_agen.Pod.{
  PodTemplateInputs, build_stateful_set, hermes_container, container_ports,
}

-- What Kubernetes asks of the numbers of a probe.
abbrev pub Accepted : Option Probe → Type 0
Accepted none = Unit {0}
Accepted (some p) =
    (pos 0 ≤ℤ p.initial_delay_seconds)
    × (pos 1 ≤ℤ p.period_seconds)
    × (pos 1 ≤ℤ p.timeout_seconds)
    × (pos 1 ≤ℤ p.failure_threshold)

abbrev Sound : ProbeConfig → Type 0
Sound c =
    (pos 0 ≤ℤ c.initial_delay_seconds)
    × (pos 1 ≤ℤ c.period_seconds)
    × (pos 1 ≤ℤ c.timeout_seconds)
    × (pos 1 ≤ℤ c.failure_threshold)

positive_or-bound : (low d v : ℤ) → low ≤ℤ pos 1 → low ≤ℤ d → low ≤ℤ positive_or d v
positive_or-bound low d v h k = ground arith

resolve_probe_config-Sound :
    (spec : ProbeSpec) (defaults : ProbeConfig)
    → Sound defaults
    → Sound (resolve_probe_config spec defaults)
unfolding resolve_probe_config
resolve_probe_config-Sound spec d (delay, period, timeout, failures) = (
  positive_or-bound (pos 0) d.initial_delay_seconds spec.initial_delay_seconds (omega arith) delay,
  positive_or-bound (pos 1) d.period_seconds spec.period_seconds (omega arith) period,
  positive_or-bound (pos 1) d.timeout_seconds spec.timeout_seconds (omega arith) timeout,
  positive_or-bound (pos 1) d.failure_threshold spec.failure_threshold (omega arith) failures,
)

probe_if_enabled-Accepted :
    (c : ProbeConfig) (checks : List String) → Sound c → Accepted (probe_if_enabled c checks)
unfolding build_exec_probe
probe_if_enabled-Accepted c checks h = elim (Bool-cases c.enabled) [
  | inl on ↦ rw (on) h
  | inr off ↦ rw (off) tt
]

-- What Kubernetes asks of the number of a port.
abbrev pub IsPort : ℤ → Type 0
IsPort p = (pos 1 ≤ℤ p) × (p ≤ℤ pos 65535)

service_port-IsPort : (a : HermesAgent) → a.spec.service.port ≤ℤ pos 65535 → IsPort (service_port a)
unfolding service_port
service_port-IsPort a h = ground arith

service_target_port-IsPort :
    (a : HermesAgent)
    → a.spec.service.port ≤ℤ pos 65535
    → a.spec.service.target_port ≤ℤ pos 65535
    → IsPort (service_target_port a)
unfolding service_target_port service_port
service_target_port-IsPort a h k = ground arith

ports_lem :
    (a : HermesAgent)
    → map (λ (p : ContainerPort). p.container_port) (container_ports a) ≡ (
        if service_enabled a
        then map (λ (p : ServicePort). p.target_port) (build_service a).spec.ports
        else [])
unfolding container_ports build_service
ports_lem a = elim (Bool-cases (service_enabled a)) [
  | inl on ↦ rw (on) refl
  | inr off ↦ rw (off) refl
]

-- For an agent whose service port and target port are at most 65535, the numbers that are built are
-- in Kubernetes' ranges: the probes of the one container have a delay of zero or more, and a period, a
-- timeout and a failure threshold of one or more; the ports of the Service and its target ports are
-- from 1 to 65535; and the container's ports are the Service's target ports where the Service is
-- enabled, and none otherwise.
pub build_stateful_set-bounds :
    (a : HermesAgent) (i : PodTemplateInputs)
    → a.spec.service.port ≤ℤ pos 65535
    → a.spec.service.target_port ≤ℤ pos 65535
    → (c : Container) × ((build_stateful_set a i).template_spec.containers ≡ c ∷ [])
      × Accepted c.startup_probe
      × Accepted c.readiness_probe
      × Accepted c.liveness_probe
      × All (λ (p : ServicePort). IsPort p.port × IsPort p.target_port) (build_service a).spec.ports
      × (map (λ (p : ContainerPort). p.container_port) c.ports ≡ (
          if service_enabled a
          then map (λ (p : ServicePort). p.target_port) (build_service a).spec.ports
          else []))
unfolding build_stateful_set hermes_container hermes_startup_probe hermes_readiness_probe
    hermes_liveness_probe startup_probe_defaults readiness_probe_defaults liveness_probe_defaults
    build_service container_ports
build_stateful_set-bounds a i port target =
    let probes = a.spec.probes in
    (
      hermes_container a i,
      refl,
      probe_if_enabled-Accepted _ _ (
          resolve_probe_config-Sound probes.startup startup_probe_defaults
            (omega arith, omega arith, omega arith, omega arith)),
      probe_if_enabled-Accepted _ _ (
          resolve_probe_config-Sound probes.readiness readiness_probe_defaults
            (omega arith, omega arith, omega arith, omega arith)),
      probe_if_enabled-Accepted _ _ (
          resolve_probe_config-Sound probes.liveness liveness_probe_defaults
            (omega arith, omega arith, omega arith, omega arith)),
      ((service_port-IsPort a port, service_target_port-IsPort a port target), tt),
      ports_lem a,
    )
