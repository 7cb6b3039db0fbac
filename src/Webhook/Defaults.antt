-- ===== src/Webhook/Defaults.antt =====
-- `Default` and `defaultProbe`. The pointers to the default flags are their values.
pub mod Settled
pub mod Builders
pub mod Built
use k8s_operator_hermes_agen.Common.{
  ℤ, pos, ltb_ℤ, eqb_ℤ, String, ◌==◌, Bool, true, false, ◌&&◌, Option, none, some, [], ◌∷◌,
  is_empty, if◌then◌else◌,
}
use k8s_operator_hermes_agen.Api.{
  HermesAgent, AgentSpec, ImageSpec, PersistenceSpec, ProbeSpec, ProbesSpec, ServiceConfig,
  NetworkPolicyConfig, UpdateStrategySpec,
}

-- `if s == "" { s = d }`
abbrev pub text_or : String → String → String
text_or d s = if s == "" then d else s

-- `if p == nil { p = &d }`
abbrev pub set_or : Bool → Option Bool → Option Bool
set_or d none = some d
set_or d (some b) = some b

-- `if n == 0 { n = d }`
abbrev pub nonzero_or : ℤ → ℤ → ℤ
nonzero_or d n = if eqb_ℤ n (pos 0) then d else n

-- probeDefaults
pub record ProbeDefaults : Type 0 where
  pub enabled : Bool
  pub initial_delay_seconds : ℤ
  pub period_seconds : ℤ
  pub timeout_seconds : ℤ
  pub failure_threshold : ℤ

unfoldable pub default_probe : ProbeSpec → ProbeDefaults → ProbeSpec
default_probe p d = record {
  enabled = set_or true p.enabled;
  initial_delay_seconds =
      if eqb_ℤ p.initial_delay_seconds (pos 0) && ltb_ℤ (pos 0) d.initial_delay_seconds
      then d.initial_delay_seconds
      else p.initial_delay_seconds;
  period_seconds = nonzero_or d.period_seconds p.period_seconds;
  timeout_seconds = nonzero_or d.timeout_seconds p.timeout_seconds;
  failure_threshold = nonzero_or d.failure_threshold p.failure_threshold;
}

-- The three literals that `Default` passes to `defaultProbe`.
unfoldable pub startup_defaults : ProbeDefaults
startup_defaults = record {
  enabled = true;
  initial_delay_seconds = pos 0;
  period_seconds = pos 10;
  timeout_seconds = pos 5;
  failure_threshold = pos 18;
}

unfoldable pub readiness_defaults : ProbeDefaults
readiness_defaults = record {
  enabled = true;
  initial_delay_seconds = pos 5;
  period_seconds = pos 10;
  timeout_seconds = pos 5;
  failure_threshold = pos 3;
}

unfoldable pub liveness_defaults : ProbeDefaults
liveness_defaults = record {
  enabled = true;
  initial_delay_seconds = pos 15;
  period_seconds = pos 10;
  timeout_seconds = pos 5;
  failure_threshold = pos 3;
}

unfoldable pub default_image : ImageSpec → ImageSpec
default_image i = record {
  repository = text_or "ghcr.io/xmbshwll/hermes-agent-docker" i.repository;
  tag = text_or "v2026.3.30" i.tag;
  pull_policy = text_or "IfNotPresent" i.pull_policy;
}

unfoldable pub default_persistence : PersistenceSpec → PersistenceSpec
default_persistence p = record p {
  enabled = set_or true p.enabled;
  size = text_or "10Gi" p.size;
  access_modes = if is_empty p.access_modes then "ReadWriteOnce" ∷ [] else p.access_modes;
}

unfoldable pub default_service : ServiceConfig → ServiceConfig
default_service s = record s {
  type = text_or "ClusterIP" s.type;
  port = nonzero_or (pos 8080) s.port;
}

unfoldable pub default_network_policy : NetworkPolicyConfig → NetworkPolicyConfig
default_network_policy n = record n { enabled = set_or false n.enabled }

unfoldable pub default_update_strategy : UpdateStrategySpec → UpdateStrategySpec
default_update_strategy u = record u { type = text_or "RollingUpdate" u.type }

unfoldable pub default_probes : ProbesSpec → ProbesSpec
unfolding default_probe startup_defaults readiness_defaults liveness_defaults
default_probes p = record p {
  startup = default_probe p.startup startup_defaults;
  readiness = default_probe p.readiness readiness_defaults;
  liveness = default_probe p.liveness liveness_defaults;
}

unfoldable pub default_spec : AgentSpec → AgentSpec
unfolding default_image default_persistence default_service default_network_policy
    default_update_strategy default_probes
default_spec s = record s {
  mode = text_or "gateway" s.mode;
  image = default_image s.image;
  persistence = default_persistence s.persistence;
  replicas = nonzero_or (pos 1) s.replicas;
  automount_service_account_token = set_or false s.automount_service_account_token;
  service = default_service s.service;
  network_policy = default_network_policy s.network_policy;
  update_strategy = default_update_strategy s.update_strategy;
  probes = default_probes s.probes;
}

-- `Default`: the object after the call, which never fails.
unfoldable pub default : HermesAgent → HermesAgent
unfolding default_spec
default obj = record obj { spec = default_spec obj.spec }
