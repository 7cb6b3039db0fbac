-- ===== src/Webhook/Defaults/Settled.antt =====
-- Defaulting an agent twice.
use k8s_operator_hermes_agen.Common.{
  ℤ, pos, ltb_ℤ, eqb_ℤ, ◌≡◌, refl, String, Bool, true, false, ◌&&◌, Option, none, some, List, [],
  ◌∷◌, is_empty, arith, if◌then◌else◌,
}
use k8s_operator_hermes_agen.Api.{
  HermesAgent, ImageSpec, PersistenceSpec, ProbeSpec, ProbesSpec, ServiceConfig,
  NetworkPolicyConfig, UpdateStrategySpec,
}
use k8s_operator_hermes_agen.Webhook.Defaults.{
  text_or, set_or, nonzero_or, ProbeDefaults, default_probe, startup_defaults, readiness_defaults,
  liveness_defaults, default_image, default_persistence, default_service, default_network_policy,
  default_update_strategy, default_probes, default_spec, default,
}

pub text_or-again : (d s : String) → text_or d (text_or d s) ≡ text_or d s
text_or-again d s = ground arith

set_or-again : (d : Bool) (o : Option Bool) → set_or d (set_or d o) ≡ set_or d o
set_or-again d none = refl
set_or-again d (some b) = refl

nonzero_or-again : (d n : ℤ) → nonzero_or d (nonzero_or d n) ≡ nonzero_or d n
nonzero_or-again d n = ground arith

delay-again :
    (d n : ℤ)
    → (if eqb_ℤ (if eqb_ℤ n (pos 0) && ltb_ℤ (pos 0) d then d else n) (pos 0) && ltb_ℤ (pos 0) d
        then d
        else (if eqb_ℤ n (pos 0) && ltb_ℤ (pos 0) d then d else n))
      ≡ (if eqb_ℤ n (pos 0) && ltb_ℤ (pos 0) d then d else n)
delay-again d n = ground arith

default_probe-again :
    (p : ProbeSpec) (d : ProbeDefaults) → default_probe (default_probe p d) d ≡ default_probe p d
unfolding default_probe
default_probe-again p d = rw (
  set_or-again true p.enabled,
  delay-again d.initial_delay_seconds p.initial_delay_seconds,
  nonzero_or-again d.period_seconds p.period_seconds,
  nonzero_or-again d.timeout_seconds p.timeout_seconds,
  nonzero_or-again d.failure_threshold p.failure_threshold,
)

modes-again :
    (modes : List String)
    → (if is_empty (if is_empty modes then "ReadWriteOnce" ∷ [] else modes)
        then "ReadWriteOnce" ∷ []
        else (if is_empty modes then "ReadWriteOnce" ∷ [] else modes))
      ≡ (if is_empty modes then "ReadWriteOnce" ∷ [] else modes)
modes-again [] = refl
modes-again (m ∷ ms) = refl

pub default_image-again : (i : ImageSpec) → default_image (default_image i) ≡ default_image i
unfolding default_image
default_image-again i =
    rw (text_or-again _ i.repository, text_or-again _ i.tag, text_or-again _ i.pull_policy)

default_persistence-again :
    (p : PersistenceSpec) → default_persistence (default_persistence p) ≡ default_persistence p
unfolding default_persistence
default_persistence-again p =
    rw (set_or-again true p.enabled, text_or-again "10Gi" p.size, modes-again p.access_modes)

default_service-again :
    (s : ServiceConfig) → default_service (default_service s) ≡ default_service s
unfolding default_service
default_service-again s = rw (text_or-again "ClusterIP" s.type, nonzero_or-again (pos 8080) s.port)

default_network_policy-again :
    (n : NetworkPolicyConfig)
    → default_network_policy (default_network_policy n) ≡ default_network_policy n
unfolding default_network_policy
default_network_policy-again n = rw (set_or-again false n.enabled)

default_update_strategy-again :
    (u : UpdateStrategySpec)
    → default_update_strategy (default_update_strategy u) ≡ default_update_strategy u
unfolding default_update_strategy
default_update_strategy-again u = rw (text_or-again "RollingUpdate" u.type)

default_probes-again : (p : ProbesSpec) → default_probes (default_probes p) ≡ default_probes p
unfolding default_probes
default_probes-again p = rw (
  default_probe-again p.startup startup_defaults,
  default_probe-again p.readiness readiness_defaults,
  default_probe-again p.liveness liveness_defaults,
)

-- Defaulting an agent that was defaulted changes nothing.
pub default-again : (a : HermesAgent) → default (default a) ≡ default a
unfolding default default_spec
default-again a =
    let s = a.spec in
    rw (
      text_or-again "gateway" s.mode,
      default_image-again s.image,
      default_persistence-again s.persistence,
      nonzero_or-again (pos 1) s.replicas,
      set_or-again false s.automount_service_account_token,
      default_service-again s.service,
      default_network_policy-again s.network_policy,
      default_update_strategy-again s.update_strategy,
      default_probes-again s.probes,
    )
