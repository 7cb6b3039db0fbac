-- ===== src/Controller/Events/Transitions.antt =====
-- Which events a status transition gives rise to.
use k8s_operator_hermes_agen.Common.{◌≡◌, refl, eq_refl, true, Option, none, some, []}
use k8s_operator_hermes_agen.Api.{
  AgentStatus, Condition, ConditionStatus, condition_true, condition_false, condition_unknown,
}
use k8s_operator_hermes_agen.Controller.Client.{ConditionApi}
use k8s_operator_hermes_agen.Controller.Status.{config_ready, persistence_ready, workload_ready}
use k8s_operator_hermes_agen.Controller.Events.{
  same_status, transition, event_for_condition_transition, status_events_for_transition,
}

same_status_self : (c : ConditionStatus) → same_status c c ≡ true
same_status_self condition_true = refl
same_status_self condition_false = refl
same_status_self condition_unknown = refl

transition_self : (o : Option Condition) → transition o o ≡ none
transition_self none = refl
transition_self (some c) = rw (same_status_self c.status, eq_refl c.reason, eq_refl c.message)

module _ (api : ConditionApi) where
  -- A change of the status that leaves the conditions ConfigReady, PersistenceReady and WorkloadReady as
  -- they were gives rise to no event.
  pub status_events-unchanged :
      (before after : AgentStatus)
      → api.find after.conditions config_ready ≡ api.find before.conditions config_ready
      → api.find after.conditions persistence_ready ≡ api.find before.conditions persistence_ready
      → api.find after.conditions workload_ready ≡ api.find before.conditions workload_ready
      → status_events_for_transition api before after ≡ []
  unfolding status_events_for_transition event_for_condition_transition
  status_events-unchanged before after c p w = rw (
    c,
    p,
    w,
    transition_self (api.find before.conditions config_ready),
    transition_self (api.find before.conditions persistence_ready),
    transition_self (api.find before.conditions workload_ready),
  )
