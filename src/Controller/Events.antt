-- ===== src/Controller/Events.antt =====
-- The events that a status transition gives rise to.
pub mod Transitions
use k8s_operator_hermes_agen.Common.{
  String, ◌==◌, Bool, true, false, not, ◌&&◌, ◌||◌, Option, none, some, List, [], ◌∷◌, ◌++◌, any,
  if◌then◌else◌,
}
use k8s_operator_hermes_agen.Api.{
  AgentStatus, Condition, ConditionStatus, condition_true, condition_false, condition_unknown,
}
use k8s_operator_hermes_agen.Controller.Client.{ConditionApi, Event}
use k8s_operator_hermes_agen.Controller.Status.{
  config_ready, persistence_ready, workload_ready, waiting_for_persistence,
}

abbrev pub same_status : ConditionStatus → ConditionStatus → Bool
same_status condition_true condition_true = true
same_status condition_false condition_false = true
same_status condition_unknown condition_unknown = true
same_status _ _ = false

-- The reasons whose events are warnings.
unfoldable pub warning_reasons : List String
warning_reasons =
    "InvalidConfig" ∷ "MissingReferencedInput" ∷ "ReferencedInputsReadFailed"
    ∷ "ConfigMapReconcileFailed" ∷ "PersistentVolumeClaimReconcileFailed"
    ∷ "PersistentVolumeClaimSpecDrift" ∷ "PersistentVolumeClaimLost" ∷ "StatefulSetReconcileFailed"
    ∷ "ServiceReconcileFailed" ∷ "NetworkPolicyReconcileFailed"
    ∷ "PodDisruptionBudgetReconcileFailed" ∷ []

unfoldable pub event_type_for_condition : Condition → String
unfolding warning_reasons
event_type_for_condition c =
    if any (λ r. c.reason == r) warning_reasons then "Warning" else "Normal"

-- `beforeCondition != nil` and the same status, reason and message
abbrev pub unchanged : Option Condition → Condition → Bool
unchanged none c = false
unchanged (some b) c =
    same_status b.status c.status && (b.reason == c.reason && b.message == c.message)

abbrev event_of : Condition → Option Event
event_of c =
    if c.reason == ""
    then none
    else some (record { type = event_type_for_condition c; reason = c.reason; message = c.message })

abbrev transition : Option Condition → Option Condition → Option Event
transition before none = none
transition before (some c) = if unchanged before c then none else event_of c

-- `event.ok` with a test on the event
abbrev pub when_event : (Event → Bool) → Option Event → Option Event
when_event test none = none
when_event test (some e) = if test e then some e else none

abbrev pub to_list : Option Event → List Event
to_list none = []
to_list (some e) = e ∷ []

abbrev pub is_some_event : Option Event → Bool
is_some_event none = false
is_some_event (some e) = true

module _ (api : ConditionApi) where
  -- `eventForConditionTransition`; `none` is an event that is not `ok`.
  unfoldable pub event_for_condition_transition : AgentStatus → AgentStatus → String → Option Event
  unfolding event_type_for_condition
  event_for_condition_transition before after condition_type =
      transition (api.find before.conditions condition_type)
        (api.find after.conditions condition_type)

  unfoldable pub status_events_for_transition : AgentStatus → AgentStatus → List Event
  status_events_for_transition before after =
      let config =
        when_event (λ e. e.type == "Warning")
          (event_for_condition_transition before after config_ready) in
      let persistence =
        when_event (λ e. not (e.reason == "Unknown"))
          (event_for_condition_transition before after persistence_ready) in
      let workload =
        when_event
          (λ e.
            not (e.reason == "Unknown")
            && (not (is_some_event persistence) || not (e.reason == waiting_for_persistence)))
          (event_for_condition_transition before after workload_ready) in
      to_list config ++ (to_list persistence ++ to_list workload)
