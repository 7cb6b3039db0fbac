-- ===== src/Controller/Patch.antt =====
-- Writing the status: `patchStatus`, its failure wrappers, and the events.
pub mod Keeps
use k8s_operator_hermes_agen.Common.{
  String, ◌<>◌, Option, none, some, List, [], ◌∷◌, ok, err, if◌then◌else◌,
}
use k8s_operator_hermes_agen.Api.{HermesAgent, AgentStatus}
use k8s_operator_hermes_agen.Controller.Exec.{
  Error, not_found, other, drifted, error_text, Exec, pure, raise, attempt, ◌>>=◌, ◌>>◌,
}
use k8s_operator_hermes_agen.Controller.Client.{agent_key, AgentObject, Event, Environment}
use k8s_operator_hermes_agen.Controller.Events.{status_events_for_transition}

abbrev NoValue : Type 0
NoValue = Unit {0}

-- A NotFound ends without an error; any other error is returned.
abbrev pub done_if_missing : {S : Type 0} → Error → Exec S NoValue
done_if_missing (not_found e) s = (ok tt, s)
done_if_missing (other e) s = (err (other e), s)
done_if_missing (drifted d) s = (err (drifted d), s)

module _ {S : Type 0} (env : Environment S) where
  open env use {client, conditions, equal_status, now}

  -- The loop of `emitStatusEvent`.
  unfoldable pub record_events : (HermesAgent → Event → S → S) → HermesAgent → List Event → S → S
  record_events recorder a [] s = s
  record_events recorder a (e ∷ es) s = record_events recorder a es (recorder a e s)

  abbrev emit_with :
      Option (HermesAgent → Event → S → S) → HermesAgent → List Event → Exec S NoValue
  emit_with none a events s = (ok tt, s)
  emit_with (some recorder) a events s = (ok tt, record_events recorder a events s)

  unfoldable pub emit_status_event : HermesAgent → AgentStatus → AgentStatus → Exec S NoValue
  unfolding record_events
  emit_status_event a before after =
      emit_with client.recorder a (status_events_for_transition conditions before after)

  -- The status that `patchStatus` compares with the one that it read.
  abbrev pub updated : (AgentStatus → AgentStatus) → AgentObject → AgentStatus
  updated mutate latest =
      mutate (record (latest.status) { observed_generation = latest.generation })

  -- The part of `patchStatus` behind the Get.
  unfoldable pub patch_latest : (AgentStatus → AgentStatus) → AgentObject → Exec S NoValue
  unfolding emit_status_event
  patch_latest mutate latest =
      let after = updated mutate latest in
      let stamped : AgentStatus = record after { last_reconcile_time = some now } in
      if equal_status latest.status after
      then pure tt
      else client.patch_status latest stamped >>= emit_status_event latest.agent latest.status

  unfoldable pub patch_status : HermesAgent → (AgentStatus → AgentStatus) → Exec S NoValue
  unfolding patch_latest
  patch_status a mutate =
      attempt (client.get_agent (agent_key a)) done_if_missing (patch_latest mutate)

  unfoldable pub patch_failure_status :
      HermesAgent → String → Error → (AgentStatus → AgentStatus) → Exec S NoValue
  patch_failure_status a operation cause mutate =
      attempt (patch_status a mutate)
        (λ e. raise (
          other (
            operation
            <> ": "
            <> error_text cause
            <> " (status update failed: "
            <> error_text e
            <> ")")))
        pure

  -- Reports the failure in the status and asks for no retry.
  unfoldable pub return_status_failure :
      HermesAgent → String → Error → (AgentStatus → AgentStatus) → Exec S NoValue
  return_status_failure a operation cause mutate = patch_failure_status a operation cause mutate

  -- Reports the failure in the status and returns it.
  unfoldable pub return_error_with_status :
      HermesAgent → String → Error → (AgentStatus → AgentStatus) → Exec S NoValue
  return_error_with_status a operation cause mutate =
      patch_failure_status a operation cause mutate >> raise cause
