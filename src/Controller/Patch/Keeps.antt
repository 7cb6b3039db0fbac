-- ===== src/Controller/Patch/Keeps.antt =====
-- What the writing of the status and its events keeps.
use k8s_operator_hermes_agen.Common.{◌≡◌, refl, String, Option, none, some, List, [], ◌∷◌}
use k8s_operator_hermes_agen.Api.{HermesAgent, AgentStatus}
use k8s_operator_hermes_agen.Controller.Exec.{Error, not_found, other, drifted, pure}
use k8s_operator_hermes_agen.Controller.Exec.Keeps.{Keeps, attempt-Keeps, bind-Keeps, choose-Keeps}
use k8s_operator_hermes_agen.Controller.Client.{Key, agent_key, AgentObject, Event, Environment}
use k8s_operator_hermes_agen.Controller.Patch.{
  done_if_missing, record_events, emit_with, emit_status_event, updated, patch_latest, patch_status,
  patch_failure_status, return_error_with_status,
}

module _ {S : Type 0} (env : Environment S) (P : S → Type 0) where
  open env use {client}

  -- The calls that write the status or an event keep the property.
  pub record StatusKeeps : Type 0 where
    pub get_agent : (key : Key) → Keeps P (client.get_agent key)
    pub patch : (o : AgentObject) (after : AgentStatus) → Keeps P (client.patch_status o after)
    pub events :
        (record_event : HermesAgent → Event → S → S) (a : HermesAgent) (e : Event) (s : S)
        → client.recorder ≡ some record_event
        → P s
        → P (record_event a e s)

  done_if_missing-Keeps : (e : Error) → Keeps P (done_if_missing e)
  done_if_missing-Keeps (not_found e) s p = p
  done_if_missing-Keeps (other e) s p = p
  done_if_missing-Keeps (drifted d) s p = p

  module _ (keeps : StatusKeeps) where
    record_events-Keeps :
        (record_event : HermesAgent → Event → S → S) (a : HermesAgent) (es : List Event) (s : S)
        → client.recorder ≡ some record_event
        → P s
        → P (record_events env record_event a es s)
    unfolding record_events
    record_events-Keeps record_event a [] s set p = p
    record_events-Keeps record_event a (e ∷ es) s set p =
        record_events-Keeps record_event a es (record_event a e s) set
          (keeps.events record_event a e s set p)

    emit_with-Keeps :
        (recorder : Option (HermesAgent → Event → S → S)) (a : HermesAgent) (es : List Event)
        → client.recorder ≡ recorder
        → Keeps P (emit_with env recorder a es)
    emit_with-Keeps none a es set s p = p
    emit_with-Keeps (some record_event) a es set s p = record_events-Keeps record_event a es s set p

    patch_latest-Keeps :
        (mutate : AgentStatus → AgentStatus) (latest : AgentObject)
        → Keeps P (patch_latest env mutate latest)
    unfolding patch_latest emit_status_event
    patch_latest-Keeps mutate latest =
        choose-Keeps P (env.equal_status latest.status (updated env mutate latest)) (pure tt) _
          (λ s p. p)
          (bind-Keeps P _ _ (keeps.patch latest _)
            (λ u. emit_with-Keeps client.recorder latest.agent _ refl))

    pub patch_status-Keeps :
        (a : HermesAgent) (mutate : AgentStatus → AgentStatus) → Keeps P (patch_status env a mutate)
    unfolding patch_status
    patch_status-Keeps a mutate =
        attempt-Keeps P (client.get_agent (agent_key a)) done_if_missing (patch_latest env mutate)
          (keeps.get_agent (agent_key a)) done_if_missing-Keeps (patch_latest-Keeps mutate)

    pub patch_failure_status-Keeps :
        (a : HermesAgent) (operation : String) (cause : Error) (mutate : AgentStatus → AgentStatus)
        → Keeps P (patch_failure_status env a operation cause mutate)
    unfolding patch_failure_status
    patch_failure_status-Keeps a operation cause mutate =
        attempt-Keeps P (patch_status env a mutate) _ pure (patch_status-Keeps a mutate)
          (λ e s p. p) (λ u s p. p)

    pub return_error_with_status-Keeps :
        (a : HermesAgent) (operation : String) (cause : Error) (mutate : AgentStatus → AgentStatus)
        → Keeps P (return_error_with_status env a operation cause mutate)
    unfolding return_error_with_status
    return_error_with_status-Keeps a operation cause mutate =
        bind-Keeps P (patch_failure_status env a operation cause mutate) _
          (patch_failure_status-Keeps a operation cause mutate) (λ u s p. p)
