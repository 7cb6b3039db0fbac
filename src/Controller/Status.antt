-- ===== src/Controller/Status.antt =====
-- The status of an agent: its metadata, its conditions, and what each kind of failure writes.
pub mod Coherent
pub mod Settled
use k8s_operator_hermes_agen.Common.{pos, String, false, [], if◌then◌else◌}
use k8s_operator_hermes_agen.Api.{
  HermesAgent, AgentStatus, ConditionStatus, condition_true, condition_false, condition_unknown,
}
use k8s_operator_hermes_agen.Settings.{
  hermes_image, persistence_enabled, persistent_volume_claim_name, service_enabled,
}
use k8s_operator_hermes_agen.Controller.Exec.{Error, drifted, error_text}
use k8s_operator_hermes_agen.Controller.Client.{ConditionApi}

abbrev pub config_ready : String
config_ready = "ConfigReady"

abbrev pub persistence_ready : String
persistence_ready = "PersistenceReady"

abbrev pub workload_ready : String
workload_ready = "WorkloadReady"

abbrev pub ready : String
ready = "Ready"

abbrev pub waiting_for_persistence : String
waiting_for_persistence = "WaitingForPersistence"

unfoldable pub populate_status_metadata : HermesAgent → String → AgentStatus → AgentStatus
populate_status_metadata a config_hash status = record status {
  image = hermes_image a.spec.image;
  config_hash = config_hash;
  persistent_volume_claim_name =
      if persistence_enabled a then persistent_volume_claim_name a.name else "";
  persistent_volume_claim_drifted_fields = [];
  persistent_volume_claim_remediation = "";
  service_name = if service_enabled a then a.name else "";
}

module _ (api : ConditionApi) (now : String) where
  unfoldable pub set_condition :
      String → ConditionStatus → String → String → AgentStatus → AgentStatus
  set_condition type condition_status reason message status = record status {
    conditions = api.set status.conditions (record {
      type = type;
      status = condition_status;
      observed_generation = status.observed_generation;
      reason = reason;
      message = message;
      last_transition_time = now;
    });
  }

  -- The condition that every stage past the configuration sets.
  unfoldable pub set_config_reconciled : AgentStatus → AgentStatus
  unfolding set_condition
  set_config_reconciled =
      set_condition config_ready condition_true "ConfigReconciled"
        "Configuration inputs resolved successfully"

  -- The replica count and the bound flag are reset first, the phase is set last.
  abbrev pub reset_workload : AgentStatus → AgentStatus
  reset_workload status = record status { ready_replicas = pos 0; persistence_bound = false }

  abbrev pub set_phase : String → AgentStatus → AgentStatus
  set_phase phase status = record status { phase = phase }

  unfoldable pub mark_config_failure : String → String → String → AgentStatus → AgentStatus
  unfolding set_condition
  mark_config_failure reason config_message ready_message status = set_phase "ConfigError" (
      set_condition ready condition_false reason ready_message (
        set_condition workload_ready condition_unknown "Unknown"
          "Workload state is unknown until configuration inputs resolve successfully"
          (set_condition persistence_ready condition_unknown "Unknown"
            "Persistence state is unknown until configuration inputs resolve successfully"
            (set_condition config_ready condition_false reason config_message
              (reset_workload status)))))

  -- What `markPersistenceFailure` does for an error other than drift.
  unfoldable pub mark_claim_failure : String → AgentStatus → AgentStatus
  unfolding set_condition
  mark_claim_failure message status = set_phase "StorageError" (
      set_condition ready condition_false "PersistentVolumeClaimReconcileFailed"
        "Hermes persistence could not be reconciled"
        (set_condition workload_ready condition_false waiting_for_persistence
          "Workload is waiting for the Hermes PVC to reconcile"
          (set_condition persistence_ready condition_false "PersistentVolumeClaimReconcileFailed"
            message (set_config_reconciled (reset_workload status)))))

  abbrev drift_reason : String
  drift_reason = "PersistentVolumeClaimSpecDrift"

  -- `errors.As` finds the drift error.
  unfoldable pub mark_persistence_failure : Error → AgentStatus → AgentStatus
  unfolding set_condition mark_claim_failure
  mark_persistence_failure (drifted d) status = set_phase "StorageError" (
      set_condition ready condition_false drift_reason
        "Hermes persistence does not match the requested immutable PVC settings"
        (set_condition workload_ready condition_unknown drift_reason
          "Workload state is unchanged, but the requested PVC spec cannot be applied in place"
          (set_condition persistence_ready condition_false drift_reason (error_text (drifted d))
            (record (set_config_reconciled (reset_workload status)) {
              persistent_volume_claim_drifted_fields = d.fields;
              persistent_volume_claim_remediation = d.remediation;
            }))))
  mark_persistence_failure (Error.other e) status = mark_claim_failure e status
  mark_persistence_failure (Error.not_found e) status = mark_claim_failure e status

  unfoldable pub mark_workload_failure : String → String → String → AgentStatus → AgentStatus
  unfolding set_condition
  mark_workload_failure reason workload_message ready_message status = set_phase "WorkloadError" (
      set_condition ready condition_false reason ready_message (
        set_condition workload_ready condition_false reason workload_message
          (set_config_reconciled (record status { ready_replicas = pos 0 }))))
