-- ===== src/Controller/View.antt =====
-- The view of the claim and the StatefulSet that the status is written from.
pub mod Ready
use k8s_operator_hermes_agen.Common.{
  ℤ, pos, ltb_ℤ, leb_ℤ, String, ◌==◌, ◌<>◌, Bool, true, false, ◌&&◌, Option, none, some, ok, err,
  if◌then◌else◌,
}
use k8s_operator_hermes_agen.Common.Show.{show_int}
use k8s_operator_hermes_agen.Api.{
  HermesAgent, AgentStatus, ConditionStatus, condition_true, condition_false,
}
use k8s_operator_hermes_agen.Settings.{persistence_enabled, persistent_volume_claim_name}
use k8s_operator_hermes_agen.Controller.Exec.{Error, not_found, other, drifted, Exec, pure, attempt}
use k8s_operator_hermes_agen.Controller.Client.{
  Key, agent_key, ConditionApi, Store, Claim, StatefulSet,
}
use k8s_operator_hermes_agen.Controller.Status.{
  persistence_ready, workload_ready, ready, waiting_for_persistence, populate_status_metadata,
  set_condition, set_config_reconciled, set_phase,
}

-- One condition of the view.
pub record Verdict : Type 0 where
  pub status : ConditionStatus
  pub reason : String
  pub message : String

-- `pvcKey`
abbrev pub claim_key : HermesAgent → Key
claim_key a = record { name = persistent_volume_claim_name a.name; namespace = a.namespace }

-- statusView
pub record StatusView : Type 0 where
  pub ready_replicas : ℤ
  pub persistence_bound : Bool
  pub persistence : Verdict
  pub workload : Verdict
  pub readiness : Verdict
  pub phase : String

-- What is known of the persistence when the StatefulSet is read.
pub record PersistenceView : Type 0 where
  pub bound : Bool
  pub verdict : Verdict

unfoldable pub persistence_reason : String → String
persistence_reason phase =
    if phase == "Bound"
    then "PersistentVolumeClaimBound"
    else if phase == "Lost"
    then "PersistentVolumeClaimLost"
    else "PersistentVolumeClaimPending"

unfoldable pub persistence_message : Claim → String
persistence_message claim =
    "PersistentVolumeClaim "
    <> claim.name
    <> (if claim.status.phase == "Bound"
        then " is bound"
        else if claim.status.phase == "Lost"
        then " is lost; inspect the storage backend and recreate the claim if needed"
        else " is waiting to bind; check storage class, capacity, and access modes")

unfoldable pub persistence_phase : String → String
persistence_phase phase = if phase == "Lost" then "StorageError" else "StoragePending"

-- A view in which the workload waits for the claim.
abbrev waiting_view : String → String → String → String → StatusView
waiting_view reason message workload_message phase = record {
  ready_replicas = pos 0;
  persistence_bound = false;
  persistence = record { status = condition_false; reason = reason; message = message };
  workload = record {
    status = condition_false;
    reason = waiting_for_persistence;
    message = workload_message;
  };
  readiness = record { status = condition_false; reason = reason; message = message };
  phase = phase;
}

unfoldable pub claim_missing_view : String → StatusView
claim_missing_view claim_name =
    waiting_view "PersistentVolumeClaimMissing"
      ("PersistentVolumeClaim " <> claim_name
        <> " has not been created yet; inspect reconcile errors and storage settings")
      "Workload is waiting for the Hermes PVC to be created and bound" "StoragePending"

unfoldable pub claim_unbound_view : Claim → StatusView
unfolding persistence_reason persistence_message persistence_phase
claim_unbound_view claim =
    waiting_view (persistence_reason claim.status.phase) (persistence_message claim)
      "Workload is waiting for the Hermes PVC to bind" (persistence_phase claim.status.phase)

unfoldable pub claim_bound : Claim → PersistenceView
claim_bound claim = record {
  bound = true;
  verdict = record {
    status = condition_true;
    reason = "PersistentVolumeClaimBound";
    message = "PersistentVolumeClaim " <> claim.name <> " is bound";
  };
}

unfoldable pub persistence_disabled : PersistenceView
persistence_disabled = record {
  bound = false;
  verdict = record {
    status = condition_true;
    reason = "PersistenceDisabled";
    message = "Persistence is disabled; Hermes is using ephemeral storage";
  };
}

-- A view in which the workload, and so the agent, is not ready.
abbrev pending_workload : PersistenceView → ℤ → String → String → StatusView
pending_workload p replicas reason message = record {
  ready_replicas = replicas;
  persistence_bound = p.bound;
  persistence = p.verdict;
  workload = record { status = condition_false; reason = reason; message = message };
  readiness = record { status = condition_false; reason = reason; message = message };
  phase = "WorkloadPending";
}

unfoldable pub stateful_set_missing_view : PersistenceView → String → StatusView
stateful_set_missing_view p name =
    pending_workload p (pos 0) "StatefulSetMissing"
      ("StatefulSet " <> name <> " has not been created yet; inspect earlier reconcile errors")

-- `desiredReplicas := int32(1); if sts.Spec.Replicas != nil { … }`
abbrev pub replicas_or_one : Option ℤ → ℤ
replicas_or_one none = pos 1
replicas_or_one (some n) = n

-- `ReadyReplicas >= desiredReplicas && ObservedGeneration >= Generation`, the test that the status
-- view and the cleanup of stale ConfigMaps both make
unfoldable pub stateful_set_ready : StatefulSet → Bool
stateful_set_ready s =
    leb_ℤ (replicas_or_one s.spec.replicas) s.status.ready_replicas
    && leb_ℤ s.generation s.status.observed_generation

abbrev replica_counts : StatefulSet → String
replica_counts s =
    "StatefulSet "
    <> s.name
    <> " has "
    <> show_int s.status.ready_replicas
    <> "/"
    <> show_int (replicas_or_one s.spec.replicas)
    <> " ready replicas"

unfoldable pub stateful_set_view : PersistenceView → StatefulSet → StatusView
unfolding stateful_set_ready
stateful_set_view p s =
    if stateful_set_ready s
    then record {
      ready_replicas = s.status.ready_replicas;
      persistence_bound = p.bound;
      persistence = p.verdict;
      workload = record {
        status = condition_true;
        reason = "StatefulSetReady";
        message = replica_counts s;
      };
      readiness = record {
        status = condition_true;
        reason = ready;
        message = "Hermes persistence and workload are ready";
      };
      phase = "Ready";
    }
    else if ltb_ℤ s.status.observed_generation s.generation
    then pending_workload p s.status.ready_replicas "StatefulSetRolloutPending" (
        "StatefulSet "
        <> s.name
        <> " rollout is pending: observed generation "
        <> show_int s.status.observed_generation
        <> " is behind desired generation "
        <> show_int s.generation)
    else pending_workload p s.status.ready_replicas "StatefulSetWaitingForReadyReplicas" (
        replica_counts s
        <> "; inspect pod events, image pulls, and probe failures if rollout stalls")

-- A NotFound gives a view; any other error is returned.
abbrev pub view_if_missing : {S : Type 0} → StatusView → Error → Exec S StatusView
view_if_missing v (not_found e) s = (ok v, s)
view_if_missing v (other e) s = (err (other e), s)
view_if_missing v (drifted d) s = (err (drifted d), s)

module _ {S : Type 0} (stateful_sets : Store StatefulSet S) where
  -- The second half of `readStatusView`.
  unfoldable pub read_workload_view : HermesAgent → PersistenceView → Exec S StatusView
  unfolding stateful_set_view stateful_set_missing_view
  read_workload_view a p =
      attempt (stateful_sets.get (agent_key a))
        (view_if_missing (stateful_set_missing_view p a.name)) λ s. pure (stateful_set_view p s)

module _ {S : Type 0} (claims : Store Claim S) (stateful_sets : Store StatefulSet S) where
  unfoldable pub read_status_view : HermesAgent → Exec S StatusView
  unfolding read_workload_view claim_missing_view claim_unbound_view claim_bound
      persistence_disabled
  read_status_view a =
      if persistence_enabled a
      then attempt (claims.get (claim_key a))
          (view_if_missing (claim_missing_view (persistent_volume_claim_name a.name)))
          (λ claim.
            if claim.status.phase == "Bound"
            then read_workload_view stateful_sets a (claim_bound claim)
            else pure (claim_unbound_view claim))
      else read_workload_view stateful_sets a persistence_disabled

module _ (api : ConditionApi) (now : String) where
  abbrev set_verdict : String → Verdict → AgentStatus → AgentStatus
  set_verdict type v = set_condition api now type v.status v.reason v.message

  -- The closure that `reconcileStatus` passes to `patchStatus`.
  unfoldable pub apply_status_view : HermesAgent → String → StatusView → AgentStatus → AgentStatus
  unfolding set_condition set_config_reconciled populate_status_metadata
  apply_status_view a config_hash v status = set_phase api now v.phase (
      set_verdict ready v.readiness (
        set_verdict workload_ready v.workload (
          set_verdict persistence_ready v.persistence (
            set_config_reconciled api now (record (populate_status_metadata a config_hash status) {
              ready_replicas = v.ready_replicas;
              persistence_bound = v.persistence_bound;
            })))))
