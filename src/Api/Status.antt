-- ===== src/Api/Status.antt =====
-- The status of a HermesAgent (api/v1/hermesagent_types.go).
use k8s_operator_hermes_agen.Common.{ℤ, String, Bool, Option, List}

-- metav1.ConditionStatus
pub data ConditionStatus : Type 0 where
  condition_true condition_false condition_unknown : ConditionStatus

-- metav1.Condition. The transition time is kept as its text.
pub record Condition : Type 0 where
  pub type : String
  pub status : ConditionStatus
  pub observed_generation : ℤ
  pub reason : String
  pub message : String
  pub last_transition_time : String

-- HermesAgentStatus
pub record AgentStatus : Type 0 where
  pub phase : String
  pub observed_generation : ℤ
  pub image : String
  pub config_hash : String
  pub ready_replicas : ℤ
  pub persistence_bound : Bool
  pub persistent_volume_claim_name : String
  pub persistent_volume_claim_drifted_fields : List String
  pub persistent_volume_claim_remediation : String
  pub service_name : String
  pub last_reconcile_time : Option String
  pub conditions : List Condition
