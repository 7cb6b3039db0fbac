-- ===== src/Controller/Client.antt =====
-- The foreign code that the reconciler calls: the API client (sigs.k8s.io/controller-runtime), owner
-- references, the condition helpers and the comparison of statuses (k8s.io/apimachinery), and the
-- event recorder. Each is a field of a record that the reconciler takes as a parameter.
use k8s_operator_hermes_agen.Common.{
  ℤ, String, ◌≡◌, ◌≢◌, Bool, true, Option, some, List, StringMap, Result, ok,
}
use k8s_operator_hermes_agen.Api.{
  Bytes, ConfigMapContents, SecretContents, PersistentVolumeClaimSpec, StatefulSetSpec, ServiceSpec,
  NetworkPolicySpec, PodDisruptionBudgetSpec, HermesAgent, Condition, AgentStatus,
}
use k8s_operator_hermes_agen.Config.{HashPayload}
use k8s_operator_hermes_agen.Controller.Exec.{Error, Exec}

pub record Key : Type 0 where
  pub name : String
  pub namespace : String

-- `client.ObjectKeyFromObject(agent)`, the key of all objects that are named like the agent
abbrev pub agent_key : HermesAgent → Key
agent_key a = record { name = a.name; namespace = a.namespace }

-- metav1.OwnerReference
pub record OwnerReference : Type 0 where
  pub kind : String
  pub name : String
  pub uid : String
  pub controller : Bool

-- The metadata that the reconciler reads or sets, the spec (or contents), and the status.
pub record Object (Spec Status : Type 0) : Type 0 where
  pub name : String
  pub namespace : String
  pub generation : ℤ
  pub labels : StringMap
  pub annotations : StringMap
  pub owners : List OwnerReference
  pub spec : Spec
  pub status : Status

-- appsv1.StatefulSetStatus
pub record StatefulSetStatus : Type 0 where
  pub ready_replicas : ℤ
  pub observed_generation : ℤ

-- corev1.PersistentVolumeClaimStatus
pub record ClaimStatus : Type 0 where
  pub phase : String

abbrev pub ConfigMap : Type 0
ConfigMap = Object ConfigMapContents (Unit {0})

abbrev pub Secret : Type 0
Secret = Object SecretContents (Unit {0})

abbrev pub Claim : Type 0
Claim = Object PersistentVolumeClaimSpec ClaimStatus

abbrev pub StatefulSet : Type 0
StatefulSet = Object StatefulSetSpec StatefulSetStatus

abbrev pub Service : Type 0
Service = Object ServiceSpec (Unit {0})

abbrev pub NetworkPolicy : Type 0
NetworkPolicy = Object NetworkPolicySpec (Unit {0})

abbrev pub DisruptionBudget : Type 0
DisruptionBudget = Object PodDisruptionBudgetSpec (Unit {0})

-- A HermesAgent with its generation and status, as `patchStatus` gets it.
pub record AgentObject : Type 0 where
  pub agent : HermesAgent
  pub generation : ℤ
  pub status : AgentStatus

-- The calls for one kind of object. `create_or_update` is controllerutil.CreateOrUpdate: it hands
-- the closure the object under the key, or a new one with only its name and namespace.
pub record Store (Obj S : Type 0) : Type 0 where
  pub get : Key → Exec S Obj
  pub create_or_update : Key → (Obj → Result Error Obj) → Exec S (Unit {0})
  pub delete : Key → Exec S (Unit {0})

-- corev1.Event, as the recorder takes it
pub record Event : Type 0 where
  pub type : String
  pub reason : String
  pub message : String

-- The API client and the recorder; `patch_status` gives the status of the server's response, which
-- Patch stores in the object that it is given; `recorder` is none for a nil Recorder.
pub record Client (S : Type 0) : Type 0 where
  pub config_maps : Store ConfigMap S
  pub secrets : Store Secret S
  pub claims : Store Claim S
  pub stateful_sets : Store StatefulSet S
  pub services : Store Service S
  pub network_policies : Store NetworkPolicy S
  pub disruption_budgets : Store DisruptionBudget S
  pub get_agent : Key → Exec S AgentObject
  pub list_agents : String → Exec S (List HermesAgent)
  pub patch_status : AgentObject → AgentStatus → Exec S AgentStatus
  pub recorder : Option (HermesAgent → Event → S → S)

-- controllerutil.SetControllerReference and metav1.IsControlledBy
pub record Ownership : Type 0 where
  pub set_controller_reference :
      HermesAgent → List OwnerReference → Result Error (List OwnerReference)
  pub is_controlled_by : List OwnerReference → HermesAgent → Bool

-- Their documented behaviour: a reference that was set makes the agent the controller, and setting
-- it where it is the controller already changes nothing.
pub record IsOwnership (o : Ownership) : Type 0 where
  pub set_controls :
      (a : HermesAgent) (owners owners' : List OwnerReference)
      → o.set_controller_reference a owners ≡ ok owners'
      → o.is_controlled_by owners' a ≡ true
  pub set_again :
      (a : HermesAgent) (owners : List OwnerReference)
      → o.is_controlled_by owners a ≡ true
      → o.set_controller_reference a owners ≡ ok owners

-- meta.FindStatusCondition and meta.SetStatusCondition
pub record ConditionApi : Type 0 where
  pub find : List Condition → String → Option Condition
  pub set : List Condition → Condition → List Condition

-- Their documented behaviour: the condition of the new one's type takes its status, reason, message
-- and generation; the others stay; and a condition that has them already is left as it is, with the
-- time of its last transition.
pub record IsConditionApi (api : ConditionApi) : Type 0 where
  pub find-set_self :
      (cs : List Condition) (c : Condition)
      → (c' : Condition) × (api.find (api.set cs c) c.type ≡ some c')
        × (c'.status ≡ c.status)
        × (c'.reason ≡ c.reason)
        × (c'.message ≡ c.message)
        × (c'.observed_generation ≡ c.observed_generation)
  pub find-set_ne :
      (cs : List Condition) (c : Condition) (type : String)
      → c.type ≢ type
      → api.find (api.set cs c) type ≡ api.find cs type
  pub set_same :
      (cs : List Condition) (c c' : Condition)
      → api.find cs c.type ≡ some c'
      → c'.status ≡ c.status
      → c'.reason ≡ c.reason
      → c'.message ≡ c.message
      → c'.observed_generation ≡ c.observed_generation
      → api.set cs c ≡ cs

-- All that the reconciler takes as given. `equal_status` is apiequality.Semantic.DeepEqual on
-- statuses; `now` is the clock, one reading for each handled request. `digest` is described in
-- `Config`, `yaml` in `Backend`, `parse_quantity` in `Objects`.
pub record Environment (S : Type 0) : Type 0 where
  pub client : Client S
  pub ownership : Ownership
  pub conditions : ConditionApi
  pub equal_status : AgentStatus → AgentStatus → Bool
  pub digest : HashPayload → String
  pub yaml : Bytes → Option String
  pub parse_quantity : String → Result String String
  pub now : String
