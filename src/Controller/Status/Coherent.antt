-- ===== src/Controller/Status/Coherent.antt =====
-- What the writers of the status leave in its conditions.
use k8s_operator_hermes_agen.Common.{
  String, ◌≡◌, refl, ◌≢◌, pos, false, some, List, arith, eq_iff, sym, ◌∙◌,
}
use k8s_operator_hermes_agen.Api.{
  AgentStatus, Condition, ConditionStatus, condition_true, condition_false, condition_unknown,
}
use k8s_operator_hermes_agen.Controller.Exec.{Error, not_found, other, drifted}
use k8s_operator_hermes_agen.Controller.Client.{ConditionApi, IsConditionApi}
use k8s_operator_hermes_agen.Controller.Status.{
  config_ready, persistence_ready, workload_ready, ready, set_condition, set_config_reconciled,
  mark_config_failure, mark_claim_failure, mark_persistence_failure, mark_workload_failure,
}

-- The condition of a type has a status and a reason.
abbrev pub HasCondition : ConditionApi → AgentStatus → String → ConditionStatus → String → Type 0
HasCondition api s type status reason =
    (c : Condition) × (api.find s.conditions type ≡ some c)
    × (c.status ≡ status)
    × (c.reason ≡ reason)

module _ (api : ConditionApi) (law : IsConditionApi api) (now : String) where
  pub set_condition_self :
      (type : String) (status : ConditionStatus) (reason message : String) (s : AgentStatus)
      → HasCondition api (set_condition api now type status reason message s) type status reason
  unfolding set_condition
  set_condition_self type status reason message s =
      let (c, found, same, why, _, _) = law.find-set_self s.conditions (record {
        type = type;
        status = status;
        observed_generation = s.observed_generation;
        reason = reason;
        message = message;
        last_transition_time = now;
      }) in
      (c, found, same, why)

  pub set_condition_other :
      (type asked : String) (status st : ConditionStatus) (reason message why : String)
      (s : AgentStatus)
      → type ≢ asked
      → HasCondition api s asked st why
      → HasCondition api (set_condition api now type status reason message s) asked st why
  unfolding set_condition
  set_condition_other type asked status st reason message why s ne (c, found, same, r) =
      (c, law.find-set_ne s.conditions _ asked ne ∙ found, same, r)

pub ready_ne_config : ready ≢ config_ready
ready_ne_config = ground (arith, eq_iff ready config_ready)

pub ready_ne_persistence : ready ≢ persistence_ready
ready_ne_persistence = ground (arith, eq_iff ready persistence_ready)

pub ready_ne_workload : ready ≢ workload_ready
ready_ne_workload = ground (arith, eq_iff ready workload_ready)

pub workload_ne_config : workload_ready ≢ config_ready
workload_ne_config = ground (arith, eq_iff workload_ready config_ready)

pub workload_ne_persistence : workload_ready ≢ persistence_ready
workload_ne_persistence = ground (arith, eq_iff workload_ready persistence_ready)

pub persistence_ne_config : persistence_ready ≢ config_ready
persistence_ne_config = ground (arith, eq_iff persistence_ready config_ready)

pub ruleset distinct = (
  ready_ne_config, ready_ne_persistence, ready_ne_workload, workload_ne_config,
  workload_ne_persistence, persistence_ne_config,
)

module _ (api : ConditionApi) (law : IsConditionApi api) (now : String) where
  -- The four conditions of a status, by status and reason.
  abbrev pub HasConditions :
      AgentStatus
      → ConditionStatus × String
      → ConditionStatus × String
      → ConditionStatus × String
      → ConditionStatus × String
      → Type 0
  HasConditions s c p w r =
      HasCondition api s config_ready c.0 c.1
      × HasCondition api s persistence_ready p.0 p.1
      × HasCondition api s workload_ready w.0 w.1
      × HasCondition api s ready r.0 r.1

  -- Whatever the four settings are and what stood there before, each is there afterwards.
  four_conditions :
      (c p w r : ConditionStatus) (cr cm pr pm wr wm rr rm : String) (s : AgentStatus)
      → HasConditions
          (set_condition api now ready r rr rm (
            set_condition api now workload_ready w wr wm (
              set_condition api now persistence_ready p pr pm
                (set_condition api now config_ready c cr cm s))))
          (c, cr)
          (p, pr)
          (w, wr)
          (r, rr)
  four_conditions c p w r cr cm pr pm wr wm rr rm s = (
    search (set_condition_self api law now, set_condition_other api law now, distinct),
    search (set_condition_self api law now, set_condition_other api law now, distinct),
    search (set_condition_self api law now, set_condition_other api law now, distinct),
    search (set_condition_self api law now),
  )

  keeps_persistence :
      (c w r : ConditionStatus) (cr cm wr wm rr rm : String) (p : ConditionStatus) (why : String)
      (s : AgentStatus)
      → HasCondition api s persistence_ready p why
      → HasCondition api
          (set_condition api now ready r rr rm (
            set_condition api now workload_ready w wr wm
              (set_condition api now config_ready c cr cm s)))
          persistence_ready
          p
          why
  keeps_persistence c w r cr cm wr wm rr rm p why s h =
      let s1 = set_condition api now config_ready c cr cm s in
      let s2 = set_condition api now workload_ready w wr wm s1 in
      set_condition_other api law now _ _ _ _ _ _ _ s2 ready_ne_persistence (
        set_condition_other api law now _ _ _ _ _ _ _ s1 workload_ne_persistence
          (set_condition_other api law now _ _ _ _ _ _ _ s (λ e. persistence_ne_config (sym e)) h))

  -- A failure of the configuration leaves ConfigReady False with the reason, PersistenceReady and
  -- WorkloadReady Unknown, Ready False with the reason, the phase ConfigError, no ready replica and
  -- no bound claim.
  pub mark_config_failure-HasConditions :
      (reason config_message ready_message : String) (s : AgentStatus)
      → let s' = mark_config_failure api now reason config_message ready_message s in
        HasConditions s'
          (condition_false, reason)
          (condition_unknown, "Unknown")
          (condition_unknown, "Unknown")
          (condition_false, reason)
        × (s'.phase ≡ "ConfigError")
        × (s'.ready_replicas ≡ pos 0)
        × (s'.persistence_bound ≡ false)
  unfolding mark_config_failure
  mark_config_failure-HasConditions reason config_message ready_message s = (
    four_conditions _ _ _ _ _ _ _ _ _ _ _ _
        (record s { ready_replicas = pos 0; persistence_bound = false }),
    refl,
    refl,
    refl,
  )

  -- The reason and the workload's condition that a persistence failure leaves: drift is told apart.
  abbrev pub failure_reason : Error → String
  failure_reason (drifted d) = "PersistentVolumeClaimSpecDrift"
  failure_reason (not_found e) = "PersistentVolumeClaimReconcileFailed"
  failure_reason (other e) = "PersistentVolumeClaimReconcileFailed"

  abbrev pub workload_after : Error → ConditionStatus × String
  workload_after (drifted d) = (condition_unknown, "PersistentVolumeClaimSpecDrift")
  workload_after (not_found e) = (condition_false, "WaitingForPersistence")
  workload_after (other e) = (condition_false, "WaitingForPersistence")

  abbrev pub drifted_fields : Error → List String → List String
  drifted_fields (drifted d) before = d.fields
  drifted_fields (not_found e) before = before
  drifted_fields (other e) before = before

  -- A failure of the persistence leaves ConfigReady True, PersistenceReady and Ready False with the
  -- failure's reason, WorkloadReady Unknown on drift and False otherwise, the phase StorageError, and
  -- on drift the drifted fields.
  pub mark_persistence_failure-HasConditions :
      (e : Error) (s : AgentStatus)
      → let s' = mark_persistence_failure api now e s in
        HasConditions s'
          (condition_true, "ConfigReconciled")
          (condition_false, failure_reason e)
          (workload_after e)
          (condition_false, failure_reason e)
        × (s'.phase ≡ "StorageError")
        × (s'.ready_replicas ≡ pos 0)
        × (s'.persistence_bound ≡ false)
        × (s'.persistent_volume_claim_drifted_fields
            ≡ drifted_fields e s.persistent_volume_claim_drifted_fields)
  unfolding mark_persistence_failure mark_claim_failure set_config_reconciled
  mark_persistence_failure-HasConditions (drifted d) s = (
    search (set_condition_self api law now, set_condition_other api law now, distinct),
    refl,
    refl,
    refl,
    refl,
  )
  mark_persistence_failure-HasConditions (not_found e) s = (
    four_conditions _ _ _ _ _ _ _ _ _ _ _ _
        (record s { ready_replicas = pos 0; persistence_bound = false }),
    refl,
    refl,
    refl,
    refl,
  )
  mark_persistence_failure-HasConditions (other e) s = (
    four_conditions _ _ _ _ _ _ _ _ _ _ _ _
        (record s { ready_replicas = pos 0; persistence_bound = false }),
    refl,
    refl,
    refl,
    refl,
  )

  -- A failure of the workload leaves ConfigReady True, WorkloadReady and Ready False with the reason,
  -- the phase WorkloadError, and PersistenceReady as it was.
  pub mark_workload_failure-HasConditions :
      (reason workload_message ready_message why : String) (p : ConditionStatus) (s : AgentStatus)
      → HasCondition api s persistence_ready p why
      → let s' = mark_workload_failure api now reason workload_message ready_message s in
        HasConditions s'
          (condition_true, "ConfigReconciled")
          (p, why)
          (condition_false, reason)
          (condition_false, reason)
        × (s'.phase ≡ "WorkloadError")
        × (s'.ready_replicas ≡ pos 0)
        × (s'.persistence_bound ≡ s.persistence_bound)
  unfolding mark_workload_failure set_config_reconciled
  mark_workload_failure-HasConditions reason workload_message ready_message why p s h = (
    (
      search (set_condition_self api law now, set_condition_other api law now, distinct),
      keeps_persistence _ _ _ _ _ _ _ _ _ p why (record s { ready_replicas = pos 0 }) h,
      search (set_condition_self api law now, set_condition_other api law now, distinct),
      search (set_condition_self api law now),
    ),
    refl,
    refl,
    refl,
  )
