-- ===== src/Controller/Reconcile/Settled.antt =====
-- Writing a status that was just written.
use k8s_operator_hermes_agen.Common.{String, ◌≡◌, refl, true, some, ok, err, ap}
use k8s_operator_hermes_agen.Api.{
  HermesAgent, AgentStatus, condition_true, condition_false, condition_unknown,
}
use k8s_operator_hermes_agen.Config.{build_config_plan}
use k8s_operator_hermes_agen.Controller.Client.{AgentObject, IsConditionApi, Environment, agent_key}
use k8s_operator_hermes_agen.Controller.Status.{
  set_condition, set_config_reconciled, reset_workload, populate_status_metadata,
  mark_config_failure,
}
use k8s_operator_hermes_agen.Controller.Status.Settled.{state_all-again}
use k8s_operator_hermes_agen.Controller.View.{StatusView, read_status_view, apply_status_view}
use k8s_operator_hermes_agen.Controller.Patch.{
  updated, patch_latest, patch_status, patch_failure_status, return_status_failure,
}
use k8s_operator_hermes_agen.Controller.Reconcile.{
  config_failed, invalid_config, reconcile_status, reconcile_agent,
}

module _ {S : Type 0} (env : Environment S) where
  open env use {now}

  -- The agent with the status that `patchStatus` writes.
  abbrev pub written : (AgentStatus → AgentStatus) → AgentObject → AgentObject
  written mutate latest = record latest {
    status = record (updated env mutate latest) { last_reconcile_time = some now };
  }

  -- The same reconciler at another time.
  abbrev pub at : String → Environment S
  at later = record env { now = later }

module _ {S : Type 0} (env : Environment S) (law : IsConditionApi env.conditions)
    (equal_self : (status : AgentStatus) → env.equal_status status status ≡ true) where
  open env use {client, conditions, now}

  unfoldable observed : AgentObject → AgentStatus
  observed latest = record (latest.status) { observed_generation = latest.generation }

  applied-again :
      (later : String) (a : HermesAgent) (config_hash : String) (v : StatusView)
      (latest : AgentObject)
      → let o = written env (apply_status_view conditions now a config_hash v) latest in
        updated (at env later) (apply_status_view conditions later a config_hash v) o ≡ o.status
  unfolding apply_status_view populate_status_metadata set_config_reconciled set_condition observed
  applied-again later a config_hash v latest =
      let o = written env (apply_status_view conditions now a config_hash v) latest in
      ap {A = AgentStatus} (λ x. record x { phase = v.phase })
        (state_all-again conditions law
          (condition_true, "ConfigReconciled", "Configuration inputs resolved successfully")
          (v.persistence.status, v.persistence.reason, v.persistence.message)
          (v.workload.status, v.workload.reason, v.workload.message)
          (v.readiness.status, v.readiness.reason, v.readiness.message) now later
          (record (populate_status_metadata a config_hash (observed latest)) {
            ready_replicas = v.ready_replicas;
            persistence_bound = v.persistence_bound;
          })
          o.status refl refl)

  config_failed-again :
      (later : String) (a : HermesAgent) (reason config_message ready_message : String)
      (latest : AgentObject)
      → let o = written env (config_failed env a reason config_message ready_message) latest in
        updated
          (at env later)
          (config_failed (at env later) a reason config_message ready_message)
          o
        ≡ o.status
  unfolding mark_config_failure populate_status_metadata set_condition observed
  config_failed-again later a reason config_message ready_message latest =
      let o = written env (config_failed env a reason config_message ready_message) latest in
      ap {A = AgentStatus} (λ x. record x { phase = "ConfigError" })
        (state_all-again conditions law (condition_false, reason, config_message)
          (
            condition_unknown, "Unknown",
            "Persistence state is unknown until configuration inputs resolve successfully",
          )
          (
            condition_unknown, "Unknown",
            "Workload state is unknown until configuration inputs resolve successfully",
          )
          (condition_false, reason, ready_message) now later
          (reset_workload conditions now (populate_status_metadata a "" (observed latest))) o.status
          refl refl)

  -- `patchStatus` where the status that it would write stands there already.
  patch_status-same :
      (later : String) (a : HermesAgent) (mutate : AgentStatus → AgentStatus) (o : AgentObject)
      (s s' : S)
      → client.get_agent (agent_key a) s ≡ (ok o, s')
      → updated (at env later) mutate o ≡ o.status
      → patch_status (at env later) a mutate s ≡ (ok tt, s')
  unfolding patch_status patch_latest
  patch_status-same later a mutate o s s' got same = rw (got, same, equal_self o.status) refl

  -- Once `reconcileStatus` has written the status for a view, it writes nothing and records no event
  -- at a later time, and returns no error, as long as it sees the same view and reads the agent that it
  -- wrote. It is assumed that a status is semantically equal to itself, and of SetStatusCondition what
  -- is documented.
  pub reconcile_status-again :
      (later : String) (a : HermesAgent) (config_hash : String) (v : StatusView)
      (latest : AgentObject) (s s1 s2 : S)
      → read_status_view client.claims client.stateful_sets a s ≡ (ok v, s1)
      → client.get_agent (agent_key a) s1
        ≡ (ok (written env (apply_status_view conditions now a config_hash v) latest), s2)
      → reconcile_status (at env later) a config_hash s ≡ (ok tt, s2)
  unfolding reconcile_status
  reconcile_status-again later a config_hash v latest s s1 s2 seen got =
      rw
        (
          seen,
          patch_status-same later a (apply_status_view conditions later a config_hash v)
              (written env (apply_status_view conditions now a config_hash v) latest) s1 s2 got
              (applied-again later a config_hash v latest),
        )
        refl

  -- Once the status of an agent whose configuration is invalid says so, a later reconciliation of it
  -- writes nothing, records no event and returns no error, as long as it finds the agent that was
  -- written. It is assumed that a status is semantically equal to itself, and of SetStatusCondition
  -- what is documented.
  pub reconcile_agent_invalid-again :
      (later : String) (a : HermesAgent) (e : String) (latest : AgentObject) (s s' : S)
      → build_config_plan env.digest a ≡ err e
      → client.get_agent (agent_key a) s ≡ (
        ok (
            written env
              (config_failed env a "InvalidConfig" e "HermesAgent configuration is invalid")
              latest),
        s',
      )
      → reconcile_agent (at env later) a s ≡ (ok tt, s')
  unfolding reconcile_agent invalid_config return_status_failure patch_failure_status
  reconcile_agent_invalid-again later a e latest s s' invalid got =
      rw
        (
          invalid,
          patch_status-same later a _ _ s s' got (
              config_failed-again later a "InvalidConfig" e "HermesAgent configuration is invalid"
                latest),
        )
        refl
