-- ===== src/Controller/Reconcile/Gates.antt =====
-- What stands between a request and a write of anything but the status.
use k8s_operator_hermes_agen.Common.{◌≡◌, ◌≢◌, refl, String, false, Result, ok, err, is_empty}
use k8s_operator_hermes_agen.Api.{HermesAgent, AgentStatus}
use k8s_operator_hermes_agen.Snapshots.{ReferencedInputs}
use k8s_operator_hermes_agen.Config.{ConfigPlan, build_config_plan}
use k8s_operator_hermes_agen.Controller.Exec.{Error, Exec, resume}
use k8s_operator_hermes_agen.Controller.Exec.Keeps.{Keeps, attempt-Keeps}
use k8s_operator_hermes_agen.Controller.Client.{Environment}
use k8s_operator_hermes_agen.Controller.Patch.Keeps.{
  StatusKeeps, patch_failure_status-Keeps, return_error_with_status-Keeps,
}
use k8s_operator_hermes_agen.Controller.Patch.{return_status_failure, return_error_with_status}
use k8s_operator_hermes_agen.Controller.Ensure.{
  reconcile_generated_config_maps, reconcile_persistent_volume_claim,
}
use k8s_operator_hermes_agen.Controller.Inputs.{
  missing_reference_messages, resolve_referenced_inputs,
}
use k8s_operator_hermes_agen.Controller.Reconcile.{
  apply_plan, invalid_config, inputs_missing, inputs_unread, reconcile_inputs, reconcile_agent,
  with_valid_config,
}

module _ {S : Type 0} (env : Environment S) (P : S → Type 0) (keeps : StatusKeeps env P) where
  open env use {client}

  -- A reconciliation of an agent whose configuration is invalid writes the status and events, and
  -- nothing else: what these keep, it keeps.
  pub reconcile_agent_invalid-Keeps :
      (a : HermesAgent) (e : String)
      → build_config_plan env.digest a ≡ err e
      → Keeps P (reconcile_agent env a)
  unfolding reconcile_agent invalid_config return_status_failure
  reconcile_agent_invalid-Keeps a e invalid =
      rw (invalid) (patch_failure_status-Keeps env P keeps a _ _ _)

  after_reads :
      (a : HermesAgent) (s : S) (r : Result Error ReferencedInputs × S)
      → resolve_referenced_inputs client.config_maps client.secrets a s ≡ r
      → ((inputs : ReferencedInputs) (s s' : S)
          → P s
          → resolve_referenced_inputs client.config_maps client.secrets a s ≡ (ok inputs, s')
          → is_empty (missing_reference_messages inputs) ≡ false)
      → P s
      → P r.1
      → P (resume (inputs_unread env a) (reconcile_inputs env a) r.0 r.1).1
  unfolding inputs_unread inputs_missing reconcile_inputs return_status_failure
  after_reads a s (err e, s') got missing before p =
      return_error_with_status-Keeps env P keeps a _ _ _ s' p
  after_reads a s (ok inputs, s') got missing before p =
      rw (missing inputs s s' before got) (patch_failure_status-Keeps env P keeps a _ _ _ s' p)

  with_valid_config-Keeps :
      (a : HermesAgent) (plan : Result String ConfigPlan)
      → Keeps P (resolve_referenced_inputs client.config_maps client.secrets a)
      → ((inputs : ReferencedInputs) (s s' : S)
          → P s
          → resolve_referenced_inputs client.config_maps client.secrets a s ≡ (ok inputs, s')
          → is_empty (missing_reference_messages inputs) ≡ false)
      → Keeps P (with_valid_config env a plan)
  unfolding invalid_config return_status_failure
  with_valid_config-Keeps a (err e) reads missing s p =
      patch_failure_status-Keeps env P keeps a _ _ _ s p
  with_valid_config-Keeps a (ok plan) reads missing s p =
      after_reads a s (resolve_referenced_inputs client.config_maps client.secrets a s) refl missing
        p (reads s p)

  -- A step that fails is the last one.
  stops-Keeps :
      (a : HermesAgent) (operation : String) (failed : Error → AgentStatus → AgentStatus)
      (rest : Exec S (Unit {0})) (r : Result Error (Unit {0}) × S)
      → r.0 ≢ ok tt
      → P r.1
      → P
          (resume
            (λ e. return_error_with_status env a operation e (failed e))
            (λ u. rest)
            r.0
            r.1).1
  stops-Keeps a operation failed rest (ok tt, s) fails p = absurd (fails refl)
  stops-Keeps a operation failed rest (err e, s) fails p =
      return_error_with_status-Keeps env P keeps a operation e (failed e) s p

  -- While a referenced input is missing, or the references cannot be read, only the status and events
  -- are written: a property of the state under which the inputs that are read always lack something
  -- holds afterwards if the writes of the status and events and the reading of the inputs keep it.
  pub reconcile_agent_missing-Keeps :
      (a : HermesAgent)
      → Keeps P (resolve_referenced_inputs client.config_maps client.secrets a)
      → ((inputs : ReferencedInputs) (s s' : S)
          → P s
          → resolve_referenced_inputs client.config_maps client.secrets a s ≡ (ok inputs, s')
          → is_empty (missing_reference_messages inputs) ≡ false)
      → Keeps P (reconcile_agent env a)
  unfolding reconcile_agent invalid_config return_status_failure inputs_unread inputs_missing
      reconcile_inputs
  reconcile_agent_missing-Keeps a reads missing =
      with_valid_config-Keeps a (build_config_plan env.digest a) reads missing

  -- While the claim cannot be brought to what is asked, nothing past it is touched: a property that
  -- excludes the success of the step of the claim holds after the steps of a valid plan if the
  -- steps of the generated ConfigMaps and of the claim and the writes of the status keep it.
  pub apply_plan_without_claim-Keeps :
      (a : HermesAgent) (inputs : ReferencedInputs) (plan : ConfigPlan)
      → Keeps P (reconcile_generated_config_maps env a plan)
      → Keeps P (reconcile_persistent_volume_claim env a)
      → ((s : S) → P s → (reconcile_persistent_volume_claim env a s).0 ≢ ok tt)
      → Keeps P (apply_plan env a inputs plan)
  unfolding apply_plan
  apply_plan_without_claim-Keeps a inputs plan maps claim fails =
      attempt-Keeps P (reconcile_generated_config_maps env a plan) _ _ maps
        (λ e. return_error_with_status-Keeps env P keeps a "reconcile configmap" e _)
        (λ u s p.
          stops-Keeps a _ _ _ (reconcile_persistent_volume_claim env a s) (fails s p) (claim s p))
