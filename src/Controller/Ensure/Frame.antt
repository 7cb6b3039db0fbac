-- ===== src/Controller/Ensure/Frame.antt =====
-- Which calls the ensure-steps make: Gets, and writes of the agent's own objects.
pub mod Plans
use mathlib.Core.Path.{subst}
use k8s_operator_hermes_agen.Common.{
  ◌≡◌, refl, sym, ap, arith, Result-cases, String, Bool, true, false, not, none, some, List, [],
  ◌∷◌, All, Result, ok, err, Bool-cases, inl, inr,
}
use k8s_operator_hermes_agen.Api.{HermesAgent, PersistentVolumeClaimSpec}
use k8s_operator_hermes_agen.Settings.{
  persistent_volume_claim_name, persistence_enabled, persistence_size, service_enabled,
  network_policy_enabled, pod_disruption_budget_enabled,
}
use k8s_operator_hermes_agen.Snapshots.{ReferencedInputs}
use k8s_operator_hermes_agen.Config.{ResolvedConfigFile, ConfigPlan}
use k8s_operator_hermes_agen.Config.Plans.{OwnFile}
use k8s_operator_hermes_agen.Pod.{PodTemplateInputs}
use k8s_operator_hermes_agen.Objects.{Built, build_persistent_volume_claim}
use k8s_operator_hermes_agen.Controller.Exec.{
  Error, not_found, other, drifted, Exec, pure, raise, resume, lift, ◌>>=◌, ◌>>◌,
}
use k8s_operator_hermes_agen.Controller.Exec.Keeps.{
  Keeps, bind-Keeps, choose-Keeps, choose_by-Keeps,
}
use k8s_operator_hermes_agen.Controller.Inputs.{missing_is_none}
use k8s_operator_hermes_agen.Controller.View.{claim_key}
use k8s_operator_hermes_agen.Controller.Client.{
  Key, agent_key, Object, Store, Claim, IsOwnership, Environment,
}
use k8s_operator_hermes_agen.Controller.Ensure.{
  find, ensure_found, exists, claim_or_error, mutate_claim, mutate_config_map,
  reconcile_inline_config_map, reconcile_files, reconcile_generated_config_maps,
  reconcile_persistent_volume_claim, reconcile_stateful_set, reconcile_service,
  reconcile_network_policy, reconcile_pod_disruption_budget,
}
use k8s_operator_hermes_agen.Controller.Ensure.Control.{
  TakesControl, mutate_config_map-TakesControl, mutate_claim-TakesControl,
  mutate_stateful_set-TakesControl, mutate_service-TakesControl, mutate_network_policy-TakesControl,
  mutate_disruption_budget-TakesControl,
}
use k8s_operator_hermes_agen.Controller.Ensure.Cleanup.{find-Keeps, stale_key, cleanup-Keeps}

module _ {S : Type 0} (env : Environment S) (P : S → Type 0) (a : HermesAgent) where
  open env use {client, ownership}

  -- A write under the key keeps P if its closure makes the agent the controller and leaves the name.
  abbrev pub MayWrite : {Spec Status : Type 0} → Store (Object Spec Status) S → Key → Type 0
  MayWrite {Spec} {Status} store key =
      (mutate : Object Spec Status → Result Error (Object Spec Status))
      → TakesControl ownership a mutate
      → Keeps P (store.create_or_update key mutate)

  -- A deletion under the key keeps P where the object that was read there is the agent's.
  abbrev pub MayRemove : {Spec Status : Type 0} → Store (Object Spec Status) S → Key → Type 0
  MayRemove {Spec} {Status} store key =
      (o : Object Spec Status) (s s' : S)
      → store.get key s ≡ (ok o, s')
      → ownership.is_controlled_by o.owners a ≡ true
      → P s'
      → P (store.delete key s').1

  -- The calls that the agent is entitled to keep P: every Get; a write of an object of the agent's
  -- own name of its kind by which the agent becomes the controller; and the deletion of such an
  -- object that the agent controls.
  pub record OwnCallsKeep : Type 0 where
    pub config_map_reads : (key : Key) → Keeps P (client.config_maps.get key)
    pub secret_reads : (key : Key) → Keeps P (client.secrets.get key)
    pub claim_reads : (key : Key) → Keeps P (client.claims.get key)
    pub stateful_set_reads : (key : Key) → Keeps P (client.stateful_sets.get key)
    pub service_reads : (key : Key) → Keeps P (client.services.get key)
    pub network_policy_reads : (key : Key) → Keeps P (client.network_policies.get key)
    pub disruption_budget_reads : (key : Key) → Keeps P (client.disruption_budgets.get key)
    pub config_map_writes : (id : String) → MayWrite client.config_maps (stale_key env a P id)
    pub claim_writes : MayWrite client.claims (claim_key a)
    pub stateful_set_writes : MayWrite client.stateful_sets (agent_key a)
    pub service_writes : MayWrite client.services (agent_key a)
    pub network_policy_writes : MayWrite client.network_policies (agent_key a)
    pub disruption_budget_writes : MayWrite client.disruption_budgets (agent_key a)
    pub config_map_deletes : (id : String) → MayRemove client.config_maps (stale_key env a P id)
    pub service_deletes : MayRemove client.services (agent_key a)
    pub network_policy_deletes : MayRemove client.network_policies (agent_key a)
    pub disruption_budget_deletes : MayRemove client.disruption_budgets (agent_key a)

  ensure_some :
      {Spec Status : Type 0}
      → (store : Store (Object Spec Status) S) → (enabled : Bool) → (what : String)
      → (mutate : Object Spec Status → Result Error (Object Spec Status)) → (o : Object Spec Status)
      → (s s' : S) → store.get (agent_key a) s ≡ (ok o, s')
      → Keeps P (store.create_or_update (agent_key a) mutate)
      → MayRemove store (agent_key a)
      → P s'
      → P (ensure_found env a store enabled what mutate (some o) s').1
  ensure_some store enabled what mutate o s s' got writes removes p = elim (Bool-cases enabled) [
    | inr off ↦ elim (Bool-cases (ownership.is_controlled_by o.owners a)) [
      | inl mine ↦ rw (off, mine) (removes o s s' got mine p)
      | inr foreign ↦ rw (off, foreign) p
    ]
    | inl on ↦ elim (Bool-cases (ownership.is_controlled_by o.owners a)) [
      | inl mine ↦ rw (on, mine) (writes s' p)
      | inr foreign ↦ rw (on, foreign) p
    ]
  ]

  ensure_none :
      {Spec Status : Type 0}
      → (store : Store (Object Spec Status) S) → (enabled : Bool) → (what : String)
      → (mutate : Object Spec Status → Result Error (Object Spec Status))
      → Keeps P (store.create_or_update (agent_key a) mutate)
      → Keeps P (ensure_found env a store enabled what mutate none)
  ensure_none store enabled what mutate writes =
      choose-Keeps P (not enabled) (pure tt) _ (λ s p. p) writes

  after_find :
      {Spec Status : Type 0}
      → (store : Store (Object Spec Status) S) → (enabled : Bool) → (what : String)
      → (mutate : Object Spec Status → Result Error (Object Spec Status)) → (s : S)
      → (r : Result Error (Object Spec Status) × S) → store.get (agent_key a) s ≡ r
      → Keeps P (store.create_or_update (agent_key a) mutate)
      → MayRemove store (agent_key a)
      → P r.1
      → P
          (resume raise
            (ensure_found env a store enabled what mutate)
            (resume missing_is_none (λ o. pure (some o)) r.0 r.1).0
            (resume missing_is_none (λ o. pure (some o)) r.0 r.1).1).1
  after_find store enabled what mutate s (ok o, s') got writes removes p =
      ensure_some store enabled what mutate o s s' got writes removes p
  after_find store enabled what mutate s (err (not_found e), s') got writes removes p =
      ensure_none store enabled what mutate writes s' p
  after_find store enabled what mutate s (err (other e), s') got writes removes p = p
  after_find store enabled what mutate s (err (drifted d), s') got writes removes p = p

  ensure-Keeps :
      {Spec Status : Type 0}
      → (store : Store (Object Spec Status) S) → (enabled : Bool) → (what : String)
      → (mutate : Object Spec Status → Result Error (Object Spec Status))
      → Keeps P (store.get (agent_key a))
      → Keeps P (store.create_or_update (agent_key a) mutate)
      → MayRemove store (agent_key a)
      → Keeps P (find store (agent_key a) >>= ensure_found env a store enabled what mutate)
  ensure-Keeps store enabled what mutate reads writes removes s p =
      after_find store enabled what mutate s (store.get (agent_key a) s) refl writes removes
        (reads s p)

-- The steps, for an agent that is entitled to its calls.
module _ {S : Type 0} (env : Environment S) (law : IsOwnership env.ownership) (P : S → Type 0)
    (a : HermesAgent) (keeps : OwnCallsKeep env P a) where
  open env use {client, ownership}

  pub reconcile_stateful_set-Keeps :
      (inputs : PodTemplateInputs) → Keeps P (reconcile_stateful_set env a inputs)
  unfolding reconcile_stateful_set
  reconcile_stateful_set-Keeps inputs =
      keeps.stateful_set_writes _ (mutate_stateful_set-TakesControl ownership law a inputs)

  pub reconcile_service-Keeps : Keeps P (reconcile_service env a)
  unfolding reconcile_service
  reconcile_service-Keeps =
      ensure-Keeps env P a client.services (service_enabled a) "service" _
        (keeps.service_reads (agent_key a))
        (keeps.service_writes _ (mutate_service-TakesControl ownership law a)) keeps.service_deletes

  pub reconcile_network_policy-Keeps :
      (inputs : ReferencedInputs) → Keeps P (reconcile_network_policy env a inputs)
  unfolding reconcile_network_policy
  reconcile_network_policy-Keeps inputs =
      ensure-Keeps env P a client.network_policies (network_policy_enabled a) "networkpolicy" _
        (keeps.network_policy_reads (agent_key a))
        (keeps.network_policy_writes _ (mutate_network_policy-TakesControl ownership law a _))
        keeps.network_policy_deletes

  pub reconcile_pod_disruption_budget-Keeps : Keeps P (reconcile_pod_disruption_budget env a)
  unfolding reconcile_pod_disruption_budget
  reconcile_pod_disruption_budget-Keeps =
      ensure-Keeps env P a client.disruption_budgets (pod_disruption_budget_enabled a)
        "PodDisruptionBudget" _ (keeps.disruption_budget_reads (agent_key a))
        (keeps.disruption_budget_writes _ (mutate_disruption_budget-TakesControl ownership law a))
        keeps.disruption_budget_deletes
