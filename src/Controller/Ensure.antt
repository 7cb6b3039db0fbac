-- ===== src/Controller/Ensure.antt =====
-- The managed objects: what is written to each, and when one is deleted.
pub mod Owned
pub mod Converge
pub mod Cleanup
pub mod Rollout
pub mod Claims
pub mod Control
pub mod Frame
pub mod Settled
use k8s_operator_hermes_agen.Common.{
  pos, eqb_ℤ, String, ◌==◌, ◌<>◌, Bool, not, ◌||◌, Option, none, some, List, [], ◌∷◌, any, Result,
  ok, err, if◌then◌else◌,
}
use k8s_operator_hermes_agen.Api.{
  HermesAgent, PersistentVolumeClaimSpec, ServicePort, NetworkPolicySpec,
}
use k8s_operator_hermes_agen.Settings.{
  merge_string_maps, resource_labels, generated_config_map_name, persistence_enabled,
  service_enabled, network_policy_enabled, pod_disruption_budget_enabled,
}
use k8s_operator_hermes_agen.Snapshots.{ReferencedInputs}
use k8s_operator_hermes_agen.Config.{ResolvedConfigFile, ConfigPlan}
use k8s_operator_hermes_agen.Backend.{effective_terminal_backend}
use k8s_operator_hermes_agen.Policy.{build_network_policy}
use k8s_operator_hermes_agen.Pod.{PodTemplateInputs, build_stateful_set}
use k8s_operator_hermes_agen.Objects.{
  Built, build_service, build_pod_disruption_budget, build_persistent_volume_claim,
}
use k8s_operator_hermes_agen.Controller.Exec.{
  Error, not_found, other, drifted, Exec, pure, raise, lift, attempt, ◌>>=◌, ◌>>◌,
}
use k8s_operator_hermes_agen.Controller.Client.{
  Key, agent_key, Object, Store, ConfigMap, Claim, StatefulSet, Service, NetworkPolicy,
  DisruptionBudget, Ownership, Environment,
}
use k8s_operator_hermes_agen.Controller.Inputs.{missing_is_none}
use k8s_operator_hermes_agen.Controller.Drift.{
  persistent_volume_claim_immutable_field_drift, new_persistent_volume_claim_spec_drift_error,
}
use k8s_operator_hermes_agen.Controller.View.{stateful_set_ready}

-- The closures that `CreateOrUpdate` applies to the object that it found or made.
module _ (own : Ownership) (a : HermesAgent) where
  -- The last step of each: `return controllerutil.SetControllerReference(agent, object, scheme)`.
  unfoldable pub take_control :
      {Spec Status : Type 0} → Object Spec Status → Result Error (Object Spec Status)
  take_control o = elim (own.set_controller_reference a o.owners) [
    | err e ↦ err e
    | ok owners ↦ ok (record o { owners = owners })
  ]

  unfoldable pub mutate_config_map : ResolvedConfigFile → ConfigMap → Result Error ConfigMap
  unfolding take_control
  mutate_config_map file m = take_control (record m {
    labels = merge_string_maps m.labels (resource_labels a);
    spec = record { text = (file.source_key, file.content) ∷ []; binary = m.spec.binary };
  })

  abbrev pub no_drift : List String → Bool
  no_drift [] = Bool.true
  no_drift (x ∷ xs) = Bool.false

  abbrev pub labelled_claim : Built PersistentVolumeClaimSpec → Claim → Claim
  labelled_claim desired c = record c { labels = merge_string_maps c.labels desired.labels }

  abbrev pub resized_claim : Built PersistentVolumeClaimSpec → Claim → Claim
  resized_claim desired c = record (labelled_claim desired c) {
    spec = record (c.spec) { requests = desired.spec.requests };
  }

  -- `exists` is what the Get before found.
  unfoldable pub mutate_claim : Bool → Built PersistentVolumeClaimSpec → Claim → Result Error Claim
  unfolding take_control
  mutate_claim exists desired c =
      let labelled = labelled_claim desired c in
      let drift = persistent_volume_claim_immutable_field_drift a c.spec desired.spec in
      if not exists
      then take_control (record labelled { spec = desired.spec })
      else if not (no_drift drift)
      then err (drifted (new_persistent_volume_claim_spec_drift_error a c.name drift))
      else take_control (resized_claim desired c)

  unfoldable pub mutate_stateful_set : PodTemplateInputs → StatefulSet → Result Error StatefulSet
  unfolding take_control
  mutate_stateful_set inputs s = take_control (record s {
    labels = merge_string_maps s.labels (resource_labels a);
    spec = build_stateful_set a inputs;
  })

  unfoldable pub mutate_disruption_budget : DisruptionBudget → Result Error DisruptionBudget
  unfolding take_control
  mutate_disruption_budget b =
      let desired = build_pod_disruption_budget a in
      take_control
        (record b { labels = merge_string_maps b.labels desired.labels; spec = desired.spec })

  -- The node port of the one port that there was is kept for the types that have one.
  abbrev keep_node_port : List ServicePort → List ServicePort → List ServicePort
  keep_node_port (old ∷ []) (new ∷ []) =
      if eqb_ℤ old.node_port (pos 0)
      then new ∷ []
      else record new { node_port = old.node_port } ∷ []
  keep_node_port _ ports = ports

  abbrev has_node_port : String → Bool
  has_node_port type = type == "NodePort" || type == "LoadBalancer"

  abbrev pub updated_service : Service → Service
  updated_service s =
      let desired = build_service a in
      record s {
        labels = merge_string_maps s.labels desired.labels;
        annotations = merge_string_maps [] desired.annotations;
        spec = record {
          type = desired.spec.type;
          selector = desired.spec.selector;
          ports =
              if has_node_port desired.spec.type
              then keep_node_port s.spec.ports desired.spec.ports
              else desired.spec.ports;
        };
      }

  unfoldable pub mutate_service : Service → Result Error Service
  unfolding take_control
  mutate_service s = take_control (updated_service s)

  unfoldable pub mutate_network_policy :
      NetworkPolicySpec → NetworkPolicy → Result Error NetworkPolicy
  unfolding take_control
  mutate_network_policy desired p =
      take_control
        (record p { labels = merge_string_maps p.labels (resource_labels a); spec = desired })

-- `if err := r.Get(…); err != nil { if !IsNotFound(err) { return err }; exists = false }`
abbrev pub find : {S Obj : Type 0} → Store Obj S → Key → Exec S (Option Obj)
find store key = attempt (store.get key) missing_is_none (λ o. pure (some o))

module _ {S : Type 0} (env : Environment S) (a : HermesAgent) where
  open env use {client, ownership}

  abbrev owned : {Spec Status : Type 0} → Object Spec Status → Bool
  owned o = ownership.is_controlled_by o.owners a

  abbrev NoValue : Type 0
  NoValue = Unit {0}

  -- `if err := r.Delete(…); err != nil && !IsNotFound(err) { return err }`
  abbrev ignore_missing : Error → Exec S NoValue
  ignore_missing (not_found e) s = (ok tt, s)
  ignore_missing (other e) s = (err (other e), s)
  ignore_missing (drifted d) s = (err (drifted d), s)

  -- A stale ConfigMap is deleted if the agent controls it.
  abbrev delete_owned_config_map : Key → Option ConfigMap → Exec S NoValue
  delete_owned_config_map key none = pure tt
  delete_owned_config_map key (some m) =
      if not (owned m) then pure tt else attempt (client.config_maps.delete key) ignore_missing pure

  -- The loop over the two generated names.
  unfoldable pub delete_stale_config_maps : List String → List String → Exec S NoValue
  delete_stale_config_maps desired [] = pure tt
  delete_stale_config_maps desired (id ∷ ids) =
      let name = generated_config_map_name a.name id in
      let key : Key = record { name = name; namespace = a.namespace } in
      (if any (λ d. name == d) desired
        then pure tt
        else find client.config_maps key >>= delete_owned_config_map key)
      >> delete_stale_config_maps desired ids

  abbrev cleanup_with : List String → Option StatefulSet → Exec S NoValue
  cleanup_with desired none = pure tt
  cleanup_with desired (some s) =
      if not (stateful_set_ready s)
      then pure tt
      else delete_stale_config_maps desired ("config" ∷ "gateway-config" ∷ [])

  unfoldable pub cleanup_stale_generated_config_maps : List String → Exec S NoValue
  unfolding delete_stale_config_maps
  cleanup_stale_generated_config_maps desired =
      find client.stateful_sets (agent_key a) >>= cleanup_with desired

  unfoldable pub reconcile_inline_config_map : ResolvedConfigFile → Exec S NoValue
  reconcile_inline_config_map file =
      client.config_maps.create_or_update
        (record { name = file.config_map_name; namespace = a.namespace })
        (mutate_config_map ownership a file)

  -- The loop over the files; `desired` are the names that were written.
  unfoldable pub reconcile_files : List String → List ResolvedConfigFile → Exec S (List String)
  unfolding reconcile_inline_config_map
  reconcile_files desired [] = pure desired
  reconcile_files desired (file ∷ files) =
      let skipped = reconcile_files desired files in
      let written = reconcile_files (file.config_map_name ∷ desired) files in
      if not file.generated then skipped else reconcile_inline_config_map file >> written

  unfoldable pub reconcile_generated_config_maps : ConfigPlan → Exec S NoValue
  unfolding reconcile_files cleanup_stale_generated_config_maps
  reconcile_generated_config_maps plan =
      reconcile_files [] plan.files >>= cleanup_stale_generated_config_maps

  abbrev pub exists : {Obj : Type 0} → Option Obj → Bool
  exists none = Bool.false
  exists (some o) = Bool.true

  abbrev pub claim_or_error :
      Result String (Built PersistentVolumeClaimSpec)
      → Result Error (Built PersistentVolumeClaimSpec)
  claim_or_error (ok b) = ok b
  claim_or_error (err e) = err (other e)

  unfoldable pub reconcile_persistent_volume_claim : Exec S NoValue
  reconcile_persistent_volume_claim =
      if not (persistence_enabled a)
      then pure tt
      else lift (claim_or_error (build_persistent_volume_claim env.parse_quantity a)) >>= λ desired.
          let key : Key = record { name = desired.name; namespace = a.namespace } in
          find client.claims key >>= λ found.
          client.claims.create_or_update key (mutate_claim ownership a (exists found) desired)

  unfoldable pub reconcile_stateful_set : PodTemplateInputs → Exec S NoValue
  reconcile_stateful_set inputs =
      client.stateful_sets.create_or_update (agent_key a) (mutate_stateful_set ownership a inputs)

  abbrev not_owned : String → String → Error
  not_owned what name =
      other (what <> " " <> name <> " already exists and is not owned by HermesAgent " <> a.name)

  -- The shape of the three handlers of optional objects: one that is not wanted is deleted if the
  -- agent controls it; one that is wanted is refused if it exists and another controls it.
  abbrev pub ensure_found :
      {Spec Status : Type 0}
      → Store (Object Spec Status) S
      → Bool
      → String
      → (Object Spec Status → Result Error (Object Spec Status))
      → Option (Object Spec Status)
      → Exec S NoValue
  ensure_found store enabled what mutate none =
      if not enabled then pure tt else store.create_or_update (agent_key a) mutate
  ensure_found store enabled what mutate (some o) =
      if not enabled
      then (if not (owned o) then pure tt else store.delete (agent_key a))
      else if not (owned o)
      then raise (not_owned what o.name)
      else store.create_or_update (agent_key a) mutate

  unfoldable pub reconcile_pod_disruption_budget : Exec S NoValue
  reconcile_pod_disruption_budget =
      find client.disruption_budgets (agent_key a)
      >>= ensure_found client.disruption_budgets (pod_disruption_budget_enabled a)
          "PodDisruptionBudget" (mutate_disruption_budget ownership a)

  unfoldable pub reconcile_service : Exec S NoValue
  reconcile_service =
      find client.services (agent_key a)
      >>= ensure_found client.services (service_enabled a) "service" (mutate_service ownership a)

  unfoldable pub reconcile_network_policy : ReferencedInputs → Exec S NoValue
  reconcile_network_policy inputs =
      find client.network_policies (agent_key a)
      >>= ensure_found client.network_policies (network_policy_enabled a) "networkpolicy" (
          mutate_network_policy ownership a
            (build_network_policy a (effective_terminal_backend env.yaml a inputs)))
