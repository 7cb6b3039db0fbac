-- ===== src/Controller/Ensure/Rollout.antt =====
-- The generated ConfigMaps while the StatefulSet is not rolled out.
use k8s_operator_hermes_agen.Common.{
  ◌≡◌, refl, Result, err, String, false, not, some, List, [], ◌∷◌, ok, All,
}
use k8s_operator_hermes_agen.Api.{HermesAgent}
use k8s_operator_hermes_agen.Controller.Exec.{
  Error, not_found, other, drifted, raise, resume, pure, ◌>>◌,
}
use k8s_operator_hermes_agen.Controller.Exec.Keeps.{Keeps, bind-Keeps, choose-Keeps}
use k8s_operator_hermes_agen.Controller.Client.{agent_key, StatefulSet, Environment}
use k8s_operator_hermes_agen.Controller.View.{stateful_set_ready}
use k8s_operator_hermes_agen.Controller.Inputs.{missing_is_none}
use k8s_operator_hermes_agen.Controller.Ensure.{
  cleanup_with, cleanup_stale_generated_config_maps, reconcile_inline_config_map, reconcile_files,
  reconcile_generated_config_maps,
}
use k8s_operator_hermes_agen.Config.{ResolvedConfigFile, ConfigPlan}

module _ {S : Type 0} (env : Environment S) (a : HermesAgent) (P : S → Type 0) where
  open env use {client}

  after_get :
      (desired : List String) (s : S) (r : Result Error StatefulSet × S)
      → ((st : StatefulSet) → r.0 ≡ ok st → stateful_set_ready st ≡ false)
      → P r.1
      → P
          (resume raise
            (cleanup_with env a desired)
            (resume missing_is_none (λ st. pure (some st)) r.0 r.1).0
            (resume missing_is_none (λ st. pure (some st)) r.0 r.1).1).1
  after_get desired s (ok st, s') unready p = rw (unready st refl) p
  after_get desired s (err (not_found e), s') unready p = p
  after_get desired s (err (other e), s') unready p = p
  after_get desired s (err (drifted d), s') unready p = p

  -- The cleanup where the Get finds no StatefulSet that is ready.
  cleanup_unready-Keeps :
      (desired : List String)
      → Keeps P (client.stateful_sets.get (agent_key a))
      → ((s : S) (st : StatefulSet)
          → P s
          → (client.stateful_sets.get (agent_key a) s).0 ≡ ok st
          → stateful_set_ready st ≡ false)
      → Keeps P (cleanup_stale_generated_config_maps env a desired)
  unfolding cleanup_stale_generated_config_maps
  cleanup_unready-Keeps desired reads unready s p =
      after_get desired s (client.stateful_sets.get (agent_key a) s)
        (λ st found. unready s st p found) (reads s p)

  write_files-Keeps :
      (desired : List String) (files : List ResolvedConfigFile)
      → All (λ f. Keeps P (reconcile_inline_config_map env a f)) files
      → Keeps P (reconcile_files env a desired files)
  unfolding reconcile_files
  write_files-Keeps desired [] writes s p = p
  write_files-Keeps desired (f ∷ fs) (write, writes) s p =
      choose-Keeps P (not f.generated) (reconcile_files env a desired fs)
        (reconcile_inline_config_map env a f
          >> reconcile_files env a (f.config_map_name ∷ desired) fs)
        (write_files-Keeps desired fs writes)
        (bind-Keeps P (reconcile_inline_config_map env a f) _ write
          (λ u. write_files-Keeps (f.config_map_name ∷ desired) fs writes))
        s p

  -- While no StatefulSet that is ready is there to be read, the step of the generated ConfigMaps
  -- deletes nothing: a property of the state under which every StatefulSet that is read is not ready
  -- holds afterwards if the writes of the plan's files and the Get of the StatefulSet keep it,
  -- whatever deletions would do to it.
  pub reconcile_generated_config_maps_unready-Keeps :
      (plan : ConfigPlan)
      → All (λ f. Keeps P (reconcile_inline_config_map env a f)) plan.files
      → Keeps P (client.stateful_sets.get (agent_key a))
      → ((s : S) (st : StatefulSet)
          → P s
          → (client.stateful_sets.get (agent_key a) s).0 ≡ ok st
          → stateful_set_ready st ≡ false)
      → Keeps P (reconcile_generated_config_maps env a plan)
  unfolding reconcile_generated_config_maps
  reconcile_generated_config_maps_unready-Keeps plan writes reads unready =
      bind-Keeps P (reconcile_files env a [] plan.files) _ (write_files-Keeps [] plan.files writes)
        (λ desired. cleanup_unready-Keeps desired reads unready)
