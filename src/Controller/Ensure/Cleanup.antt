-- ===== src/Controller/Ensure/Cleanup.antt =====
-- What the cleanup of the generated ConfigMaps deletes.
use k8s_operator_hermes_agen.Common.{
  ◌≡◌, refl, Result, err, String, ◌==◌, true, false, not, Option, none, some, List, [], ◌∷◌, ok,
  any, Bool-cases, inl, inr,
}
use k8s_operator_hermes_agen.Api.{HermesAgent}
use k8s_operator_hermes_agen.Settings.{generated_config_map_name}
use k8s_operator_hermes_agen.Controller.Exec.{
  Error, not_found, other, drifted, raise, resume, pure, ◌>>=◌,
}
use k8s_operator_hermes_agen.Controller.Exec.Keeps.{
  Keeps, attempt-Keeps, resume-Keeps, bind-Keeps, choose-Keeps,
}
use k8s_operator_hermes_agen.Controller.Client.{
  Key, agent_key, ConfigMap, StatefulSet, Store, Environment,
}
use k8s_operator_hermes_agen.Controller.View.{stateful_set_ready}
use k8s_operator_hermes_agen.Controller.Inputs.{missing_is_none}
use k8s_operator_hermes_agen.Controller.Inputs.Keeps.{missing_is_none-Keeps}
use k8s_operator_hermes_agen.Controller.Ensure.{
  find, ignore_missing, delete_owned_config_map, delete_stale_config_maps, cleanup_with,
  cleanup_stale_generated_config_maps,
}

module _ {S : Type 0} (env : Environment S) (a : HermesAgent) where
  open env use {client, ownership}

  module _ (P : S → Type 0) where
    ignore_missing-Keeps : (e : Error) → Keeps P (ignore_missing env a e)
    ignore_missing-Keeps (not_found e) s p = p
    ignore_missing-Keeps (other e) s p = p
    ignore_missing-Keeps (drifted d) s p = p

    pub find-Keeps :
        (Obj : Type 0) (store : Store Obj S) (key : Key)
        → Keeps P (store.get key)
        → Keeps P (find store key)
    find-Keeps Obj store key reads =
        attempt-Keeps P (store.get key) missing_is_none _ reads (missing_is_none-Keeps P Obj)
          (λ o s p. p)

    -- The deletion under a key keeps the property where the ConfigMap that was read there is owned.
    abbrev pub MayDelete : Key → Type 0
    MayDelete key =
        (m : ConfigMap) (s s' : S)
        → client.config_maps.get key s ≡ (ok m, s')
        → ownership.is_controlled_by m.owners a ≡ true
        → P s'
        → P (client.config_maps.delete key s').1

    delete_found-Keeps :
        (key : Key) (m : ConfigMap) (s s' : S)
        → client.config_maps.get key s ≡ (ok m, s')
        → MayDelete key
        → P s'
        → P (delete_owned_config_map env a key (some m) s').1
    delete_found-Keeps key m s s' got may p =
        elim (Bool-cases (ownership.is_controlled_by m.owners a)) [
          | inl mine ↦ rw (mine) (
              resume-Keeps P (ignore_missing env a) pure (client.config_maps.delete key s').0
                ignore_missing-Keeps (λ x s p. p) (client.config_maps.delete key s').1
                (may m s s' got mine p))
          | inr foreign ↦ rw (foreign) p
        ]

    after_find :
        (key : Key) (s : S) (r : Result Error ConfigMap × S)
        → client.config_maps.get key s ≡ r
        → MayDelete key
        → P r.1
        → P
            (resume raise
              (delete_owned_config_map env a key)
              (resume missing_is_none (λ m. pure (some m)) r.0 r.1).0
              (resume missing_is_none (λ m. pure (some m)) r.0 r.1).1).1
    after_find key s (ok m, s') got may p = delete_found-Keeps key m s s' got may p
    after_find key s (err (not_found e), s') got may p = p
    after_find key s (err (other e), s') got may p = p
    after_find key s (err (drifted d), s') got may p = p

    delete_one-Keeps :
        (key : Key)
        → Keeps P (client.config_maps.get key)
        → MayDelete key
        → Keeps P (find client.config_maps key >>= delete_owned_config_map env a key)
    delete_one-Keeps key reads may s p =
        after_find key s (client.config_maps.get key s) refl may (reads s p)

    abbrev pub stale_key : String → Key
    stale_key id = record { name = generated_config_map_name a.name id; namespace = a.namespace }

    delete_stale_config_maps-Keeps :
        (desired ids : List String)
        → ((id : String) → Keeps P (client.config_maps.get (stale_key id)))
        → ((id : String)
            → any (λ d. (stale_key id).name == d) desired ≡ false
            → MayDelete (stale_key id))
        → Keeps P (delete_stale_config_maps env a desired ids)
    unfolding delete_stale_config_maps
    delete_stale_config_maps-Keeps desired [] reads may s p = p
    delete_stale_config_maps-Keeps desired (id ∷ ids) reads may s p =
        let rest = delete_stale_config_maps-Keeps desired ids reads may in
        elim (Bool-cases (any (λ d. generated_config_map_name a.name id == d) desired)) [
          | inl kept ↦ rw (kept) (rest s p)
          | inr stale ↦ rw (stale) (
              bind-Keeps P
                (find client.config_maps (stale_key id)
                  >>= delete_owned_config_map env a (stale_key id))
                (λ u. delete_stale_config_maps env a desired ids)
                (delete_one-Keeps (stale_key id) (reads id) (may id stale)) (λ u. rest) s p)
        ]

    cleanup_with-Keeps :
        (desired : List String) (found : Option StatefulSet)
        → Keeps P (delete_stale_config_maps env a desired ("config" ∷ "gateway-config" ∷ []))
        → Keeps P (cleanup_with env a desired found)
    cleanup_with-Keeps desired none k = λ s p. p
    cleanup_with-Keeps desired (some st) k =
        choose-Keeps P (not (stateful_set_ready st)) (pure tt) _ (λ s p. p) k

    -- What the cleanup does to a property of the state: it holds afterwards if the Gets keep it and if
    -- each deletion keeps it that is of a generated name which is not desired, under which a
    -- ConfigMap was just read that the agent controls.
    pub cleanup-Keeps :
        (desired : List String)
        → Keeps P (client.stateful_sets.get (agent_key a))
        → ((id : String) → Keeps P (client.config_maps.get (stale_key id)))
        → ((id : String)
            → any (λ d. (stale_key id).name == d) desired ≡ false
            → MayDelete (stale_key id))
        → Keeps P (cleanup_stale_generated_config_maps env a desired)
    unfolding cleanup_stale_generated_config_maps
    cleanup-Keeps desired finds reads may =
        bind-Keeps P (find client.stateful_sets (agent_key a)) (cleanup_with env a desired)
          (find-Keeps StatefulSet client.stateful_sets (agent_key a) finds)
          (λ found.
            cleanup_with-Keeps desired found
              (delete_stale_config_maps-Keeps desired ("config" ∷ "gateway-config" ∷ []) reads may))
