-- ===== src/Controller/Ensure/Frame/Plans.antt =====
-- The steps that write the claim and the generated ConfigMaps, for an agent entitled to its calls.
use mathlib.Core.Path.{subst}
use k8s_operator_hermes_agen.Common.{
  ◌≡◌, refl, sym, ap, arith, Result-cases, String, Bool, true, false, not, List, [], ◌∷◌, All,
  Result, ok, err, inl, inr,
}
use k8s_operator_hermes_agen.Api.{HermesAgent, PersistentVolumeClaimSpec}
use k8s_operator_hermes_agen.Settings.{
  persistent_volume_claim_name, persistence_enabled, persistence_size,
}
use k8s_operator_hermes_agen.Config.{ResolvedConfigFile, ConfigPlan}
use k8s_operator_hermes_agen.Config.Plans.{OwnFile}
use k8s_operator_hermes_agen.Objects.{Built, build_persistent_volume_claim}
use k8s_operator_hermes_agen.Controller.Exec.{Error, Exec, pure, lift, ◌>>=◌, ◌>>◌}
use k8s_operator_hermes_agen.Controller.Exec.Keeps.{
  Keeps, bind-Keeps, choose-Keeps, choose_by-Keeps,
}
use k8s_operator_hermes_agen.Controller.View.{claim_key}
use k8s_operator_hermes_agen.Controller.Client.{Key, agent_key, Claim, IsOwnership, Environment}
use k8s_operator_hermes_agen.Controller.Ensure.{
  find, exists, claim_or_error, mutate_claim, mutate_config_map, reconcile_inline_config_map,
  reconcile_files, reconcile_generated_config_maps, reconcile_persistent_volume_claim,
}
use k8s_operator_hermes_agen.Controller.Ensure.Control.{
  mutate_config_map-TakesControl, mutate_claim-TakesControl,
}
use k8s_operator_hermes_agen.Controller.Ensure.Cleanup.{find-Keeps, cleanup-Keeps}
use k8s_operator_hermes_agen.Controller.Ensure.Frame.{OwnCallsKeep}

module _ {S : Type 0} (env : Environment S) (law : IsOwnership env.ownership) (P : S → Type 0)
    (a : HermesAgent) (keeps : OwnCallsKeep env P a) where
  open env use {client, ownership}

  abbrev built_name : Result Error (Built PersistentVolumeClaimSpec) → String
  built_name (ok b) = b.name
  built_name (err e) = ""

  -- What follows once the claim is built.
  abbrev reconcile_claim : Built PersistentVolumeClaimSpec → Exec S (Unit {0})
  reconcile_claim desired =
      let key : Key = record { name = desired.name; namespace = a.namespace } in
      find client.claims key >>= λ found.
      client.claims.create_or_update key (mutate_claim ownership a (exists env a found) desired)

  claim_name :
      (desired : Built PersistentVolumeClaimSpec)
      → claim_or_error env a (build_persistent_volume_claim env.parse_quantity a) ≡ ok desired
      → desired.name ≡ persistent_volume_claim_name a.name
  unfolding build_persistent_volume_claim
  claim_name desired e = elim (Result-cases (env.parse_quantity (persistence_size a))) [
    | inl (q, parsed) ↦ ap built_name (sym (rw (parsed, claim_or_error) at e))
    | inr (f, failed) ↦ absurd (cc (rw (failed, claim_or_error) at e))
  ]

  write_claim-Keeps :
      (desired : Built PersistentVolumeClaimSpec)
      → desired.name ≡ persistent_volume_claim_name a.name
      → Keeps P (reconcile_claim desired)
  write_claim-Keeps desired named =
      subst
        (λ name.
          let key : Key = record { name = name; namespace = a.namespace } in
          Keeps P (
            find client.claims key >>= λ found.
            client.claims.create_or_update key
              (mutate_claim ownership a (exists env a found) desired)))
        (sym named)
        (bind-Keeps P (find client.claims (claim_key a))
          (λ found.
            client.claims.create_or_update (claim_key a)
              (mutate_claim ownership a (exists env a found) desired))
          (find-Keeps env a P Claim client.claims (claim_key a) (keeps.claim_reads (claim_key a)))
          (λ found.
            keeps.claim_writes _
              (mutate_claim-TakesControl ownership law a (exists env a found) desired)))

  with_claim-Keeps :
      (r : Result Error (Built PersistentVolumeClaimSpec))
      → ((desired : Built PersistentVolumeClaimSpec)
          → r ≡ ok desired
          → desired.name ≡ persistent_volume_claim_name a.name)
      → Keeps P (lift r >>= reconcile_claim)
  with_claim-Keeps (ok desired) named s p = write_claim-Keeps desired (named desired refl) s p
  with_claim-Keeps (err e) named s p = p

  pub reconcile_persistent_volume_claim-Keeps : Keeps P (reconcile_persistent_volume_claim env a)
  unfolding reconcile_persistent_volume_claim
  reconcile_persistent_volume_claim-Keeps =
      choose-Keeps P (not (persistence_enabled a)) (pure tt) _ (λ s p. p)
        (with_claim-Keeps
          (claim_or_error env a (build_persistent_volume_claim env.parse_quantity a)) claim_name)

  write_file-Keeps :
      (f : ResolvedConfigFile)
      → OwnFile a f
      → f.generated ≡ true
      → Keeps P (reconcile_inline_config_map env a f)
  unfolding reconcile_inline_config_map
  write_file-Keeps f (inl external) generated = absurd (cc)
  write_file-Keeps f (inr (id, named)) generated =
      subst
        (λ name. Keeps P (
          client.config_maps.create_or_update (record { name = name; namespace = a.namespace })
            (mutate_config_map ownership a f)))
        (sym named)
        (keeps.config_map_writes id _ (mutate_config_map-TakesControl ownership law a f))

  generated_lem : (b : Bool) → not b ≡ false → b ≡ true
  generated_lem b h = ground arith

  reconcile_files-Keeps :
      (desired : List String) (files : List ResolvedConfigFile)
      → All (OwnFile a) files
      → Keeps P (reconcile_files env a desired files)
  unfolding reconcile_files
  reconcile_files-Keeps desired [] own s p = p
  reconcile_files-Keeps desired (f ∷ fs) (own, rest) s p =
      choose_by-Keeps P (not f.generated) (reconcile_files env a desired fs)
        (reconcile_inline_config_map env a f
          >> reconcile_files env a (f.config_map_name ∷ desired) fs)
        (λ external. reconcile_files-Keeps desired fs rest)
        (λ generated.
          bind-Keeps P (reconcile_inline_config_map env a f)
            (λ u. reconcile_files env a (f.config_map_name ∷ desired) fs)
            (write_file-Keeps f own (generated_lem f.generated generated))
            (λ u. reconcile_files-Keeps (f.config_map_name ∷ desired) fs rest))
        s p

  pub reconcile_generated_config_maps-Keeps :
      (plan : ConfigPlan)
      → All (OwnFile a) plan.files
      → Keeps P (reconcile_generated_config_maps env a plan)
  unfolding reconcile_generated_config_maps
  reconcile_generated_config_maps-Keeps plan own =
      bind-Keeps P (reconcile_files env a [] plan.files) _ (reconcile_files-Keeps [] plan.files own)
        (λ desired.
          cleanup-Keeps env a P desired (keeps.stateful_set_reads (agent_key a))
            (λ id. keeps.config_map_reads _) (λ id stale. keeps.config_map_deletes id))
