-- ===== src/Examples/Views.antt =====
-- A cluster in which the agent is ready.
use k8s_operator_hermes_agen.Settings.{persistent_volume_claim_name}
use k8s_operator_hermes_agen.Settings.{persistence_enabled}
use k8s_operator_hermes_agen.Common.{
  insert, Option, some, true, false, ◌∙◌, lookup-insert, pos, ◌≡◌, refl, none, [], ◌∷◌, lookup, ok,
}
use k8s_operator_hermes_agen.Pod.{PodTemplateInputs, build_stateful_set}
use k8s_operator_hermes_agen.Controller.Client.{Claim, StatefulSet, ConfigMap, agent_key}
use k8s_operator_hermes_agen.Controller.View.{
  PersistenceView, StatusView, stateful_set_view, claim_bound, read_status_view, stateful_set_ready,
}
use k8s_operator_hermes_agen.Controller.View.Ready.{
  SeenPersistent, SeenRolledOut, read_status_view-ready,
}
use k8s_operator_hermes_agen.Controller.Ensure.{
  mutate_config_map, reconcile_inline_config_map, reconcile_generated_config_maps,
}
use k8s_operator_hermes_agen.Controller.Ensure.Rollout.{
  reconcile_generated_config_maps_unready-Keeps,
}
use k8s_operator_hermes_agen.Controller.Exec.Keeps.{Keeps}
use k8s_operator_hermes_agen.Examples.Agents.{plain}
use k8s_operator_hermes_agen.Examples.Cluster.{
  Cluster, nothing, env, client, ownership, found_or_missing, updated-Keeps,
}
use k8s_operator_hermes_agen.Controller.Client.{AgentObject}
use k8s_operator_hermes_agen.Controller.Reconcile.{reconcile_status}
use k8s_operator_hermes_agen.Controller.Reconcile.Settled.{
  written, at, reconcile_status-again, reconcile_agent_invalid-again,
}
use k8s_operator_hermes_agen.Config.{build_config_plan, resolve_config_file, ResolvedConfigFile}
use k8s_operator_hermes_agen.FileMounts.{validate_file_mount_specs, validate_file_mount_item_path}
use k8s_operator_hermes_agen.GoPath.{is_abs, clean}
use k8s_operator_hermes_agen.Settings.{source_field_name}
use k8s_operator_hermes_agen.Common.{String}
use k8s_operator_hermes_agen.Controller.View.{apply_status_view}
use k8s_operator_hermes_agen.Controller.Reconcile.{config_failed, reconcile_agent}
use k8s_operator_hermes_agen.Examples.Agents.{no_status, doubled}
use k8s_operator_hermes_agen.Examples.Cluster.{conditions, conditions-IsConditionApi}
use k8s_operator_hermes_agen.Examples.Equality.{same_agent_status_self}

abbrev bound_claim : Claim
bound_claim = record {
  name = "demo-data";
  namespace = "team";
  generation = pos 1;
  labels = [];
  annotations = [];
  owners = [];
  spec = record { access_modes = []; requests = "5Gi"; storage_class_name = none };
  status = record { phase = "Bound" };
}

abbrev no_pod : PodTemplateInputs
no_pod = record { annotations = []; env = []; env_from = []; volumes = []; volume_mounts = [] }

abbrev ready_set : StatefulSet
ready_set = record {
  name = "demo";
  namespace = "team";
  generation = pos 2;
  labels = [];
  annotations = [];
  owners = [];
  spec = build_stateful_set plain no_pod;
  status = record { ready_replicas = pos 1; observed_generation = pos 2 };
}

abbrev running : Cluster
running = record nothing {
  claims = ("demo-data", bound_claim) ∷ [];
  stateful_sets = ("demo", ready_set) ∷ [];
}

abbrev ready_view : StatusView
ready_view = stateful_set_view (claim_bound bound_claim) ready_set

read_status_view-ready_example :
    (p : PersistenceView) × (t : Cluster) × SeenPersistent client.stateful_sets plain client.claims
      running p t
    × SeenRolledOut client.stateful_sets plain p ready_view t
unfolding read_status_view persistence_enabled lookup persistent_volume_claim_name
    build_stateful_set
read_status_view-ready_example =
    read_status_view-ready client.stateful_sets plain client.claims running ready_view refl refl

-- The StatefulSet whose latest spec was not seen yet.
abbrev stale_set : StatefulSet
stale_set = record ready_set { generation = pos 3 }

abbrev config_file : ResolvedConfigFile
config_file = record {
  id = "config";
  secret_name = "";
  mount_path = "/data/hermes/config.yaml";
  file_name = "config.yaml";
  config_map_name = "demo-config";
  source_key = "config.yaml";
  content = "terminal: {}";
  generated = true;
}

-- The ConfigMap of a gateway configuration that the agent has no more.
abbrev gateway_map : ConfigMap
gateway_map = record {
  name = "demo-gateway-config";
  namespace = "team";
  generation = pos 1;
  labels = [];
  annotations = [];
  owners = record { kind = "HermesAgent"; name = "demo"; uid = "u1"; controller = true } ∷ [];
  spec = record { text = []; binary = [] };
  status = tt;
}

-- It is there, and the StatefulSet is being rolled out.
abbrev Mounted : Cluster → Type 0
Mounted s =
    (lookup "demo-gateway-config" s.config_maps ≡ some gateway_map)
    × (s.stateful_sets ≡ ("demo", stale_set) ∷ [])

write-Mounted : Keeps Mounted (reconcile_inline_config_map env plain config_file)
unfolding reconcile_inline_config_map
write-Mounted s (there, sets) =
    updated-Keeps Mounted (lookup "demo-config" s.config_maps)
      (mutate_config_map ownership plain config_file)
      (λ o. record s { config_maps = insert "demo-config" o s.config_maps }) s (there, sets)
      (λ o. (lookup-insert s.config_maps "demo-config" "demo-gateway-config" o ∙ there, sets))

found-Mounted : {Obj : Type 0} → (o : Option Obj) → Keeps Mounted (found_or_missing o)
found-Mounted none s p = p
found-Mounted (some o) s p = p

stale_set-unready : stateful_set_ready stale_set ≡ false
unfolding stateful_set_ready build_stateful_set
stale_set-unready = refl

seen-unready :
    (s : Cluster) (st : StatefulSet)
    → Mounted s
    → (client.stateful_sets.get (agent_key plain) s).0 ≡ ok st
    → stateful_set_ready st ≡ false
unfolding lookup
seen-unready s st (there, sets) found =
    let e : ok stale_set ≡ ok st = rw (sets) at found in
    let same : stale_set ≡ st = cc in rw (← same) stale_set-unready

reconcile_generated_config_maps_unready-Keeps_example :
    Keeps Mounted (
      reconcile_generated_config_maps env plain
        (record { files = config_file ∷ []; hash = "hash" }))
reconcile_generated_config_maps_unready-Keeps_example =
    reconcile_generated_config_maps_unready-Keeps env plain Mounted
      (record { files = config_file ∷ []; hash = "hash" }) (write-Mounted, tt)
      (λ s. found-Mounted (lookup "demo" s.stateful_sets) s) seen-unready

-- The agent as it was before its status was written for `ready_view`.
abbrev fresh : AgentObject
fresh = record { agent = plain; generation = pos 1; status = no_status }

abbrev settled : Cluster
settled = record running {
  agents =
      ("demo", written env (apply_status_view conditions "now" plain "hash" ready_view) fresh) ∷ [];
}

reconcile_status-again_example :
    reconcile_status (at env "later") plain "hash" settled ≡ (ok tt, settled)
unfolding read_status_view persistence_enabled lookup persistent_volume_claim_name
    build_stateful_set
reconcile_status-again_example =
    reconcile_status-again env conditions-IsConditionApi same_agent_status_self "later" plain "hash"
      ready_view fresh settled settled settled refl refl

abbrev two_sources : String
two_sources = "spec.config must set exactly one of raw, configMapRef, or secretRef"

abbrev refused : Cluster
refused = record nothing {
  agents =
      (
        "demo",
        written env
            (config_failed env doubled "InvalidConfig" two_sources
              "HermesAgent configuration is invalid")
            fresh,
      )
      ∷ [];
}

reconcile_agent_invalid-again_example :
    reconcile_agent (at env "later") doubled refused ≡ (ok tt, refused)
unfolding build_config_plan validate_file_mount_specs is_abs lookup validate_file_mount_item_path
    clean resolve_config_file source_field_name
reconcile_agent_invalid-again_example =
    reconcile_agent_invalid-again env conditions-IsConditionApi same_agent_status_self "later"
      doubled two_sources fresh refused refused refl refl
