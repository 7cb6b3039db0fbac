-- ===== src/Examples/Files.antt =====
-- Files, volumes and access modes; and a ConfigMap that appears.
use k8s_operator_hermes_agen.Snapshots.{new_config_map_projection_snapshot}
use k8s_operator_hermes_agen.GoPath.{join}
use k8s_operator_hermes_agen.Settings.{generated_config_map_name}
use k8s_operator_hermes_agen.Config.{resolve_config_file}
use k8s_operator_hermes_agen.Common.{arith, lookup}
use mathlib.Core.Bool.{false≢true}
use mathlib.Core.List.{Mem, Perm, mem-cons_self}
use k8s_operator_hermes_agen.Common.{
  pos, ◌≡◌, ◌≢◌, refl, ap, ◌↔◌, ◌⊎◌, String, ◌==◌, ◌&&◌, eq_iff, Bool, true, false, [], ◌∷◌, map,
  All, all, any, Result, ok, err, Bool-cases, inl, inr, if◌then◌else◌,
}
use k8s_operator_hermes_agen.Api.{Container, ContainerPort, ServicePort}
use k8s_operator_hermes_agen.GoPath.{split_slash, is_abs, clean}
use k8s_operator_hermes_agen.GoPath.Resolve.{names_entry}
use k8s_operator_hermes_agen.FileMounts.{
  no_error, validate_file_mount_item_path, validate_file_mount_specs,
}
use k8s_operator_hermes_agen.FileMounts.Paths.{validate_file_mount_item_path-segments}
use k8s_operator_hermes_agen.Settings.{service_enabled}
use k8s_operator_hermes_agen.Snapshots.{ReferencedInputs, no_inputs}
use k8s_operator_hermes_agen.Config.{ConfigPlan, HashPayload, build_config_plan_with_references}
use k8s_operator_hermes_agen.Objects.{build_service}
use k8s_operator_hermes_agen.Pod.{build_stateful_set, build_pod_template_inputs}
use k8s_operator_hermes_agen.Pod.Confined.{ConfinedVolumes, build_stateful_set-Confined}
use k8s_operator_hermes_agen.Pod.Bounds.{Accepted, IsPort, build_stateful_set-bounds}
use k8s_operator_hermes_agen.Controller.Drift.{equal_persistent_volume_access_modes}
use k8s_operator_hermes_agen.Controller.Drift.Order.{equal_persistent_volume_access_modes-Perm}
use k8s_operator_hermes_agen.Controller.Exec.{Error}
use k8s_operator_hermes_agen.Controller.Client.{Key, Client, Store, ConfigMap, agent_key}
use k8s_operator_hermes_agen.Controller.Inputs.{resolve_referenced_inputs}
use k8s_operator_hermes_agen.Controller.Watch.{find_agents_for_config_map, find_agents_for_secret}
use k8s_operator_hermes_agen.Controller.Watch.Requests.{changed_inputs-requested}
use k8s_operator_hermes_agen.Examples.Agents.{plain}
use k8s_operator_hermes_agen.Examples.Cluster.{Cluster, nothing, client}

equal_persistent_volume_access_modes-Perm_example :
    (equal_persistent_volume_access_modes
        ("ReadWriteOnce" ∷ "ReadOnlyMany" ∷ [])
        ("ReadOnlyMany" ∷ "ReadWriteOnce" ∷ [])
      ≡ true)
    ↔ Perm {A = String}
        ("ReadWriteOnce" ∷ "ReadOnlyMany" ∷ [])
        ("ReadOnlyMany" ∷ "ReadWriteOnce" ∷ [])
equal_persistent_volume_access_modes-Perm_example =
    equal_persistent_volume_access_modes-Perm ("ReadWriteOnce" ∷ "ReadOnlyMany" ∷ [])
      ("ReadOnlyMany" ∷ "ReadWriteOnce" ∷ [])

validate_file_mount_item_path-segments_example :
    no_error (validate_file_mount_item_path "sub/../a") ≡ all names_entry (split_slash "sub/../a")
validate_file_mount_item_path-segments_example = validate_file_mount_item_path-segments "sub/../a"

abbrev digest : HashPayload → String
digest payload = "hash"

abbrev plain_plan : ConfigPlan
plain_plan = record {
  files =
      record {
        id = "config";
        file_name = "config.yaml";
        config_map_name = "demo-config";
        secret_name = "";
        source_key = "config.yaml";
        mount_path = "/data/hermes/config.yaml";
        generated = true;
        content = "terminal: {}";
      }
      ∷ [];
  hash = "hash";
}

build_stateful_set-Confined_example :
    ConfinedVolumes
      (build_stateful_set plain (build_pod_template_inputs plain plain_plan)).template_spec.volumes
unfolding build_config_plan_with_references validate_file_mount_specs is_abs lookup
    validate_file_mount_item_path clean resolve_config_file generated_config_map_name join
build_stateful_set-Confined_example =
    build_stateful_set-Confined digest plain no_inputs plain_plan refl

build_stateful_set-bounds_example :
    let i = build_pod_template_inputs plain plain_plan in
    (c : Container) × ((build_stateful_set plain i).template_spec.containers ≡ c ∷ [])
    × Accepted c.startup_probe
    × Accepted c.readiness_probe
    × Accepted c.liveness_probe
    × All
        (λ (p : ServicePort). IsPort p.port × IsPort p.target_port)
        (build_service plain).spec.ports
    × (map (λ (p : ContainerPort). p.container_port) c.ports ≡ (
        if service_enabled plain
        then map (λ (p : ServicePort). p.target_port) (build_service plain).spec.ports
        else []))
build_stateful_set-bounds_example =
    build_stateful_set-bounds plain (build_pod_template_inputs plain plain_plan) (omega arith)
      (omega arith)

-- The ConfigMap that the agent mounts, and the Secret that its container imports
abbrev files_key : Key
files_key = record { name = "files"; namespace = plain.namespace }

abbrev token_key : Key
token_key = record { name = "token"; namespace = plain.namespace }

abbrev files : ConfigMap
files = record {
  name = "files";
  namespace = plain.namespace;
  generation = pos 1;
  labels = [];
  annotations = [];
  owners = [];
  spec = record { text = ("a", "text") ∷ []; binary = [] };
  status = tt;
}

abbrev is_files : Key → Bool
is_files key = key.name == "files" && key.namespace == plain.namespace

-- The store once the ConfigMap is there.
abbrev with_files : Store ConfigMap Cluster
with_files = record (client.config_maps) {
  get = λ key s. if is_files key then (ok files, s) else client.config_maps.get key s;
}

abbrev listing : Client Cluster
listing = record client { list_agents = λ ns s. (ok (plain ∷ []), s) }

and_true : (a b : Bool) → (a && b) ≡ true → (a ≡ true) × (b ≡ true)
and_true true b h = (refl, h)
and_true false b h = absurd (cc)

key_path : (key : Key) → is_files key ≡ true → key ≡ files_key
key_path key h =
    let (name, namespace) = and_true (key.name == "files") (key.namespace == plain.namespace) h in
    λ i. record {
      name = (eq_iff key.name "files").0 name i;
      namespace = (eq_iff key.namespace plain.namespace).0 namespace i;
    }

same_elsewhere :
    (key : Key)
    → key ≢ files_key
    → (s : Cluster) → client.config_maps.get key s ≡ with_files.get key s
same_elsewhere key ne s = elim (Bool-cases (is_files key)) [
  | inl is ↦ absurd (ne (key_path key is))
  | inr other ↦ rw (other) refl
]

-- Whether a mounted object is present.
abbrev mounted : Result Error ReferencedInputs → Bool
mounted (ok r) = any (λ s. s.present) r.file_mount_refs
mounted (err e) = false

read_differently :
    resolve_referenced_inputs client.config_maps client.secrets plain
    ≢ resolve_referenced_inputs with_files client.secrets plain
unfolding resolve_referenced_inputs lookup new_config_map_projection_snapshot
read_differently e = false≢true (ap (λ f. mounted (f nothing).0) e)

changed_inputs-requested_example :
    Mem (agent_key plain) (find_agents_for_config_map listing files_key nothing)
    ⊎ Mem (agent_key plain) (find_agents_for_secret listing token_key nothing)
changed_inputs-requested_example =
    changed_inputs-requested listing client.config_maps with_files client.secrets client.secrets
      files_key token_key plain (plain ∷ []) (plain ∷ []) nothing same_elsewhere (λ key ne s. refl)
      refl refl refl refl mem-cons_self mem-cons_self read_differently
