-- ===== src/Examples/Builds.antt =====
-- Objects that are built, and texts that are read.
use k8s_operator_hermes_agen.Snapshots.{
  no_inputs, new_config_map_projection_snapshot, new_secret_projection_snapshot,
}
use k8s_operator_hermes_agen.Snapshots.Projections.{projection-messages}
use k8s_operator_hermes_agen.FileMounts.{is_set}
use k8s_operator_hermes_agen.Controller.Inputs.{snapshot_messages}
use k8s_operator_hermes_agen.Common.{
  Result, ok, lookup, is_empty, all, none, some, ◌||◌, pos, eqb_ℤ, ◌≡◌, refl, String, ◌==◌, true,
  ◌&&◌, ◌||◌, Option, none, some, [], ◌∷◌, lookup, arith,
}
use k8s_operator_hermes_agen.Api.{
  HermesAgent, FileProjectionItem, Container, Bytes, KeySelector, ConfigMapContents, SecretContents,
}
use k8s_operator_hermes_agen.Base64.{utf8, encode}
use k8s_operator_hermes_agen.Backend.Sources.{
  from_raw, from_config_map, from_secret, same_text-same_backend,
}
use k8s_operator_hermes_agen.Policy.{
  has_port, build_egress, build_network_policy, additional_network_policy_ports, tcp, udp,
}
use k8s_operator_hermes_agen.Policy.Egress.{opens, opens-build_egress}
use k8s_operator_hermes_agen.Policy.Order.{Ascending, additional_network_policy_ports-Ascending}
use k8s_operator_hermes_agen.Objects.{
  build_service, build_pod_disruption_budget, build_persistent_volume_claim,
}
use k8s_operator_hermes_agen.Config.{ConfigPlan, HashPayload, build_config_plan_with_references}
use k8s_operator_hermes_agen.Pod.{PodTemplateInputs, build_stateful_set, build_pod_template_inputs}
use k8s_operator_hermes_agen.Pod.Volumes.{mounted_names, volume_names, build_stateful_set-mounts}
use k8s_operator_hermes_agen.Pod.Selectors.{Selects, selectors-match}
use k8s_operator_hermes_agen.Webhook.Defaults.{default}
use k8s_operator_hermes_agen.Webhook.Defaults.Settled.{default-again}
use k8s_operator_hermes_agen.Webhook.Defaults.Built.{with_image, builds-default}
use k8s_operator_hermes_agen.Backend.{terminal_backend_from_config_content}
use k8s_operator_hermes_agen.Settings.{
  service_enabled, persistence_enabled, pod_disruption_budget_enabled, network_policy_enabled,
}
use k8s_operator_hermes_agen.Examples.Agents.{plain}

abbrev plain_plan : ConfigPlan
plain_plan = record {
  files =
      record {
        id = "config";
        file_name = "config.yaml";
        config_map_name = "demo-config";
        secret_name = "";
        source_key = "config.yaml";
        mount_path = "/data/hermes/config.yaml";
        generated = true;
        content = "terminal: {}";
      }
      ∷ [];
  hash = "hash";
}

abbrev plain_inputs : PodTemplateInputs
plain_inputs = build_pod_template_inputs plain plain_plan

opens-build_egress_example :
    (opens tcp (pos 22) (build_egress plain "ssh") ≡ (
      has_port (pos 22) (pos 53 ∷ pos 80 ∷ pos 443 ∷ [])
      || ("ssh" == "ssh" && eqb_ℤ (pos 22) (pos 22)
          || has_port (pos 22) (pos 8443 ∷ pos 22 ∷ pos 8443 ∷ []))))
    × (opens udp (pos 22) (build_egress plain "ssh")
        ≡ (eqb_ℤ (pos 22) (pos 53) || has_port (pos 22) (pos 123 ∷ [])))
opens-build_egress_example = opens-build_egress plain "ssh" (pos 22)

additional_network_policy_ports-Ascending_example :
    Ascending
      (additional_network_policy_ports (pos 9000 ∷ pos 443 ∷ pos 22 ∷ pos 9000 ∷ []) (pos 443 ∷ []))
additional_network_policy_ports-Ascending_example =
    additional_network_policy_ports-Ascending (pos 9000 ∷ pos 443 ∷ pos 22 ∷ pos 9000 ∷ [])
      (pos 443 ∷ [])

build_stateful_set-mounts_example :
    (c : Container) × ((build_stateful_set plain plain_inputs).template_spec.containers ≡ c ∷ [])
    × (mounted_names c.volume_mounts
        ≡ volume_names (build_stateful_set plain plain_inputs).template_spec.volumes)
build_stateful_set-mounts_example = build_stateful_set-mounts plain plain_plan

selectors-match_example :
    Selects
      (build_stateful_set plain plain_inputs).selector.match_labels
      (build_stateful_set plain plain_inputs).template_labels
    × Selects
        (build_service plain).spec.selector
        (build_stateful_set plain plain_inputs).template_labels
    × Selects
        (build_pod_disruption_budget plain).spec.selector.match_labels
        (build_stateful_set plain plain_inputs).template_labels
    × Selects
        (build_network_policy plain "ssh").pod_selector.match_labels
        (build_stateful_set plain plain_inputs).template_labels
selectors-match_example = selectors-match plain plain_inputs "ssh"

default-again_example : default (default plain) ≡ default plain
default-again_example = default-again plain

-- An agent that leaves its image open
abbrev unpinned : HermesAgent
unpinned = record plain {
  spec = record (plain.spec) { image = record { repository = ""; tag = ""; pull_policy = "" } };
}

abbrev constant_digest : HashPayload → String
constant_digest payload = "hash"

abbrev exact : String → Result String String
exact q = ok q

builds-default_example :
    (build_stateful_set (default unpinned) plain_inputs
      ≡ build_stateful_set (with_image unpinned) plain_inputs)
    × (build_config_plan_with_references constant_digest (default unpinned) no_inputs
        ≡ build_config_plan_with_references constant_digest unpinned no_inputs)
    × (build_pod_template_inputs (default unpinned) plain_plan
        ≡ build_pod_template_inputs unpinned plain_plan)
    × (build_service (default unpinned) ≡ build_service unpinned)
    × (build_persistent_volume_claim exact (default unpinned)
        ≡ build_persistent_volume_claim exact unpinned)
    × (build_pod_disruption_budget (default unpinned) ≡ build_pod_disruption_budget unpinned)
    × (build_network_policy (default unpinned) "ssh" ≡ build_network_policy unpinned "ssh")
    × (service_enabled (default unpinned) ≡ service_enabled unpinned)
    × (persistence_enabled (default unpinned) ≡ persistence_enabled unpinned)
    × (pod_disruption_budget_enabled (default unpinned) ≡ pod_disruption_budget_enabled unpinned)
    × (network_policy_enabled (default unpinned) ≡ network_policy_enabled unpinned)
builds-default_example =
    builds-default unpinned constant_digest exact no_inputs plain_plan "ssh" plain_inputs

abbrev doc_key : KeySelector
doc_key = record { name = "c"; key = "k"; optional = none }

abbrev doc_map : ConfigMapContents
doc_map = record { text = ("k", "ab") ∷ []; binary = [] }

abbrev binary_map : ConfigMapContents
binary_map = record { text = []; binary = ("k", 97 ∷ 98 ∷ []) ∷ [] }

abbrev doc_secret : SecretContents
doc_secret = record { binary = ("k", 97 ∷ 98 ∷ []) ∷ [] }

-- A parser that finds "ssh" in a document of two bytes.
abbrev two_bytes : Bytes → Option String
two_bytes (x ∷ y ∷ []) = some "ssh"
two_bytes _ = none

same_text-same_backend_example :
    (from_config_map two_bytes doc_key doc_map ≡ from_raw two_bytes "ab")
    × (from_secret two_bytes doc_key doc_secret ≡ from_raw two_bytes "ab")
    × (from_config_map two_bytes doc_key binary_map
        ≡ terminal_backend_from_config_content two_bytes (utf8 (encode (utf8 "ab"))))
unfolding lookup utf8
same_text-same_backend_example =
    same_text-same_backend two_bytes "ab" doc_key doc_map binary_map doc_secret refl refl refl refl
      refl (omega arith) refl refl

abbrev doc_item : FileProjectionItem
doc_item = record { key = "k"; path = "doc"; mode = none }

abbrev lost_item : FileProjectionItem
lost_item = record { key = "lost"; path = "lost"; mode = none }

projection-messages_example :
    (is_empty (
        snapshot_messages
          (new_config_map_projection_snapshot "c" (doc_item ∷ lost_item ∷ []) (some doc_map)))
      ≡ all
          (λ (i : FileProjectionItem).
            is_set (lookup i.key doc_map.text) || is_set (lookup i.key doc_map.binary))
          (doc_item ∷ lost_item ∷ []))
    × (is_empty (
          snapshot_messages
            (new_secret_projection_snapshot "c" (doc_item ∷ lost_item ∷ []) (some doc_secret)))
        ≡ all
            (λ (i : FileProjectionItem). is_set (lookup i.key doc_secret.binary))
            (doc_item ∷ lost_item ∷ []))
projection-messages_example = projection-messages "c" doc_item (lost_item ∷ []) doc_map doc_secret
