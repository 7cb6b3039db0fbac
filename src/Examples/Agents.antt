-- ===== src/Examples/Agents.antt =====
-- Two agents: one with the defaults, and one whose configuration is given twice.
use k8s_operator_hermes_agen.Common.{pos, true, false, none, some, [], ◌∷◌}
use k8s_operator_hermes_agen.Api.{HermesAgent, AgentSpec, AgentStatus, ConfigSource, ProbeSpec}

abbrev pub no_source : ConfigSource
no_source = record { raw = ""; config_map_ref = none; secret_ref = none }

abbrev pub no_probe : ProbeSpec
no_probe = record {
  enabled = none;
  initial_delay_seconds = pos 0;
  period_seconds = pos 0;
  timeout_seconds = pos 0;
  failure_threshold = pos 0;
}

abbrev pub plain_spec : AgentSpec
plain_spec = record {
  image = record { repository = "hermes"; tag = "v1"; pull_policy = "Always" };
  mode = "";
  config = record no_source { raw = "terminal: {}" };
  gateway_config = no_source;
  env = [];
  env_from = [];
  secret_refs = record { name = "token" } ∷ [];
  file_mounts =
      record {
        mount_path = "/etc/hermes";
        config_map_ref = some (record { name = "files" });
        secret_ref = none;
        items = record { key = "a"; path = "sub/a.txt"; mode = some (pos 420) } ∷ [];
        default_mode = none;
      }
      ∷ [];
  image_pull_secrets = [];
  pod_labels = ("app.kubernetes.io/instance", "mine") ∷ ("team", "red") ∷ [];
  pod_annotations = [];
  service_account_name = "";
  automount_service_account_token = none;
  node_selector = [];
  tolerations = [];
  affinity = none;
  topology_spread_constraints = [];
  termination_grace_period_seconds = none;
  replicas = pos 1;
  update_strategy = record { type = ""; rolling_update = none };
  persistence = record {
    enabled = none;
    size = "5Gi";
    storage_class_name = some "fast";
    access_modes = [];
  };
  terminal_backend = "ssh";
  resources = "";
  probes = record {
    startup = no_probe;
    readiness = no_probe;
    liveness = no_probe;
    require_connected_platform = false;
  };
  service = record {
    enabled = true;
    annotations = ("tier", "front") ∷ [];
    type = "NodePort";
    port = pos 9000;
    target_port = pos 0;
  };
  network_policy = record {
    enabled = some true;
    destinations = [];
    additional_tcp_ports = pos 8443 ∷ pos 22 ∷ pos 8443 ∷ [];
    additional_udp_ports = pos 123 ∷ [];
  };
}

abbrev pub plain : HermesAgent
plain = record { name = "demo"; namespace = "team"; uid = "u1"; spec = plain_spec }

-- Its configuration is inline and in a ConfigMap.
abbrev pub doubled : HermesAgent
doubled = record plain {
  spec = record plain_spec {
    config = record {
      raw = "terminal: {}";
      config_map_ref = some (record { name = "c"; key = "k"; optional = none });
      secret_ref = none;
    };
  };
}

abbrev pub no_status : AgentStatus
no_status = record {
  phase = "";
  observed_generation = pos 1;
  image = "";
  config_hash = "";
  ready_replicas = pos 1;
  persistence_bound = true;
  persistent_volume_claim_name = "";
  persistent_volume_claim_drifted_fields = [];
  persistent_volume_claim_remediation = "";
  service_name = "";
  last_reconcile_time = none;
  conditions = [];
}
