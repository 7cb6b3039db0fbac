-- ===== src/Manager/Options.antt =====
-- cmd/main.go: the flags, and the options of the manager and of its servers. The package flag with
-- the command line, and os.Getenv, are parameters.
pub mod Servers
use k8s_operator_hermes_agen.Common.{
  String, ◌==◌, Bool, true, false, not, Option, none, some, List, [], ◌∷◌, if◌then◌else◌,
}

-- zap.Options, of which the code sets one field
pub record ZapOptions : Type 0 where
  pub development : Bool

pub record ManagerConfig : Type 0 where
  pub metrics_addr : String
  pub metrics_cert_path : String
  pub metrics_cert_name : String
  pub metrics_cert_key : String
  pub webhook_cert_path : String
  pub webhook_cert_name : String
  pub webhook_cert_key : String
  pub enable_leader_election : Bool
  pub probe_addr : String
  pub secure_metrics : Bool
  pub enable_http2 : Bool
  pub zap_options : ZapOptions

-- flag.StringVar and flag.BoolVar followed by flag.Parse: the value of the flag of that name, whose
-- default is given. `bind_flags` is what zap.Options.BindFlags and flag.Parse make of the options.
pub record CommandLine : Type 0 where
  pub string_var : String → String → String
  pub bool_var : String → Bool → Bool
  pub bind_flags : ZapOptions → ZapOptions

unfoldable pub parse_manager_config : CommandLine → ManagerConfig
parse_manager_config flags = record {
  metrics_addr = flags.string_var "metrics-bind-address" "0";
  probe_addr = flags.string_var "health-probe-bind-address" ":8081";
  enable_leader_election = flags.bool_var "leader-elect" false;
  secure_metrics = flags.bool_var "metrics-secure" true;
  webhook_cert_path = flags.string_var "webhook-cert-path" "";
  webhook_cert_name = flags.string_var "webhook-cert-name" "tls.crt";
  webhook_cert_key = flags.string_var "webhook-cert-key" "tls.key";
  metrics_cert_path = flags.string_var "metrics-cert-path" "";
  metrics_cert_name = flags.string_var "metrics-cert-name" "tls.crt";
  metrics_cert_key = flags.string_var "metrics-cert-key" "tls.key";
  enable_http2 = flags.bool_var "enable-http2" false;
  zap_options = flags.bind_flags (record { development = true });
}

-- tls.Config, of which the code sets one field
pub record TlsConfig : Type 0 where
  pub next_protos : List String

abbrev pub TlsOption : Type 0
TlsOption = TlsConfig → TlsConfig

unfoldable pub build_tls_options : Bool → List TlsOption
build_tls_options enable_http2 =
    if enable_http2 then [] else (λ c. record c { next_protos = "http/1.1" ∷ [] }) ∷ []

unfoldable pub webhooks_enabled : (String → String) → Bool
webhooks_enabled getenv = not (getenv "ENABLE_WEBHOOKS" == "false")

-- webhook.Options, which stands for the server that webhook.NewServer makes of it
pub record WebhookServer : Type 0 where
  pub tls_opts : List TlsOption
  pub cert_dir : String
  pub cert_name : String
  pub key_name : String

-- `none` is a nil server.
unfoldable pub new_webhook_server : ManagerConfig → List TlsOption → Bool → Option WebhookServer
new_webhook_server cfg tls_opts false = none
new_webhook_server cfg tls_opts true =
    let options : WebhookServer = record {
      tls_opts = tls_opts;
      cert_dir = "";
      cert_name = "";
      key_name = "";
    } in
    if cfg.webhook_cert_path == ""
    then some options
    else some (record options {
      cert_dir = cfg.webhook_cert_path;
      cert_name = cfg.webhook_cert_name;
      key_name = cfg.webhook_cert_key;
    })

-- The one filter that the code names.
pub data FilterProvider : Type 0 where
  with_authentication_and_authorization : FilterProvider

-- metricsserver.Options
pub record MetricsOptions : Type 0 where
  pub bind_address : String
  pub secure_serving : Bool
  pub tls_opts : List TlsOption
  pub filter_provider : Option FilterProvider
  pub cert_dir : String
  pub cert_name : String
  pub key_name : String

unfoldable pub new_metrics_server_options : ManagerConfig → List TlsOption → MetricsOptions
new_metrics_server_options cfg tls_opts =
    let options : MetricsOptions = record {
      bind_address = cfg.metrics_addr;
      secure_serving = cfg.secure_metrics;
      tls_opts = tls_opts;
      filter_provider =
          if cfg.secure_metrics then some with_authentication_and_authorization else none;
      cert_dir = "";
      cert_name = "";
      key_name = "";
    } in
    if cfg.metrics_cert_path == "" then options else record options {
      cert_dir = cfg.metrics_cert_path;
      cert_name = cfg.metrics_cert_name;
      key_name = cfg.metrics_cert_key;
    }

-- ctrl.Options, without the scheme, which is the package's
pub record ManagerOptions : Type 0 where
  pub metrics : MetricsOptions
  pub health_probe_bind_address : String
  pub leader_election : Bool
  pub leader_election_id : String
  pub webhook_server : Option WebhookServer

unfoldable pub new_manager_options :
    ManagerConfig → MetricsOptions → Option WebhookServer → Bool → ManagerOptions
new_manager_options cfg metrics_options webhook_server enable_webhooks = record {
  metrics = metrics_options;
  health_probe_bind_address = cfg.probe_addr;
  leader_election = cfg.enable_leader_election;
  leader_election_id = "73bc4e30.nous.ai";
  webhook_server = if enable_webhooks then webhook_server else none;
}

-- The options that `main` hands to ctrl.NewManager
unfoldable pub manager_options : ManagerConfig → Bool → ManagerOptions
manager_options cfg enable_webhooks =
    let tls_opts = build_tls_options cfg.enable_http2 in
    new_manager_options cfg (new_metrics_server_options cfg tls_opts)
      (new_webhook_server cfg tls_opts enable_webhooks) enable_webhooks
