-- ===== src/Manager/Options/Servers.antt =====
-- The servers of the manager: which protocols they speak, and which of them are there.
use k8s_operator_hermes_agen.Common.{
  ◌≡◌, refl, String, ◌==◌, Bool, true, false, Option, none, some, List, [], ◌∷◌, All, if◌then◌else◌,
  Bool-cases, inl, inr,
}
use k8s_operator_hermes_agen.FileMounts.{is_set}
use k8s_operator_hermes_agen.Manager.Options.{
  ManagerConfig, TlsConfig, TlsOption, build_tls_options, WebhookServer, new_webhook_server,
  new_metrics_server_options, with_authentication_and_authorization, new_manager_options,
  manager_options,
}

-- How a server makes its TLS configuration: it applies the options in their order.
abbrev pub configure : List TlsOption → TlsConfig → TlsConfig
configure [] c = c
configure (option ∷ options) c = configure options (option c)

abbrev pub present : Option WebhookServer → List WebhookServer
present none = []
present (some server) = server ∷ []

-- The protocols that a server offers where `c` is its configuration before the options.
abbrev pub offered : Bool → TlsConfig → List String
offered enable_http2 c = if enable_http2 then c.next_protos else "http/1.1" ∷ []

build_tls_options-offered :
    (enable_http2 : Bool) (c : TlsConfig)
    → (configure (build_tls_options enable_http2) c).next_protos ≡ offered enable_http2 c
unfolding build_tls_options
build_tls_options-offered true c = refl
build_tls_options-offered false c = refl

is_set-filtered :
    (secure : Bool)
    → is_set (if secure then some with_authentication_and_authorization else none) ≡ secure
is_set-filtered true = refl
is_set-filtered false = refl

metrics_lem :
    (cfg : ManagerConfig) (opts : List TlsOption)
    → ((new_metrics_server_options cfg opts).tls_opts ≡ opts)
      × (is_set (new_metrics_server_options cfg opts).filter_provider
          ≡ (new_metrics_server_options cfg opts).secure_serving)
unfolding new_metrics_server_options
metrics_lem cfg opts = elim (Bool-cases (cfg.metrics_cert_path == "")) [
  | inl empty ↦ rw (empty) (refl, is_set-filtered cfg.secure_metrics)
  | inr set ↦ rw (set) (refl, is_set-filtered cfg.secure_metrics)
]

picked_server :
    (opts : List TlsOption) (b : Bool) (x y : WebhookServer)
    → x.tls_opts ≡ opts
    → y.tls_opts ≡ opts
    → (server : WebhookServer) × ((if b then some x else some y) ≡ some server)
      × (server.tls_opts ≡ opts)
picked_server opts true x y hx hy = (x, refl, hx)
picked_server opts false x y hx hy = (y, refl, hy)

webhook_lem :
    (cfg : ManagerConfig) (opts : List TlsOption)
    → (server : WebhookServer) × (new_webhook_server cfg opts true ≡ some server)
      × (server.tls_opts ≡ opts)
unfolding new_webhook_server
webhook_lem cfg opts = picked_server opts (cfg.webhook_cert_path == "") _ _ refl refl

-- The metrics server and the webhook server, if there is one, offer HTTP/1.1 alone unless HTTP/2 was
-- enabled. The metrics endpoint has its authentication filter exactly if it is served securely. There
-- is a webhook server exactly if webhooks are enabled.
pub manager_options-servers :
    (cfg : ManagerConfig) (enable_webhooks : Bool) (c : TlsConfig)
    → (let o = manager_options cfg enable_webhooks in
        ((configure o.metrics.tls_opts c).next_protos ≡ offered cfg.enable_http2 c)
        × All
            (λ (server : WebhookServer).
              (configure server.tls_opts c).next_protos ≡ offered cfg.enable_http2 c)
            (present o.webhook_server)
        × (is_set o.metrics.filter_provider ≡ o.metrics.secure_serving)
        × (is_set o.webhook_server ≡ enable_webhooks))
unfolding manager_options new_manager_options new_webhook_server
manager_options-servers cfg false c =
    let (same, filter) = metrics_lem cfg (build_tls_options cfg.enable_http2) in
    (rw (same) (build_tls_options-offered cfg.enable_http2 c), tt, filter, refl)
manager_options-servers cfg true c =
    let (same, filter) = metrics_lem cfg (build_tls_options cfg.enable_http2) in
    let (server, made, same') = webhook_lem cfg (build_tls_options cfg.enable_http2) in
    (
      rw (same) (build_tls_options-offered cfg.enable_http2 c),
      rw (made) (rw (same') (build_tls_options-offered cfg.enable_http2 c), tt),
      filter,
      rw (made),
    )
