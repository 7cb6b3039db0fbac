-- ===== src/Examples/Starts.antt =====
-- Starts of the process, on a state that is a cluster.
use k8s_operator_hermes_agen.Common.{
  ◌≡◌, refl, String, true, false, [], ◌∷◌, ◌++◌, ok, err, ℤ, none, All,
}
use k8s_operator_hermes_agen.FileMounts.{is_set}
use k8s_operator_hermes_agen.Controller.Exec.{Exec, other}
use k8s_operator_hermes_agen.Controller.Client.{AgentObject}
use k8s_operator_hermes_agen.Manager.Options.{
  CommandLine, TlsConfig, WebhookServer, parse_manager_config, manager_options, webhooks_enabled,
}
use k8s_operator_hermes_agen.Manager.Options.Servers.{
  configure, present, offered, manager_options-servers,
}
use k8s_operator_hermes_agen.Manager.Registration.{WebhookLibraries}
use k8s_operator_hermes_agen.Manager.Startup.{
  Call, new_manager, complete_controller, complete_webhook, add_healthz_check, add_readyz_check,
  start, exited, main,
}
use k8s_operator_hermes_agen.Manager.Startup.Order.{
  is_start, setup_steps, run_steps, exit_of, main-runs, main-not_started,
}
use k8s_operator_hermes_agen.Examples.Agents.{plain, no_status}
use k8s_operator_hermes_agen.Examples.Cluster.{Cluster, nothing, env}

-- No flag is given: each has its default.
abbrev no_flags : CommandLine
no_flags = record { string_var = λ name d. d; bool_var = λ name d. d; bind_flags = λ o. o }

abbrev no_variable : String → String
no_variable name = ""

abbrev libraries : WebhookLibraries
libraries = record {
  parse_quantity = λ q. ok (ℤ.pos 1);
  parse_prefix = λ p. none;
  validate_label_selector = λ s path. [];
}

abbrev started : AgentObject
started = record { agent = plain; generation = ℤ.pos 1; status = no_status }

-- A start adds an agent; the readiness check cannot be added.
abbrev perform : Call Cluster → Exec Cluster (Unit {0})
perform start s = (ok tt, record s { agents = ("plain", started) ∷ [] })
perform (add_readyz_check name) s = (err (other "taken"), s)
perform (new_manager o) s = (ok tt, s)
perform (complete_controller c) s = (ok tt, s)
perform (complete_webhook w) s = (ok tt, s)
perform (add_healthz_check name) s = (ok tt, s)

main-runs_example :
    main perform no_flags no_variable env libraries nothing
    ≡ exit_of (
        run_steps perform
          (setup_steps no_flags no_variable env libraries ++ ("Failed to run manager", start) ∷ [])
          nothing)
main-runs_example = main-runs perform no_flags no_variable env libraries nothing

-- The cluster before the start
abbrev Untouched : Cluster → Type 0
Untouched s = s ≡ nothing

perform-Untouched :
    (call : Call Cluster)
    → is_start call ≡ false
    → (s : Cluster) → Untouched s
    → Untouched (perform call s).1
perform-Untouched start h s p = absurd (cc)
perform-Untouched (add_readyz_check name) h s p = p
perform-Untouched (new_manager o) h s p = p
perform-Untouched (complete_controller c) h s p = p
perform-Untouched (complete_webhook w) h s p = p
perform-Untouched (add_healthz_check name) h s p = p

main-not_started_example :
    ((main perform no_flags no_variable env libraries nothing).0
      ≡ exited "Failed to set up health checks" (other "taken"))
    × Untouched (main perform no_flags no_variable env libraries nothing).1
unfolding webhooks_enabled
main-not_started_example =
    main-not_started perform Untouched perform-Untouched no_flags no_variable env libraries nothing
      ("Failed to set up health checks", other "taken") refl refl

manager_options-servers_example :
    let cfg = parse_manager_config no_flags in
    let c : TlsConfig = record { next_protos = "h2" ∷ [] } in
    let o = manager_options cfg true in
    ((configure o.metrics.tls_opts c).next_protos ≡ offered cfg.enable_http2 c)
    × All
        (λ (server : WebhookServer).
          (configure server.tls_opts c).next_protos ≡ offered cfg.enable_http2 c)
        (present o.webhook_server)
    × (is_set o.metrics.filter_provider ≡ o.metrics.secure_serving)
    × (is_set o.webhook_server ≡ true)
manager_options-servers_example =
    manager_options-servers (parse_manager_config no_flags) true
      (record { next_protos = "h2" ∷ [] })
