-- ===== src/Manager/Startup.antt =====
-- cmd/main.go: main, with the calls of controller-runtime as actions that may fail.
pub mod Order
use k8s_operator_hermes_agen.Common.{String, Bool, Result, ok, err, if◌then◌else◌}
use k8s_operator_hermes_agen.Controller.Exec.{Error, Exec, pure, ◌>>◌}
use k8s_operator_hermes_agen.Controller.Client.{Environment}
use k8s_operator_hermes_agen.Manager.Options.{
  CommandLine, ManagerOptions, parse_manager_config, webhooks_enabled, manager_options,
}
use k8s_operator_hermes_agen.Manager.Registration.{
  ControllerSetup, WebhookSetup, WebhookLibraries, setup_with_manager, registered,
}

-- The calls that `main` makes on the manager. `new_manager` is ctrl.NewManager with the result of
-- ctrl.GetConfigOrDie, which ends the process itself where it fails; both checks are healthz.Ping.
pub data Call (S : Type 0) : Type 0 where
  new_manager : ManagerOptions → Call S
  complete_controller : ControllerSetup S → Call S
  complete_webhook : WebhookSetup → Call S
  add_healthz_check add_readyz_check : String → Call S
  start : Call S

-- How the process ends: `main` returns, or it logs the message and the error and exits with 1.
pub data Exit : Type 0 where
  returned : Exit
  exited : String → Error → Exit

module _ {S : Type 0} where
  -- `if err := m; err != nil { log message; os.Exit(1) }; rest`
  abbrev pub exit_or : String → (S → Exit × S) → Result Error (Unit {0}) → S → Exit × S
  exit_or message rest (ok u) s = rest s
  exit_or message rest (err e) s = (exited message e, s)

  abbrev pub or_exit : String → Exec S (Unit {0}) → (S → Exit × S) → S → Exit × S
  or_exit message m rest s = let (r, s') = m s in exit_or message rest r s'

-- `perform` is controller-runtime, and the manager that it made.
module _ {S : Type 0} (perform : Call S → Exec S (Unit {0})) where
  unfoldable pub setup_controller : Environment S → Exec S (Unit {0})
  setup_controller r = perform (complete_controller (setup_with_manager r))

  unfoldable pub setup_webhooks : WebhookLibraries → Bool → Exec S (Unit {0})
  setup_webhooks libraries enable_webhooks =
      if enable_webhooks then perform (complete_webhook (registered libraries)) else pure tt

  unfoldable pub add_health_checks : Exec S (Unit {0})
  add_health_checks = perform (add_healthz_check "healthz") >> perform (add_readyz_check "readyz")

  unfoldable pub main :
      CommandLine → (String → String) → Environment S → WebhookLibraries → S → Exit × S
  unfolding setup_controller setup_webhooks add_health_checks
  main flags getenv r libraries =
      let cfg = parse_manager_config flags in
      let enable_webhooks = webhooks_enabled getenv in
      or_exit "Failed to start manager"
        (perform (new_manager (manager_options cfg enable_webhooks)))
        (or_exit "Failed to create controller" (setup_controller r) (
          or_exit "Failed to create webhook" (setup_webhooks libraries enable_webhooks) (
            or_exit "Failed to set up health checks" add_health_checks
              (or_exit "Failed to run manager" (perform start) (λ s. (returned, s))))))
