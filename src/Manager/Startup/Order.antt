-- ===== src/Manager/Startup/Order.antt =====
-- The order in which `main` sets the manager up, as a list of calls.
use k8s_operator_hermes_agen.Common.{
  ◌≡◌, refl, ap, ◌∙◌, String, Bool, true, false, Option, some, none, List, [], ◌∷◌, ◌++◌, All,
  Result, ok, err,
}
use mathlib.Core.List.{append_assoc}
use k8s_operator_hermes_agen.Controller.Exec.{Error, Exec, resume, raise, ◌>>◌}
use k8s_operator_hermes_agen.Controller.Exec.Keeps.{Keeps}
use k8s_operator_hermes_agen.Controller.Client.{Environment}
use k8s_operator_hermes_agen.Manager.Options.{
  CommandLine, parse_manager_config, webhooks_enabled, manager_options,
}
use k8s_operator_hermes_agen.Manager.Registration.{WebhookLibraries, setup_with_manager, registered}
use k8s_operator_hermes_agen.Manager.Startup.{
  Call, new_manager, complete_controller, complete_webhook, add_healthz_check, add_readyz_check,
  start, Exit, returned, exited, main, exit_or, or_exit, setup_webhooks, setup_controller,
  add_health_checks,
}

-- A call, and the message that is logged where it fails.
abbrev pub Step : Type 0 → Type 0
Step S = String × Call S

abbrev webhook_steps : {S : Type 0} → Bool → WebhookLibraries → List (Step S)
webhook_steps false w = []
webhook_steps true w = ("Failed to create webhook", complete_webhook (registered w)) ∷ []

abbrev health_steps : {S : Type 0} → List (Step S)
health_steps =
    ("Failed to set up health checks", add_healthz_check "healthz")
    ∷ ("Failed to set up health checks", add_readyz_check "readyz")
    ∷ []

abbrev pub is_start : {S : Type 0} → Call S → Bool
is_start (new_manager o) = false
is_start (complete_controller c) = false
is_start (complete_webhook w) = false
is_start (add_healthz_check name) = false
is_start (add_readyz_check name) = false
is_start start = true

-- What has to succeed before the manager may start.
abbrev pub setup_steps :
    {S : Type 0}
    → CommandLine
    → (String → String)
    → Environment S
    → WebhookLibraries
    → List (Step S)
setup_steps flags getenv r w =
    let enabled = webhooks_enabled getenv in
    ("Failed to start manager", new_manager (manager_options (parse_manager_config flags) enabled))
      ∷ ("Failed to create controller", complete_controller (setup_with_manager r))
      ∷ webhook_steps enabled w
    ++ health_steps

-- How the process ends after the steps.
abbrev pub exit_of : {S : Type 0} → Option (String × Error) × S → Exit × S
exit_of (none, s) = (returned, s)
exit_of (some (message, e), s) = (exited message e, s)

module _ {S : Type 0} (perform : Call S → Exec S (Unit {0})) where
  -- Runs the steps in their order up to the first that fails, and names that one.
  abbrev stopped :
      String
      → (S → Option (String × Error) × S)
      → Result Error (Unit {0})
      → S
      → Option (String × Error) × S
  stopped message rest (ok u) s = rest s
  stopped message rest (err e) s = (some (message, e), s)

  abbrev pub run_steps : List (Step S) → S → Option (String × Error) × S
  run_steps [] s = (none, s)
  run_steps ((message, call) ∷ steps) s =
      let (r, s') = perform call s in stopped message (run_steps steps) r s'

  -- `rest` runs the steps.
  abbrev Runs : (S → Exit × S) → List (Step S) → Type 0
  Runs rest steps = (s : S) → rest s ≡ exit_of (run_steps steps s)

  exit-stopped :
      (message : String) (rest : S → Exit × S) (steps : List (Step S))
      → Runs rest steps
      → (r : Result Error (Unit {0})) (s : S)
      → exit_or message rest r s ≡ exit_of (stopped message (run_steps steps) r s)
  exit-stopped message rest steps h (ok u) s = h s
  exit-stopped message rest steps h (err e) s = refl

  or_exit-Runs :
      (message : String) (call : Call S) (rest : S → Exit × S) (steps : List (Step S))
      → Runs rest steps
      → Runs (or_exit message (perform call) rest) ((message, call) ∷ steps)
  or_exit-Runs message call rest steps h s =
      exit-stopped message rest steps h (perform call s).0 (perform call s).1

  first-stopped :
      (message : String) (next : Call S) (rest : S → Exit × S) (steps : List (Step S))
      → Runs rest steps
      → (r : Result Error (Unit {0})) (s : S)
      → (let (r', s') = resume raise (λ _. perform next) r s in exit_or message rest r' s')
        ≡ exit_of (stopped message (run_steps ((message, next) ∷ steps)) r s)
  first-stopped message next rest steps h (ok u) s = or_exit-Runs message next rest steps h s
  first-stopped message next rest steps h (err e) s = refl

  or_exit_both-Runs :
      (message : String) (first next : Call S) (rest : S → Exit × S) (steps : List (Step S))
      → Runs rest steps
      → Runs
          (or_exit message (perform first >> perform next) rest)
          ((message, first) ∷ (message, next) ∷ steps)
  or_exit_both-Runs message first next rest steps h s =
      first-stopped message next rest steps h (perform first s).0 (perform first s).1

  setup_webhooks-Runs :
      (w : WebhookLibraries) (enabled : Bool) (rest : S → Exit × S) (steps : List (Step S))
      → Runs rest steps
      → Runs
          (or_exit "Failed to create webhook" (setup_webhooks perform w enabled) rest)
          (webhook_steps enabled w ++ steps)
  unfolding setup_webhooks
  setup_webhooks-Runs w false rest steps h s = h s
  setup_webhooks-Runs w true rest steps h s =
      or_exit-Runs "Failed to create webhook" (complete_webhook (registered w)) rest steps h s

  -- Steps after one that fails are not run.
  stopped-append :
      (message : String) (failure : String × Error) (rest rest' : S → Option (String × Error) × S)
      → ((s : S) → (rest s).0 ≡ some failure → rest' s ≡ rest s)
      → (r : Result Error (Unit {0})) (s : S) → (stopped message rest r s).0 ≡ some failure
      → stopped message rest' r s ≡ stopped message rest r s
  stopped-append message failure rest rest' same (ok u) s h = same s h
  stopped-append message failure rest rest' same (err e) s h = refl

  run_steps-append :
      (steps more : List (Step S)) (failure : String × Error) (s : S)
      → (run_steps steps s).0 ≡ some failure
      → run_steps (steps ++ more) s ≡ run_steps steps s
  run_steps-append [] more failure s h = absurd (cc)
  run_steps-append ((message, call) ∷ steps) more failure s h =
      stopped-append message failure (run_steps steps) (run_steps (steps ++ more))
        (run_steps-append steps more failure) (perform call s).0 (perform call s).1 h

  stopped-Keeps :
      (P : S → Type 0) (message : String) (rest : S → Option (String × Error) × S)
      → ((s : S) → P s → P (rest s).1)
      → (r : Result Error (Unit {0})) (s : S) → P s
      → P (stopped message rest r s).1
  stopped-Keeps P message rest kept (ok u) s p = kept s p
  stopped-Keeps P message rest kept (err e) s p = p

  run_steps-Keeps :
      (P : S → Type 0)
      → ((call : Call S) → is_start call ≡ false → Keeps P (perform call))
      → (steps : List (Step S)) → All (λ step. is_start step.1 ≡ false) steps
      → (s : S) → P s
      → P (run_steps steps s).1
  run_steps-Keeps P kept [] a s p = p
  run_steps-Keeps P kept ((message, call) ∷ steps) (h, a) s p =
      stopped-Keeps P message (run_steps steps) (run_steps-Keeps P kept steps a) (perform call s).0
        (perform call s).1 (kept call h s p)

  -- The process makes the calls of the set-up in their order and then starts the manager. It ends at
  -- the first call that fails, with that call's message, and returns where none fails.
  pub main-runs :
      (flags : CommandLine) (getenv : String → String) (r : Environment S) (w : WebhookLibraries)
      (s : S)
      → main perform flags getenv r w s
        ≡ exit_of
            (run_steps (setup_steps flags getenv r w ++ ("Failed to run manager", start) ∷ []) s)
  unfolding main setup_controller add_health_checks
  main-runs flags getenv r w s =
      let started = ("Failed to run manager", start) ∷ [] in
      let checked : List (Step S) =
        ("Failed to set up health checks", add_healthz_check "healthz")
        ∷ ("Failed to set up health checks", add_readyz_check "readyz")
        ∷ started in
      let served = webhook_steps (webhooks_enabled getenv) w ++ checked in
      or_exit-Runs _ _ _ (_ ∷ served)
        (or_exit-Runs _ _ _ served (
          setup_webhooks-Runs w (webhooks_enabled getenv) _ checked
            (or_exit_both-Runs _ _ _ _ started (or_exit-Runs _ _ _ [] (λ s. refl)))))
        s
      ∙ rw (append_assoc (webhook_steps (webhooks_enabled getenv) w) health_steps started)

  is_start-setup_steps :
      (flags : CommandLine) (getenv : String → String) (r : Environment S) (w : WebhookLibraries)
      (enabled : Bool)
      → All (λ (step : Step S). is_start step.1 ≡ false) (webhook_steps enabled w ++ health_steps)
  is_start-setup_steps flags getenv r w false = (refl, (refl, tt))
  is_start-setup_steps flags getenv r w true = (refl, (refl, (refl, tt)))

  exit_of-failed :
      (outcome : Option (String × Error)) (s : S) (failure : String × Error)
      → outcome ≡ some failure
      → exit_of (outcome, s) ≡ (exited failure.0 failure.1, s)
  exit_of-failed none s failure h = absurd (cc)
  exit_of-failed (some f) s failure h = cc

  -- If a call of the set-up is the first to fail, the process exits with that call's message and
  -- error, and whatever all calls but the start keep still holds: the manager is not started.
  pub main-not_started :
      (P : S → Type 0)
      → ((call : Call S) → is_start call ≡ false → Keeps P (perform call))
      → (flags : CommandLine) (getenv : String → String) (r : Environment S) (w : WebhookLibraries)
        (s : S) (failure : String × Error)
      → P s
      → (run_steps (setup_steps flags getenv r w) s).0 ≡ some failure
      → ((main perform flags getenv r w s).0 ≡ exited failure.0 failure.1)
        × P (main perform flags getenv r w s).1
  main-not_started P kept flags getenv r w s failure p h =
      let steps = setup_steps flags getenv r w in
      let ends : main perform flags getenv r w s
          ≡ (exited failure.0 failure.1, (run_steps steps s).1) =
        main-runs flags getenv r w s
        ∙ ap exit_of (run_steps-append steps (("Failed to run manager", start) ∷ []) failure s h)
        ∙ exit_of-failed (run_steps steps s).0 (run_steps steps s).1 failure h in
      (
        ap (λ x. x.0) ends,
        rw (ends) (
            run_steps-Keeps P kept steps
              (refl, (refl, is_start-setup_steps flags getenv r w (webhooks_enabled getenv))) s p),
      )
