-- ===== src/Probes.antt =====
-- internal/controller/hermesagent_resources.go: the startup, readiness and liveness probes.
use k8s_operator_hermes_agen.Common.{
  ℤ, pos, ltb_ℤ, String, ◌<>◌, Bool, true, not, Option, none, some, List, [], ◌∷◌, ◌++◌,
  if◌then◌else◌,
}
use k8s_operator_hermes_agen.Api.{HermesAgent, ProbeSpec, Probe}
use k8s_operator_hermes_agen.GoPath.{join}
use k8s_operator_hermes_agen.Settings.{flag_or}
use k8s_operator_hermes_agen.Config.{hermes_home_path}

-- probeConfig
pub record ProbeConfig : Type 0 where
  pub enabled : Bool
  pub initial_delay_seconds : ℤ
  pub period_seconds : ℤ
  pub timeout_seconds : ℤ
  pub failure_threshold : ℤ

-- `if v > 0 { config.F = v }`
abbrev pub positive_or : ℤ → ℤ → ℤ
positive_or d v = if ltb_ℤ (pos 0) v then v else d

unfoldable pub resolve_probe_config : ProbeSpec → ProbeConfig → ProbeConfig
resolve_probe_config spec defaults = record {
  enabled = flag_or defaults.enabled spec.enabled;
  initial_delay_seconds = positive_or defaults.initial_delay_seconds spec.initial_delay_seconds;
  period_seconds = positive_or defaults.period_seconds spec.period_seconds;
  timeout_seconds = positive_or defaults.timeout_seconds spec.timeout_seconds;
  failure_threshold = positive_or defaults.failure_threshold spec.failure_threshold;
}

unfoldable pub startup_probe_defaults : ProbeConfig
startup_probe_defaults = record {
  enabled = true;
  initial_delay_seconds = pos 0;
  period_seconds = pos 10;
  timeout_seconds = pos 5;
  failure_threshold = pos 18;
}

unfoldable pub readiness_probe_defaults : ProbeConfig
readiness_probe_defaults = record {
  enabled = true;
  initial_delay_seconds = pos 5;
  period_seconds = pos 10;
  timeout_seconds = pos 5;
  failure_threshold = pos 3;
}

unfoldable pub liveness_probe_defaults : ProbeConfig
liveness_probe_defaults = record {
  enabled = true;
  initial_delay_seconds = pos 15;
  period_seconds = pos 10;
  timeout_seconds = pos 5;
  failure_threshold = pos 3;
}

-- `%q` of a path of printable characters without quotes or backslashes, as the two paths below are.
unfoldable pub shell_quote : String → String
shell_quote value = "\"" <> value <> "\""

unfoldable pub hermes_gateway_pid_path : String
hermes_gateway_pid_path = join hermes_home_path "gateway.pid"

unfoldable pub hermes_gateway_state_path : String
hermes_gateway_state_path = join hermes_home_path "gateway_state.json"

-- The loop over `checks[1:]`.
join_rest : List String → String
join_rest [] = ""
join_rest (check ∷ checks) = " && " <> check <> join_rest checks

unfoldable pub join_with_and : List String → String
unfolding join_rest
join_with_and [] = "true"
join_with_and (check ∷ checks) = check <> join_rest checks

unfoldable pub probe_command : List String → String
unfolding join_with_and
probe_command checks = "set -euo pipefail; " <> join_with_and checks

-- `test -s` of the state file
unfoldable pub state_file_check : String
unfolding shell_quote hermes_gateway_state_path
state_file_check = "test -s " <> shell_quote hermes_gateway_state_path

unfoldable pub probe_process_check : String
unfolding shell_quote hermes_gateway_pid_path
probe_process_check =
    let path = shell_quote hermes_gateway_pid_path in
    "test -s " <> path <> " && pid=$(tr -d '\\n' < " <> path
    <> " | grep -Eo '\"pid\"[[:space:]]*:[[:space:]]*[0-9]+' | grep -Eo '[0-9]+' | head -n1) && [ -n \"$pid\" ] && kill -0 \"$pid\""

unfoldable pub probe_gateway_state_check : String → String
unfolding shell_quote hermes_gateway_state_path
probe_gateway_state_check expected_state =
    let path = shell_quote hermes_gateway_state_path in
    "test -s " <> path <> " && tr -d '\\n' < " <> path
    <> " | grep -Eq '\"gateway_state\"[[:space:]]*:[[:space:]]*\"" <> expected_state <> "\"'"

unfoldable pub probe_any_connected_platform_connected_check : String
unfolding shell_quote hermes_gateway_state_path
probe_any_connected_platform_connected_check =
    let path = shell_quote hermes_gateway_state_path in
    "test -s " <> path <> " && tr -d '\\n' < " <> path
    <> " | grep -Eq '\"platforms\"[[:space:]]*:[[:space:]]*\\{.*\"state\"[[:space:]]*:[[:space:]]*\"connected\"'"

unfoldable pub build_exec_probe : ProbeConfig → String → Probe
build_exec_probe config command = record {
  command = "bash" ∷ "-ec" ∷ command ∷ [];
  initial_delay_seconds = config.initial_delay_seconds;
  period_seconds = config.period_seconds;
  timeout_seconds = config.timeout_seconds;
  failure_threshold = config.failure_threshold;
}

-- `if !config.Enabled { return nil }`
abbrev pub probe_if_enabled : ProbeConfig → List String → Option Probe
probe_if_enabled config checks =
    if not config.enabled then none else some (build_exec_probe config (probe_command checks))

unfoldable pub hermes_startup_probe : HermesAgent → Option Probe
unfolding resolve_probe_config startup_probe_defaults build_exec_probe
hermes_startup_probe a =
    probe_if_enabled (resolve_probe_config a.spec.probes.startup startup_probe_defaults)
      (("test -s " <> shell_quote hermes_gateway_pid_path) ∷ state_file_check ∷ [])

unfoldable pub hermes_readiness_probe : HermesAgent → Option Probe
unfolding resolve_probe_config readiness_probe_defaults build_exec_probe
hermes_readiness_probe a =
    probe_if_enabled (resolve_probe_config a.spec.probes.readiness readiness_probe_defaults) (
      (probe_process_check ∷ probe_gateway_state_check "running" ∷ [])
      ++ (if a.spec.probes.require_connected_platform
          then probe_any_connected_platform_connected_check ∷ []
          else []))

unfoldable pub hermes_liveness_probe : HermesAgent → Option Probe
unfolding resolve_probe_config liveness_probe_defaults build_exec_probe
hermes_liveness_probe a =
    probe_if_enabled (resolve_probe_config a.spec.probes.liveness liveness_probe_defaults)
      (probe_process_check ∷ state_file_check ∷ [])
