-- ===== src/Controller/Watch.antt =====
-- Which agents a change of a ConfigMap or Secret concerns.
pub mod Reads
pub mod Requests
use k8s_operator_hermes_agen.Common.{
  String, ◌==◌, Bool, false, ◌||◌, Option, none, some, List, [], ◌∷◌, Result, ok, err, any,
  if◌then◌else◌,
}
use k8s_operator_hermes_agen.Api.{
  HermesAgent, ConfigSource, KeySelector, FileMountSpec, LocalObjectReference, EnvVar, EnvVarSource,
  EnvFromSource, EnvSource,
}
use k8s_operator_hermes_agen.Controller.Exec.{Error}
use k8s_operator_hermes_agen.Controller.Client.{Key, Client}

-- `ref != nil && ref.Name == name`
abbrev pub selects : String → Option KeySelector → Bool
selects name none = false
selects name (some r) = r.name == name

abbrev pub refers : String → Option LocalObjectReference → Bool
refers name none = false
refers name (some r) = r.name == name

abbrev pub imports : String → Option EnvSource → Bool
imports name none = false
imports name (some r) = r.name == name

unfoldable pub config_source_references_config_map : ConfigSource → String → Bool
config_source_references_config_map s name = selects name s.config_map_ref

unfoldable pub config_source_references_secret : ConfigSource → String → Bool
config_source_references_secret s name = selects name s.secret_ref

abbrev pub value_from_config_map : String → Option EnvVarSource → Bool
value_from_config_map name none = false
value_from_config_map name (some v) = selects name v.config_map_key_ref

abbrev pub value_from_secret : String → Option EnvVarSource → Bool
value_from_secret name none = false
value_from_secret name (some v) = selects name v.secret_key_ref

unfoldable pub references_config_map : HermesAgent → String → Bool
unfolding config_source_references_config_map
references_config_map a name =
    if name == ""
    then false
    else (config_source_references_config_map a.spec.config name
        || config_source_references_config_map a.spec.gateway_config name)
      || (any (λ (v : EnvVar). value_from_config_map name v.value_from) a.spec.env
          || (any (λ (s : EnvFromSource). imports name s.config_map_ref) a.spec.env_from
              || any (λ (m : FileMountSpec). refers name m.config_map_ref) a.spec.file_mounts))

unfoldable pub references_secret : HermesAgent → String → Bool
unfolding config_source_references_secret
references_secret a name =
    if name == ""
    then false
    else (config_source_references_secret a.spec.config name
        || config_source_references_secret a.spec.gateway_config name)
      || (any (λ (v : EnvVar). value_from_secret name v.value_from) a.spec.env
          || (any (λ (s : EnvFromSource). imports name s.secret_ref) a.spec.env_from
              || (any (λ (r : LocalObjectReference). r.name == name) a.spec.secret_refs
                  || any (λ (m : FileMountSpec). refers name m.secret_ref) a.spec.file_mounts)))

-- The loop over the listed agents.
unfoldable pub matching_requests : (HermesAgent → Bool) → List HermesAgent → List Key
matching_requests matches [] = []
matching_requests matches (a ∷ rest) =
    let later = matching_requests matches rest in
    if matches a then record { name = a.name; namespace = a.namespace } ∷ later else later

-- A List that fails gives no requests.
abbrev requests_of : (HermesAgent → Bool) → Result Error (List HermesAgent) → List Key
requests_of matches (ok agents) = matching_requests matches agents
requests_of matches (err e) = []

module _ {S : Type 0} (client : Client S) where
  unfoldable pub find_referencing_agents : String → (HermesAgent → Bool) → S → List Key
  unfolding matching_requests
  find_referencing_agents namespace matches s =
      requests_of matches (client.list_agents namespace s).0

  unfoldable pub find_agents_for_config_map : Key → S → List Key
  unfolding find_referencing_agents references_config_map
  find_agents_for_config_map obj =
      find_referencing_agents obj.namespace (λ a. references_config_map a obj.name)

  unfoldable pub find_agents_for_secret : Key → S → List Key
  unfolding find_referencing_agents references_secret
  find_agents_for_secret obj =
      find_referencing_agents obj.namespace (λ a. references_secret a obj.name)
