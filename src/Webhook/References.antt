-- ===== src/Webhook/References.antt =====
-- Validation of the config sources, the environment and the name references.
use k8s_operator_hermes_agen.Common.{ℕ, suc, ltb, String, ◌==◌, not, ◌&&◌, List, [], ◌∷◌, ◌++◌}
use k8s_operator_hermes_agen.Api.{
  ConfigSource, KeySelector, EnvVar, EnvVarSource, EnvFromSource, LocalObjectReference,
}
use k8s_operator_hermes_agen.FileMounts.{is_set}
use k8s_operator_hermes_agen.Config.{source_count}
use k8s_operator_hermes_agen.Webhook.Fields.{
  FieldPath, ◌⟩◌, ◌at◌, ErrorList, required, invalid, error_if, when_set,
}

-- The name and the key that a set reference must have; `field` is its JSON name.
abbrev require_name_and_key : FieldPath → String → String → String → KeySelector → ErrorList
require_name_and_key path field name_message key_message r =
    error_if (r.name == "") (required (path ⟩ field ⟩ "name") name_message)
    ++ error_if (r.key == "") (required (path ⟩ field ⟩ "key") key_message)

unfoldable pub validate_config_source : FieldPath → ConfigSource → ErrorList
validate_config_source path s =
    error_if (ltb 1 (source_count s))
      (invalid path "raw, configMapRef, and secretRef are mutually exclusive")
    ++ (when_set s.config_map_ref (
          require_name_and_key path "configMapRef" "name is required when configMapRef is set"
            "key is required when configMapRef is set")
        ++ when_set s.secret_ref (
            require_name_and_key path "secretRef" "name is required when secretRef is set"
              "key is required when secretRef is set"))

abbrev validate_value_from : FieldPath → EnvVarSource → ErrorList
validate_value_from path v =
    when_set v.config_map_key_ref (
      require_name_and_key path "configMapKeyRef" "name is required when configMapKeyRef is set"
        "key is required when configMapKeyRef is set")
    ++ when_set v.secret_key_ref (
        require_name_and_key path "secretKeyRef" "name is required when secretKeyRef is set"
          "key is required when secretKeyRef is set")

-- `validateEnv`, from index i
unfoldable pub validate_env : ℕ → FieldPath → List EnvVar → ErrorList
validate_env i path [] = []
validate_env i path (v ∷ vs) =
    error_if (v.name == "") (required (path at i ⟩ "name") "name is required")
    ++ (when_set v.value_from (validate_value_from (path at i ⟩ "valueFrom"))
        ++ validate_env (suc i) path vs)

abbrev pub require_name : FieldPath → String → String → ErrorList
require_name path message name = error_if (name == "") (required (path ⟩ "name") message)

-- `validateEnvFrom`, from index i
unfoldable pub validate_env_from : ℕ → FieldPath → List EnvFromSource → ErrorList
validate_env_from i path [] = []
validate_env_from i path (s ∷ ss) =
    error_if (is_set s.config_map_ref && is_set s.secret_ref)
      (invalid (path at i) "configMapRef and secretRef are mutually exclusive")
    ++ (error_if (not (is_set s.config_map_ref) && not (is_set s.secret_ref))
          (invalid (path at i) "either configMapRef or secretRef must be set")
        ++ (when_set s.config_map_ref (λ r.
              require_name (path at i ⟩ "configMapRef") "name is required when configMapRef is set"
                r.name)
            ++ (when_set s.secret_ref (λ r.
                  require_name (path at i ⟩ "secretRef") "name is required when secretRef is set"
                    r.name)
                ++ validate_env_from (suc i) path ss)))

-- `validateLocalObjectReferences`, from index i
unfoldable pub validate_local_object_references :
    ℕ → FieldPath → List LocalObjectReference → ErrorList
validate_local_object_references i path [] = []
validate_local_object_references i path (r ∷ rs) =
    require_name (path at i) "name is required" r.name
    ++ validate_local_object_references (suc i) path rs
