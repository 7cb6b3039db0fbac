-- ===== src/Webhook/Validate.antt =====
-- `validateHermesAgent` and the checks of the scalar settings. `parse_quantity` is
-- resource.ParseQuantity: the sign of the quantity, or the error's text.
use k8s_operator_hermes_agen.Common.{
  ℤ, pos, ltb_ℤ, leb_ℤ, String, ◌==◌, ◌<>◌, Bool, ◌&&◌, Option, none, some, [], ◌∷◌, ◌++◌, Result,
  ok, err, if◌then◌else◌,
}
use k8s_operator_hermes_agen.Api.{
  HermesAgent, AgentSpec, UpdateStrategySpec, ServiceConfig, PersistenceSpec, ProbeSpec,
  LabelSelector,
}
use k8s_operator_hermes_agen.Settings.{flag_or}
use k8s_operator_hermes_agen.Webhook.Fields.{
  FieldPath, child, ◌⟩◌, ErrorList, invalid, error_if, when_set,
}
use k8s_operator_hermes_agen.Webhook.References.{
  validate_config_source, validate_env, validate_env_from, validate_local_object_references,
}
use k8s_operator_hermes_agen.Webhook.Mounts.{validate_file_mounts}
use k8s_operator_hermes_agen.Webhook.Network.{validate_network_policy}

unfoldable pub validate_replicas : FieldPath → AgentSpec → ErrorList
validate_replicas path s =
    error_if (leb_ℤ s.replicas (pos 0))
      (invalid (path ⟩ "replicas") "replicas must be greater than zero")
    ++ error_if (ltb_ℤ (pos 1) s.replicas && flag_or Bool.true s.persistence.enabled) (
        invalid (path ⟩ "replicas")
          "replicas greater than 1 require spec.storage.persistence.enabled=false because the operator does not manage shared Hermes state")

-- `partition != nil && *partition < 0`
abbrev negative : Option ℤ → Bool
negative none = Bool.false
negative (some n) = ltb_ℤ n (pos 0)

unfoldable pub validate_update_strategy : FieldPath → UpdateStrategySpec → ErrorList
validate_update_strategy path u = when_set u.rolling_update λ r.
    error_if (u.type == "OnDelete")
      (invalid (path ⟩ "rollingUpdate") "rollingUpdate is only valid when type is RollingUpdate")
    ++ error_if (negative r.partition)
        (invalid (path ⟩ "rollingUpdate" ⟩ "partition") "partition must be zero or greater")

unfoldable pub validate_service : FieldPath → ServiceConfig → ErrorList
validate_service path s =
    error_if (s.enabled && leb_ℤ s.port (pos 0))
      (invalid (path ⟩ "port") "port must be greater than zero when service is enabled")
    ++ error_if (ltb_ℤ s.target_port (pos 0)) (
        invalid (path ⟩ "targetPort") (
          if s.enabled
          then "targetPort must be greater than zero when service is enabled"
          else "targetPort must be zero or greater"))

unfoldable pub validate_probe_spec : FieldPath → ProbeSpec → ErrorList
validate_probe_spec path p =
    error_if (ltb_ℤ p.period_seconds (pos 0))
      (invalid (path ⟩ "periodSeconds") "must be zero or greater")
    ++ (error_if (ltb_ℤ p.timeout_seconds (pos 0))
          (invalid (path ⟩ "timeoutSeconds") "must be zero or greater")
        ++ (error_if (ltb_ℤ p.failure_threshold (pos 0))
              (invalid (path ⟩ "failureThreshold") "must be zero or greater")
            ++ error_if (ltb_ℤ p.initial_delay_seconds (pos 0))
                (invalid (path ⟩ "initialDelaySeconds") "must be zero or greater")))

abbrev pub spec_path : FieldPath
spec_path = child "spec" ∷ []

module _ (parse_quantity : String → Result String ℤ) where
  unfoldable pub validate_storage : FieldPath → PersistenceSpec → ErrorList
  validate_storage path p = if p.size == "" then [] else elim (parse_quantity p.size) [
    | err e ↦ invalid (path ⟩ "size") ("must be a valid Kubernetes quantity: " <> e) ∷ []
    | ok sign ↦ error_if (leb_ℤ sign (pos 0)) (invalid (path ⟩ "size") "must be greater than zero")
  ]

  module _ (parse_prefix : String → Option String)
      (validate_label_selector : LabelSelector → FieldPath → ErrorList) where
    -- `validateHermesAgent`: the errors that it collects; it returns nil where there are none.
    unfoldable pub validate_hermes_agent : HermesAgent → ErrorList
    unfolding validate_storage
    validate_hermes_agent obj =
        let s = obj.spec in
        validate_config_source (spec_path ⟩ "config") s.config
        ++ (validate_config_source (spec_path ⟩ "gatewayConfig") s.gateway_config
            ++ (validate_env 0 (spec_path ⟩ "env") s.env
                ++ (validate_env_from 0 (spec_path ⟩ "envFrom") s.env_from
                    ++ (validate_local_object_references 0 (spec_path ⟩ "secretRefs") s.secret_refs
                        ++ (validate_file_mounts (spec_path ⟩ "fileMounts") 0 [] s.file_mounts
                            ++ (validate_local_object_references 0 (spec_path ⟩ "imagePullSecrets")
                                  s.image_pull_secrets
                                ++ (validate_replicas spec_path s
                                    ++ (validate_update_strategy (spec_path ⟩ "updateStrategy")
                                          s.update_strategy
                                        ++ (validate_service (spec_path ⟩ "service") s.service
                                            ++ (validate_network_policy parse_prefix
                                                  validate_label_selector
                                                  (spec_path ⟩ "networkPolicy") s.network_policy
                                                ++ (validate_storage
                                                      (spec_path ⟩ "storage" ⟩ "persistence")
                                                      s.persistence
                                                    ++ (validate_probe_spec
                                                          (spec_path ⟩ "probes" ⟩ "startup")
                                                          s.probes.startup
                                                        ++ (validate_probe_spec
                                                            (spec_path ⟩ "probes" ⟩ "readiness")
                                                            s.probes.readiness
                                                            ++ validate_probe_spec
                                                            (spec_path ⟩ "probes" ⟩ "liveness")
                                                            s.probes.liveness)))))))))))))
