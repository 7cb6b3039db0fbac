-- ===== src/Webhook/Replicas.antt =====
-- Replicas and persistence of an admitted agent, as the controller reads them.
use k8s_operator_hermes_agen.Common.{
  ℤ, pos, leb_ℤ, ltb_ℤ, eqb_ℤ, ◌&&◌, if◌then◌else◌, ◌≡◌, refl, String, Bool, true, false, Option,
  [], ◌∷◌, ◌++◌, Result, arith,
}
use k8s_operator_hermes_agen.Api.{HermesAgent, LabelSelector}
use k8s_operator_hermes_agen.Settings.{
  persistence_enabled, pod_disruption_budget_enabled, desired_replicas,
}
use k8s_operator_hermes_agen.Webhook.Fields.{FieldPath, FieldError, error_if, ErrorList, ◌⟩◌}
use k8s_operator_hermes_agen.Webhook.References.{
  validate_config_source, validate_env, validate_env_from, validate_local_object_references,
}
use k8s_operator_hermes_agen.Webhook.Mounts.{validate_file_mounts}
use k8s_operator_hermes_agen.Webhook.Validate.{spec_path, validate_replicas, validate_hermes_agent}

second_of : (es fs rest : ErrorList) → es ++ (fs ++ rest) ≡ [] → fs ≡ []
second_of [] [] rest h = refl
second_of [] (f ∷ fs) rest h = absurd (cc)
second_of (e ∷ es) fs rest h = absurd (cc)

rest_of : (a b c d rest : ErrorList) → a ++ (b ++ (c ++ (d ++ rest))) ≡ [] → rest ≡ []
rest_of [] [] [] [] rest h = h
rest_of (x ∷ a) b c d rest h = absurd (cc)
rest_of [] (x ∷ b) c d rest h = absurd (cc)
rest_of [] [] (x ∷ c) d rest h = absurd (cc)
rest_of [] [] [] (x ∷ d) rest h = absurd (cc)

no_errors :
    (b c : Bool) (e f : FieldError) → error_if b e ++ error_if c f ≡ [] → (b ≡ false) × (c ≡ false)
no_errors false false e f h = (refl, refl)
no_errors true c e f h = absurd (cc)
no_errors false true e f h = absurd (cc)

replicas_given : (n : ℤ) → leb_ℤ n (pos 0) ≡ false → (if eqb_ℤ n (pos 0) then pos 1 else n) ≡ n
replicas_given n positive = ground arith

budget_lem :
    (n : ℤ) (keep : Bool)
    → leb_ℤ n (pos 0) ≡ false
    → (ltb_ℤ (pos 1) n && keep) ≡ false
    → ltb_ℤ (pos 1) (if eqb_ℤ n (pos 0) then pos 1 else n) ≡ true
    → keep ≡ false
budget_lem n false positive single more = refl
budget_lem n true positive single more = absurd (ground arith)

replicas_lem :
    (a : HermesAgent)
    → validate_replicas spec_path a.spec ≡ []
    → (pod_disruption_budget_enabled a ≡ true → persistence_enabled a ≡ false)
      × (desired_replicas a ≡ a.spec.replicas)
unfolding validate_replicas pod_disruption_budget_enabled persistence_enabled desired_replicas
replicas_lem a h =
    let (positive, single) =
      no_errors (leb_ℤ a.spec.replicas (pos 0))
        (ltb_ℤ (pos 1) a.spec.replicas && persistence_enabled a) _ _ h in
    (
      budget_lem a.spec.replicas (persistence_enabled a) positive single,
      replicas_given a.spec.replicas positive,
    )

module _ (parse_quantity : String → Result String ℤ) (parse_prefix : String → Option String)
    (validate_label_selector : LabelSelector → FieldPath → ErrorList) where
  -- For an agent that the webhook admits, the controller runs the replicas that the spec names, and an
  -- agent that gets a PodDisruptionBudget has persistence disabled.
  pub admitted-no_shared_state :
      (a : HermesAgent)
      → validate_hermes_agent parse_quantity parse_prefix validate_label_selector a ≡ []
      → (pod_disruption_budget_enabled a ≡ true → persistence_enabled a ≡ false)
        × (desired_replicas a ≡ a.spec.replicas)
  unfolding validate_hermes_agent
  admitted-no_shared_state a h =
      let s = a.spec in
      replicas_lem a (
        second_of
          (validate_local_object_references 0 (spec_path ⟩ "imagePullSecrets") s.image_pull_secrets)
          (validate_replicas spec_path s) _
          (rest_of (validate_env_from 0 (spec_path ⟩ "envFrom") s.env_from)
            (validate_local_object_references 0 (spec_path ⟩ "secretRefs") s.secret_refs)
            (validate_file_mounts (spec_path ⟩ "fileMounts") 0 [] s.file_mounts) [] _
            (rest_of (validate_config_source (spec_path ⟩ "config") s.config)
              (validate_config_source (spec_path ⟩ "gatewayConfig") s.gateway_config)
              (validate_env 0 (spec_path ⟩ "env") s.env) [] _ h)))
