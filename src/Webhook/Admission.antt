-- ===== src/Webhook/Admission.antt =====
-- The webhook's checks against what the controller needs for a config plan.
use k8s_operator_hermes_agen.Common.{
  ℤ, ◌≡◌, refl, ◌∙◌, String, Bool, true, false, ◌&&◌, Option, none, some, [], ◌∷◌, ◌++◌, is_empty,
  Result, ok, err, ◌>>=◌, arith,
}
use k8s_operator_hermes_agen.Api.{HermesAgent, KeySelector, LabelSelector}
use k8s_operator_hermes_agen.Config.{
  HashPayload, ConfigPlan, resolve_config_file, build_config_plan_with_references, check,
  ConfigFile, ResolvedConfigFile,
}
use k8s_operator_hermes_agen.FileMounts.{validate_file_mount_specs}
use k8s_operator_hermes_agen.Snapshots.{ReferencedInputs}
use k8s_operator_hermes_agen.Webhook.Fields.{FieldPath, ErrorList, ◌⟩◌}
use k8s_operator_hermes_agen.Webhook.References.{
  validate_config_source, validate_env, validate_env_from, validate_local_object_references,
}
use k8s_operator_hermes_agen.Webhook.Mounts.{validate_file_mounts}
use k8s_operator_hermes_agen.Webhook.Validate.{spec_path, validate_hermes_agent}
use k8s_operator_hermes_agen.FileMounts.{no_error}
use k8s_operator_hermes_agen.Webhook.Agreement.Loops.{validate_file_mounts-agree}

abbrev pub is_ok : {A : Type 0} → Result String A → Bool
is_ok (ok x) = true
is_ok (err e) = false

source_agrees :
    (path : FieldPath) (a : HermesAgent) (id file raw : String) (m s : Option KeySelector)
    → is_empty
        (validate_config_source path (record { raw = raw; config_map_ref = m; secret_ref = s }))
      ≡ is_ok
          (resolve_config_file a id file (record { raw = raw; config_map_ref = m; secret_ref = s }))
unfolding validate_config_source resolve_config_file
source_agrees path a id file raw none none = ground arith
source_agrees path a id file raw (some m) none = ground arith
source_agrees path a id file raw none (some s) = ground arith
source_agrees path a id file raw (some m) (some s) = ground arith

chain-is_ok :
    (o : Option String) (r1 r2 : ConfigFile)
    (plan : Option ResolvedConfigFile → Option ResolvedConfigFile → ConfigPlan)
    → is_ok (check o >>= λ _. r1 >>= λ c. r2 >>= λ g. ok (plan c g))
      ≡ (no_error o && (is_ok r1 && is_ok r2))
chain-is_ok (some e) r1 r2 plan = refl
chain-is_ok none (err e) r2 plan = refl
chain-is_ok none (ok c) (err e) plan = refl
chain-is_ok none (ok c) (ok g) plan = refl

-- The controller can build the config plan of an agent, whatever the referenced inputs, exactly if the
-- webhook's checks of the file mounts and of the two config sources find no error.
pub build_config_plan-agrees :
    (digest : HashPayload → String) (mounts config gateway : FieldPath) (a : HermesAgent)
    (inputs : ReferencedInputs)
    → is_ok (build_config_plan_with_references digest a inputs) ≡ (
        is_empty (validate_file_mounts mounts 0 [] a.spec.file_mounts)
        && (is_empty (validate_config_source config a.spec.config)
            && is_empty (validate_config_source gateway a.spec.gateway_config)))
unfolding build_config_plan_with_references
build_config_plan-agrees digest mounts config gateway a inputs =
    let c = a.spec.config in
    let g = a.spec.gateway_config in
    chain-is_ok (validate_file_mount_specs a.spec.file_mounts) _ _ _
    ∙ rw (
      validate_file_mounts-agree mounts a.spec.file_mounts,
      source_agrees config a "config" "config.yaml" c.raw c.config_map_ref c.secret_ref,
      source_agrees gateway a "gateway-config" "gateway.json" g.raw g.config_map_ref g.secret_ref,
    )

checks_of_the_plan :
    (c g e f s m rest : ErrorList)
    → c ++ (g ++ (e ++ (f ++ (s ++ (m ++ rest))))) ≡ []
    → (is_empty m && (is_empty c && is_empty g)) ≡ true
checks_of_the_plan [] [] [] [] [] [] rest h = refl
checks_of_the_plan (x ∷ c) g e f s m rest h = absurd (cc)
checks_of_the_plan [] (x ∷ g) e f s m rest h = absurd (cc)
checks_of_the_plan [] [] (x ∷ e) f s m rest h = absurd (cc)
checks_of_the_plan [] [] [] (x ∷ f) s m rest h = absurd (cc)
checks_of_the_plan [] [] [] [] (x ∷ s) m rest h = absurd (cc)
checks_of_the_plan [] [] [] [] [] (x ∷ m) rest h = absurd (cc)

is_ok-plan : (r : Result String ConfigPlan) → is_ok r ≡ true → (plan : ConfigPlan) × (r ≡ ok plan)
is_ok-plan (ok plan) h = (plan, refl)
is_ok-plan (err e) h = absurd (cc)

-- For an agent that the webhook admits, the controller builds a config plan, whatever the referenced
-- inputs.
pub admitted-build_config_plan :
    (parse_quantity : String → Result String ℤ) (parse_prefix : String → Option String)
    (validate_label_selector : LabelSelector → FieldPath → ErrorList)
    (digest : HashPayload → String) (a : HermesAgent) (inputs : ReferencedInputs)
    → validate_hermes_agent parse_quantity parse_prefix validate_label_selector a ≡ []
    → (plan : ConfigPlan) × (build_config_plan_with_references digest a inputs ≡ ok plan)
unfolding validate_hermes_agent
admitted-build_config_plan parse_quantity parse_prefix validate_label_selector digest a inputs h =
    is_ok-plan (build_config_plan_with_references digest a inputs) (
      build_config_plan-agrees digest (spec_path ⟩ "fileMounts") (spec_path ⟩ "config")
        (spec_path ⟩ "gatewayConfig") a inputs
      ∙ checks_of_the_plan (validate_config_source (spec_path ⟩ "config") a.spec.config)
          (validate_config_source (spec_path ⟩ "gatewayConfig") a.spec.gateway_config)
          (validate_env 0 (spec_path ⟩ "env") a.spec.env)
          (validate_env_from 0 (spec_path ⟩ "envFrom") a.spec.env_from)
          (validate_local_object_references 0 (spec_path ⟩ "secretRefs") a.spec.secret_refs)
          (validate_file_mounts (spec_path ⟩ "fileMounts") 0 [] a.spec.file_mounts) _ h)
