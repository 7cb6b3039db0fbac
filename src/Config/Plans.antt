-- ===== src/Config/Plans.antt =====
-- What is known of an agent that has a config plan.
use k8s_operator_hermes_agen.Common.{
  ◌≡◌, refl, sym, String, ◌==◌, Bool, true, false, not, Option, none, some, List, [], ◌∷◌, All,
  All-append, ok, err, ◌>>=◌, ◌⊎◌, inl, inr, if◌then◌else◌, ltb,
}
use k8s_operator_hermes_agen.Api.{HermesAgent, ConfigSource, KeySelector}
use k8s_operator_hermes_agen.Settings.{generated_config_map_name}
use k8s_operator_hermes_agen.FileMounts.{no_error, validate_file_mount_specs}
use k8s_operator_hermes_agen.Snapshots.{ReferencedInputs}
use k8s_operator_hermes_agen.Config.{
  ResolvedConfigFile, ConfigPlan, ConfigFile, HashPayload, check, add_file, resolve_config_file,
  blank_file, from_references, is_incomplete, source_count, build_config_plan_with_references,
}

module _ (P : ResolvedConfigFile → Type 0) where
  -- P holds of the file, if there is one.
  abbrev pub Resolved : ConfigFile → Type 0
  Resolved (ok (some f)) = P f
  Resolved (ok none) = Unit {0}
  Resolved (err e) = Unit {0}

  if-Resolved :
      (b : Bool) (r s : ConfigFile) → Resolved r → Resolved s → Resolved (if b then r else s)
  if-Resolved true r s p q = p
  if-Resolved false r s p q = q

from_references-named :
    (P : String → Type 0) (id file_name : String) (m r : Option KeySelector)
    → P file_name
    → Resolved (λ f. P f.file_name) (from_references id (blank_file id file_name) m r)
unfolding blank_file
from_references-named P id file_name none none p = tt
from_references-named P id file_name none (some r) p =
    if-Resolved (λ f. P f.file_name) (is_incomplete r) _ _ tt p
from_references-named P id file_name (some m) r p =
    if-Resolved (λ f. P f.file_name) (is_incomplete m) _ _ tt p

resolve_config_file-named :
    (P : String → Type 0) (a : HermesAgent) (id file_name : String) (source : ConfigSource)
    → P file_name
    → Resolved (λ f. P f.file_name) (resolve_config_file a id file_name source)
unfolding resolve_config_file blank_file
resolve_config_file-named P a id file_name source p =
    let Q : ResolvedConfigFile → Type 0 = λ f. P f.file_name in
    if-Resolved Q (ltb 1 (source_count source)) _ _ tt (
      if-Resolved Q (not (source.raw == "")) _ _ p
        (from_references-named P id file_name source.config_map_ref source.secret_ref p))

-- P holds of each file of a plan, whichever of its two files are there.
add_file-All :
    (P : ResolvedConfigFile → Type 0) (files : List ResolvedConfigFile) (r : ConfigFile)
    (f : Option ResolvedConfigFile)
    → r ≡ ok f
    → All P files
    → Resolved P r
    → All P (add_file files f)
add_file-All P files r none e a p = a
add_file-All P files r (some f) e a p = All-append P files (f ∷ []) a (rw (e) at p, tt)

planned_lem :
    (P : ResolvedConfigFile → Type 0) (checked : Option String) (config gateway : ConfigFile)
    (make : Option ResolvedConfigFile → Option ResolvedConfigFile → ConfigPlan) (plan : ConfigPlan)
    → ((c g : Option ResolvedConfigFile) → (make c g).files ≡ add_file (add_file [] c) g)
    → (check checked >>= λ _. config >>= λ c. gateway >>= λ g. ok (make c g)) ≡ ok plan
    → Resolved P config
    → Resolved P gateway
    → (no_error checked ≡ true) × All P plan.files
planned_lem P (some e) config gateway make plan files h p q = absurd (cc)
planned_lem P none (err e) gateway make plan files h p q = absurd (cc)
planned_lem P none (ok c) (err e) make plan files h p q = absurd (cc)
planned_lem P none (ok c) (ok g) make plan files h p q =
    let made : make c g ≡ plan = cc in
    (
      refl,
      rw (sym made, files c g)
          (add_file-All P (add_file [] c) (ok g) g refl (add_file-All P [] (ok c) c refl tt p) q),
    )

-- The mounts of an agent with a plan have passed the checks, and the plan's files have the two names
-- that Hermes reads.
pub build_config_plan-checked :
    (P : String → Type 0) (digest : HashPayload → String) (a : HermesAgent)
    (inputs : ReferencedInputs) (plan : ConfigPlan)
    → build_config_plan_with_references digest a inputs ≡ ok plan
    → P "config.yaml"
    → P "gateway.json"
    → (no_error (validate_file_mount_specs a.spec.file_mounts) ≡ true)
      × All (λ (f : ResolvedConfigFile). P f.file_name) plan.files
unfolding build_config_plan_with_references
build_config_plan-checked P digest a inputs plan h p q =
    planned_lem (λ f. P f.file_name) (validate_file_mount_specs a.spec.file_mounts) _ _ _ plan
      (λ c g. refl) h (resolve_config_file-named P a "config" "config.yaml" a.spec.config p)
      (resolve_config_file-named P a "gateway-config" "gateway.json" a.spec.gateway_config q)

-- A file that is generated is kept under a generated name.
abbrev pub OwnFile : HermesAgent → ResolvedConfigFile → Type 0
OwnFile a f =
    (f.generated ≡ false)
    ⊎ ((id : String) × (f.config_map_name ≡ generated_config_map_name a.name id))

from_references-Own :
    (a : HermesAgent) (id file_name : String) (m r : Option KeySelector)
    → Resolved (OwnFile a) (from_references id (blank_file id file_name) m r)
unfolding blank_file
from_references-Own a id file_name none none = tt
from_references-Own a id file_name none (some r) =
    if-Resolved (OwnFile a) (is_incomplete r) _ _ tt (inl refl)
from_references-Own a id file_name (some m) r =
    if-Resolved (OwnFile a) (is_incomplete m) _ _ tt (inl refl)

resolve_config_file-Own :
    (a : HermesAgent) (id file_name : String) (source : ConfigSource)
    → Resolved (OwnFile a) (resolve_config_file a id file_name source)
unfolding resolve_config_file blank_file
resolve_config_file-Own a id file_name source =
    if-Resolved (OwnFile a) (ltb 1 (source_count source)) _ _ tt (
      if-Resolved (OwnFile a) (not (source.raw == "")) _ _ (inr (id, refl))
        (from_references-Own a id file_name source.config_map_ref source.secret_ref))

pub build_config_plan-Own :
    (digest : HashPayload → String) (a : HermesAgent) (inputs : ReferencedInputs)
    (plan : ConfigPlan)
    → build_config_plan_with_references digest a inputs ≡ ok plan
    → All (OwnFile a) plan.files
unfolding build_config_plan_with_references
build_config_plan-Own digest a inputs plan h =
    (planned_lem (OwnFile a) (validate_file_mount_specs a.spec.file_mounts) _ _ _ plan (λ c g. refl)
      h (resolve_config_file-Own a "config" "config.yaml" a.spec.config)
      (resolve_config_file-Own a "gateway-config" "gateway.json" a.spec.gateway_config)).1
