-- ===== src/Config.antt =====
-- internal/controller/hermesagent_resources.go: the config plan.
pub mod Plans
use k8s_operator_hermes_agen.Common.{
  ℕ, suc, ltb, String, ◌==◌, ◌<>◌, Bool, true, false, not, ◌||◌, Option, none, some, List, [], ◌∷◌,
  ◌++◌, Result, ok, err, ◌>>=◌, if◌then◌else◌,
}
use k8s_operator_hermes_agen.Api.{
  HermesAgent, ConfigSource, KeySelector, EnvVar, EnvFromSource, LocalObjectReference,
  FileMountSpec,
}
use k8s_operator_hermes_agen.Settings.{generated_config_map_name, source_field_name}
use k8s_operator_hermes_agen.GoPath.{join}
use k8s_operator_hermes_agen.FileMounts.{is_set, validate_file_mount_specs}
use k8s_operator_hermes_agen.Snapshots.{ReferencedInputs, no_inputs}

-- resolvedConfigFile
pub record ResolvedConfigFile : Type 0 where
  pub id : String
  pub file_name : String
  pub config_map_name : String
  pub secret_name : String
  pub source_key : String
  pub mount_path : String
  pub generated : Bool
  pub content : String

-- configPlan
pub record ConfigPlan : Type 0 where
  pub files : List ResolvedConfigFile
  pub hash : String

-- The loop that counts the `true` of a list.
abbrev pub count_true : List Bool → ℕ
count_true [] = 0
count_true (b ∷ bs) = if b then suc (count_true bs) else count_true bs

-- How many of the three sources are set.
abbrev pub source_count : ConfigSource → ℕ
source_count s = count_true (not (s.raw == "") ∷ is_set s.config_map_ref ∷ is_set s.secret_ref ∷ [])

abbrev pub hermes_home_path : String
hermes_home_path = "/data/hermes"

-- The file before its source is filled in.
unfoldable pub blank_file : String → String → ResolvedConfigFile
blank_file id file_name = record {
  id = id;
  file_name = file_name;
  config_map_name = "";
  secret_name = "";
  source_key = "";
  mount_path = join hermes_home_path file_name;
  generated = false;
  content = "";
}

-- `ref.Name == "" || ref.Key == ""`
abbrev pub is_incomplete : KeySelector → Bool
is_incomplete r = r.name == "" || r.key == ""

abbrev pub ConfigFile : Type 0
ConfigFile = Result String (Option ResolvedConfigFile)

abbrev from_config_map : String → ResolvedConfigFile → KeySelector → ConfigFile
from_config_map id file r =
    if is_incomplete r
    then err ("spec." <> source_field_name id <> ".configMapRef requires both name and key")
    else ok (some (record file { config_map_name = r.name; source_key = r.key }))

abbrev from_secret : String → ResolvedConfigFile → KeySelector → ConfigFile
from_secret id file r =
    if is_incomplete r
    then err ("spec." <> source_field_name id <> ".secretRef requires both name and key")
    else ok (some (record file { secret_name = r.name; source_key = r.key }))

-- The references, in the order in which they are tried once nothing is inline.
abbrev from_references :
    String → ResolvedConfigFile → Option KeySelector → Option KeySelector → ConfigFile
from_references id file none none = ok none
from_references id file none (some r) = from_secret id file r
from_references id file (some r) secret = from_config_map id file r

-- `resolveConfigFile`
unfoldable pub resolve_config_file : HermesAgent → String → String → ConfigSource → ConfigFile
unfolding blank_file
resolve_config_file agent id file_name source =
    let file = blank_file id file_name in
    if ltb 1 (source_count source)
    then err (
        "spec."
        <> source_field_name id
        <> " must set exactly one of raw, configMapRef, or secretRef")
    else if not (source.raw == "")
    then ok (
        some (record file {
          config_map_name = generated_config_map_name agent.name id;
          source_key = file_name;
          generated = true;
          content = source.raw;
        }))
    else from_references id file source.config_map_ref source.secret_ref

abbrev pub add_file : List ResolvedConfigFile → Option ResolvedConfigFile → List ResolvedConfigFile
add_file files none = files
add_file files (some f) = files ++ (f ∷ [])

-- The payload of `computeConfigHash`.
pub record HashPayload : Type 0 where
  pub files : List ResolvedConfigFile
  pub env : List EnvVar
  pub env_from : List EnvFromSource
  pub secret_refs : List LocalObjectReference
  pub file_mounts : List FileMountSpec
  pub referenced_inputs : ReferencedInputs

-- `if err := …; err != nil { return err }`
abbrev pub check : Option String → Result String (Unit {0})
check none = ok tt
check (some e) = err e

-- `digest` is the hexadecimal SHA-256 of the payload's JSON.
module _ (digest : HashPayload → String) where
  unfoldable pub compute_config_hash :
      HermesAgent → List ResolvedConfigFile → ReferencedInputs → String
  compute_config_hash agent files inputs = digest (record {
    files = files;
    env = agent.spec.env;
    env_from = agent.spec.env_from;
    secret_refs = agent.spec.secret_refs;
    file_mounts = agent.spec.file_mounts;
    referenced_inputs = inputs;
  })

  unfoldable pub build_config_plan_with_references :
      HermesAgent → ReferencedInputs → Result String ConfigPlan
  unfolding compute_config_hash
  build_config_plan_with_references agent inputs =
      check (validate_file_mount_specs agent.spec.file_mounts) >>= λ _.
      resolve_config_file agent "config" "config.yaml" agent.spec.config >>= λ config.
      resolve_config_file agent "gateway-config" "gateway.json" agent.spec.gateway_config
      >>= λ gateway.
          let files = add_file (add_file [] config) gateway in
          ok (record { files = files; hash = compute_config_hash agent files inputs })

  -- `buildConfigPlan`
  unfoldable pub build_config_plan : HermesAgent → Result String ConfigPlan
  unfolding build_config_plan_with_references
  build_config_plan agent = build_config_plan_with_references agent no_inputs

-- `countGeneratedFiles`
unfoldable pub count_generated_files : List ResolvedConfigFile → ℕ
count_generated_files [] = 0
count_generated_files (f ∷ fs) =
    if f.generated then suc (count_generated_files fs) else count_generated_files fs
