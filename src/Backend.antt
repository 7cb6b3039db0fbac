-- ===== src/Backend.antt =====
-- internal/controller/hermesagent_resources.go: the effective terminal backend.
-- `yaml` is the foreign parser with the struct that it fills: `terminal.backend` of a document, "" if
-- the document has none, `none` where Unmarshal fails.
pub mod Sources
use k8s_operator_hermes_agen.Common.{
  String, ◌==◌, Bool, not, ◌&&◌, ◌||◌, Option, none, some, List, [], ◌∷◌, lookup, if◌then◌else◌,
}
use k8s_operator_hermes_agen.Api.{HermesAgent, ConfigSource, KeySelector, Bytes}
use k8s_operator_hermes_agen.Base64.{decode, utf8}
use k8s_operator_hermes_agen.Snapshots.{Snapshot, ReferencedInputs}
use k8s_operator_hermes_agen.Config.{is_incomplete}

-- The kind, name and key of the reference that the source's `switch` picks.
pub record Reference : Type 0 where
  pub kind : String
  pub name : String
  pub key : String

abbrev secret_reference : Option KeySelector → Option Reference
secret_reference none = none
secret_reference (some r) =
    if is_incomplete r then none else some (record { kind = "Secret"; name = r.name; key = r.key })

unfoldable pub picked_reference : Option KeySelector → Option KeySelector → Option Reference
picked_reference none secret = secret_reference secret
picked_reference (some r) secret =
    if is_incomplete r
    then secret_reference secret
    else some (record { kind = "ConfigMap"; name = r.name; key = r.key })

-- A map read of a missing key gives "".
abbrev pub value_or_empty : Option String → String
value_or_empty none = ""
value_or_empty (some v) = v

abbrev is_snapshot_of : Reference → Snapshot → Bool
is_snapshot_of r s = s.kind == r.kind && s.name == r.name && s.key == r.key

module _ (yaml : Bytes → Option String) where
  unfoldable pub terminal_backend_from_config_content : Bytes → Option String
  terminal_backend_from_config_content content = elim (yaml content) [
    | none ↦ none
    | some backend ↦ if backend == "" then none else some backend
  ]

  abbrev from_decoded : Option Bytes → Option String
  from_decoded none = none
  from_decoded (some content) = terminal_backend_from_config_content content

  -- What a snapshot of the referenced object says.
  unfoldable pub snapshot_backend : Reference → Snapshot → Option String
  snapshot_backend r s =
      let content = value_or_empty (lookup r.key s.contents) in
      if not s.present || not s.key_found
      then none
      else if s.kind == "Secret"
      then from_decoded (decode content)
      else terminal_backend_from_config_content (utf8 content)

  -- The loop over the file snapshots: the first one of the referenced object decides.
  unfoldable pub search_snapshots : Reference → List Snapshot → Option String
  unfolding snapshot_backend
  search_snapshots r [] = none
  search_snapshots r (s ∷ rest) =
      if is_snapshot_of r s then snapshot_backend r s else search_snapshots r rest

  unfoldable pub config_source_terminal_backend : ConfigSource → ReferencedInputs → Option String
  unfolding search_snapshots picked_reference
  config_source_terminal_backend source inputs =
      if not (source.raw == "")
      then terminal_backend_from_config_content (utf8 source.raw)
      else elim (picked_reference source.config_map_ref source.secret_ref) [
        | none ↦ none
        | some r ↦ search_snapshots r inputs.file_refs
      ]

  unfoldable pub effective_terminal_backend : HermesAgent → ReferencedInputs → String
  unfolding config_source_terminal_backend
  effective_terminal_backend agent inputs =
      elim (config_source_terminal_backend agent.spec.config inputs) [
        | none ↦ agent.spec.terminal_backend
        | some backend ↦ backend
      ]
