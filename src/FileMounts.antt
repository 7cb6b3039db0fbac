-- ===== src/FileMounts.antt =====
-- internal/controller/hermesagent_resources.go: `validateFileMountSpecs`. An error is its message.
pub mod Checks
pub mod Paths
pub mod Confined
use text.Mathlib.Text.{starts_with}
use k8s_operator_hermes_agen.Common.{
  ℕ, suc, ℤ, pos, ltb_ℤ, String, ◌==◌, ◌<>◌, Bool, true, false, not, ◌&&◌, ◌||◌, Option, none, some,
  List, [], ◌∷◌, Map, lookup, insert, if◌then◌else◌,
}
use k8s_operator_hermes_agen.Common.Show.{decimal}
use k8s_operator_hermes_agen.Api.{FileMountSpec, FileProjectionItem, LocalObjectReference}
use k8s_operator_hermes_agen.GoPath.{is_abs, clean}

-- The first of two errors.
infixr 30 ◌or_err◌
abbrev pub ◌or_err◌ : Option String → Option String → Option String
some e or_err next = some e
none or_err next = next

abbrev pub no_error : Option String → Bool
no_error none = true
no_error (some e) = false

-- `if bad { return error }`
abbrev pub fail_if : Bool → String → Option String
fail_if true e = some e
fail_if false e = none

abbrev pub is_set {ℓ} : {A : Type ℓ} → Option A → Bool
is_set none = false
is_set (some a) = true

-- `ref != nil && ref.Name == ""`
abbrev pub is_unnamed : Option LocalObjectReference → Bool
is_unnamed none = false
is_unnamed (some r) = r.name == ""

-- `*mode < 0 || *mode > 0o777`
abbrev pub mode_out_of_range : Option ℤ → Bool
mode_out_of_range none = false
mode_out_of_range (some m) = ltb_ℤ m (pos 0) || ltb_ℤ (pos 511) m

unfoldable pub validate_file_mode_value : Option ℤ → String → Option String
validate_file_mode_value mode field_name =
    fail_if (mode_out_of_range mode) (field_name <> " must be between 0 and 0777")

abbrev pub leaves_directory : String → String → Bool
leaves_directory cleaned value =
    cleaned == "." || not (cleaned == value) || cleaned == ".." || starts_with cleaned "../"

unfoldable pub validate_file_mount_item_path : String → Option String
validate_file_mount_item_path value =
    if is_abs value
    then some "must be relative"
    else fail_if (leaves_directory (clean value) value) "must not contain '.' or '..' path segments"

-- "spec.fileMounts[i]"
abbrev pub mount_field : ℕ → String
mount_field i = "spec.fileMounts[" <> decimal i <> "]"

-- "spec.fileMounts[i].items[j]"
abbrev pub item_field : ℕ → ℕ → String
item_field i j = mount_field i <> ".items[" <> decimal j <> "]"

-- `if previous, exists := seen[key]; exists { return error }`
abbrev pub fail_if_seen : Option ℕ → (ℕ → String) → Option String
fail_if_seen none message = none
fail_if_seen (some previous) message = some (message previous)

-- `fmt.Errorf("… %s", err)` of an inner error
abbrev pub prefix_err : String → Option String → Option String
prefix_err p none = none
prefix_err p (some e) = some (p <> e)

-- The loop over `mount.Items`; `keys` and `paths` are the maps of what was seen before item j.
unfoldable pub validate_items : ℕ → ℕ → Map ℕ → Map ℕ → List FileProjectionItem → Option String
unfolding validate_file_mode_value
validate_items i j keys paths [] = none
validate_items i j keys paths (item ∷ items) =
    fail_if (item.key == "") (item_field i j <> ".key is required")
    or_err fail_if_seen (lookup item.key keys)
        (λ previous. item_field i j <> ".key duplicates " <> item_field i previous <> ".key")
    or_err fail_if (item.path == "") (item_field i j <> ".path is required")
    or_err prefix_err (item_field i j <> ".path ") (validate_file_mount_item_path item.path)
    or_err fail_if_seen (lookup item.path paths)
        (λ previous. item_field i j <> ".path duplicates " <> item_field i previous <> ".path")
    or_err validate_file_mode_value item.mode (item_field i j <> ".mode")
    or_err validate_items i (suc j) (insert item.key j keys) (insert item.path j paths) items

-- The loop over the mounts; `seen` is the map of the mount paths before mount i.
unfoldable pub validate_mounts : ℕ → Map ℕ → List FileMountSpec → Option String
unfolding validate_file_mode_value
validate_mounts i seen [] = none
validate_mounts i seen (mount ∷ mounts) =
    fail_if (is_set mount.config_map_ref && is_set mount.secret_ref)
      (mount_field i <> " cannot set both configMapRef and secretRef")
    or_err fail_if (not (is_set mount.config_map_ref) && not (is_set mount.secret_ref))
        (mount_field i <> " must set exactly one of configMapRef or secretRef")
    or_err fail_if (mount.mount_path == "") (mount_field i <> ".mountPath is required")
    or_err fail_if (not (is_abs mount.mount_path)) (mount_field i <> ".mountPath must be absolute")
    or_err fail_if_seen (lookup mount.mount_path seen) (λ previous.
      mount_field i <> ".mountPath duplicates " <> mount_field previous <> ".mountPath")
    or_err fail_if (is_unnamed mount.config_map_ref)
        (mount_field i <> ".configMapRef.name is required")
    or_err fail_if (is_unnamed mount.secret_ref) (mount_field i <> ".secretRef.name is required")
    or_err validate_file_mode_value mount.default_mode (mount_field i <> ".defaultMode")
    or_err validate_items i 0 [] [] mount.items
    or_err validate_mounts (suc i) (insert mount.mount_path i seen) mounts

unfoldable pub validate_file_mount_specs : List FileMountSpec → Option String
unfolding validate_mounts validate_items
validate_file_mount_specs mounts = validate_mounts 0 [] mounts
