-- ===== src/Webhook/Mounts.antt =====
-- Validation of the file mounts: `validateFileMounts`, `validateFileMountItemPath`, `validateMode`.
use k8s_operator_hermes_agen.Common.{
  ℕ, suc, ℤ, String, ◌==◌, ◌<>◌, not, ◌&&◌, Option, none, some, List, [], ◌∷◌, ◌++◌, Map, lookup,
  insert, if◌then◌else◌,
}
use k8s_operator_hermes_agen.Common.Show.{decimal}
use k8s_operator_hermes_agen.Api.{FileMountSpec, FileProjectionItem}
use k8s_operator_hermes_agen.GoPath.{is_abs, clean}
use k8s_operator_hermes_agen.FileMounts.{is_set, mode_out_of_range, leaves_directory}
use k8s_operator_hermes_agen.Webhook.Fields.{
  FieldPath, ◌⟩◌, ◌at◌, FieldError, ErrorList, required, invalid, error_if, when_set,
}
use k8s_operator_hermes_agen.Webhook.References.{require_name}

unfoldable pub validate_mode : FieldPath → Option ℤ → ErrorList
validate_mode path mode =
    error_if (mode_out_of_range mode) (invalid path "must be between 0 and 0777")

unfoldable pub validate_file_mount_item_path : FieldPath → String → ErrorList
validate_file_mount_item_path path value =
    if value == ""
    then []
    else if is_abs value
    then invalid path "path must be relative" ∷ []
    else error_if (leaves_directory (clean value) value)
        (invalid path "path must not contain '.' or '..' path segments")

-- The error of a value seen before, at the index where it was.
abbrev pub error_if_seen : Option ℕ → (ℕ → FieldError) → ErrorList
error_if_seen none e = []
error_if_seen (some previous) e = e previous ∷ []

-- `if previous, exists := seen[key]; exists { … } else { seen[key] = i }`
abbrev pub note_unless : Option ℕ → String → ℕ → Map ℕ → Map ℕ
note_unless none key i seen = insert key i seen
note_unless (some previous) key i seen = seen

abbrev pub note : String → ℕ → Map ℕ → Map ℕ
note key i seen = note_unless (lookup key seen) key i seen

-- A nonempty value is noted; an empty one, which is an error of its own, is not.
abbrev pub note_nonempty : String → ℕ → Map ℕ → Map ℕ
note_nonempty key i seen = if key == "" then seen else note key i seen

abbrev earlier_item : ℕ → ℕ → String → String → String
earlier_item i previous field what =
    what
    <> " duplicates fileMounts["
    <> decimal i
    <> "].items["
    <> decimal previous
    <> "]."
    <> field

-- The loop over the items of mount i, from item j.
unfoldable pub validate_items :
    FieldPath → ℕ → ℕ → Map ℕ → Map ℕ → List FileProjectionItem → ErrorList
unfolding validate_mode validate_file_mount_item_path
validate_items path i j keys paths [] = []
validate_items path i j keys paths (item ∷ items) =
    let here = path ⟩ "items" at j in
    (if item.key == ""
      then required (here ⟩ "key") "key is required" ∷ []
      else error_if_seen (lookup item.key keys)
          (λ p. invalid (here ⟩ "key") (earlier_item i p "key" "key")))
    ++ ((if item.path == ""
          then required (here ⟩ "path") "path is required" ∷ []
          else validate_file_mount_item_path (here ⟩ "path") item.path
            ++ error_if_seen (lookup item.path paths)
                (λ p. invalid (here ⟩ "path") (earlier_item i p "path" "path")))
        ++ (validate_mode (here ⟩ "mode") item.mode
            ++ validate_items path i (suc j) (note_nonempty item.key j keys)
                (note_nonempty item.path j paths) items))

-- `validateFileMounts`, from mount i
unfoldable pub validate_file_mounts : FieldPath → ℕ → Map ℕ → List FileMountSpec → ErrorList
unfolding validate_mode validate_items
validate_file_mounts path i seen [] = []
validate_file_mounts path i seen (m ∷ ms) =
    let here = path at i in
    error_if (is_set m.config_map_ref && is_set m.secret_ref)
      (invalid here "configMapRef and secretRef are mutually exclusive")
    ++ (error_if (not (is_set m.config_map_ref) && not (is_set m.secret_ref))
          (invalid here "either configMapRef or secretRef must be set")
        ++ ((if m.mount_path == ""
              then required (here ⟩ "mountPath") "mountPath is required" ∷ []
              else error_if (not (is_abs m.mount_path))
                  (invalid (here ⟩ "mountPath") "mountPath must be absolute")
                ++ error_if_seen (lookup m.mount_path seen) (λ p.
                  invalid (here ⟩ "mountPath")
                    ("mountPath duplicates fileMounts[" <> decimal p <> "].mountPath")))
            ++ (when_set m.config_map_ref (λ r.
                  require_name (here ⟩ "configMapRef") "name is required when configMapRef is set"
                    r.name)
                ++ (when_set m.secret_ref (λ r.
                      require_name (here ⟩ "secretRef") "name is required when secretRef is set"
                        r.name)
                    ++ (validate_mode (here ⟩ "defaultMode") m.default_mode
                        ++ (validate_items here i 0 [] [] m.items
                            ++ validate_file_mounts path (suc i) (note_nonempty m.mount_path i seen)
                                ms))))))
