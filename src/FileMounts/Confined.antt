-- ===== src/FileMounts/Confined.antt =====
-- What a file mount may project: paths below the mount, and modes of plain files.
use k8s_operator_hermes_agen.Common.{
  ℕ, suc, ℤ, pos, ◌≤ℤ◌, ◌≡◌, sym, ◌∙◌, String, ◌==◌, true, false, ◌&&◌, not, Option, none, some,
  List, [], ◌∷◌, All, all, Map, lookup, arith,
}
use k8s_operator_hermes_agen.Api.{FileMountSpec, FileProjectionItem}
use k8s_operator_hermes_agen.GoPath.{split_slash, is_abs}
use k8s_operator_hermes_agen.GoPath.Resolve.{names_entry}
use k8s_operator_hermes_agen.FileMounts.{
  ◌or_err◌, no_error, fail_if, fail_if_seen, prefix_err, is_set, is_unnamed, mode_out_of_range,
  validate_file_mode_value, validate_file_mount_item_path, validate_items, validate_mounts,
}
use k8s_operator_hermes_agen.FileMounts.Checks.{
  no_error-fail_if, no_error-prefix_err, or_err_first, or_err_second, not-true,
}
use k8s_operator_hermes_agen.FileMounts.Paths.{validate_file_mount_item_path-segments}

-- From 0 to octal 777
abbrev pub ModeWithin : Option ℤ → Type 0
ModeWithin none = Unit {0}
ModeWithin (some m) = (pos 0 ≤ℤ m) × (m ≤ℤ pos 511)

-- Every segment of the path names an entry, so that the path stays below the directory.
abbrev pub ConfinedItem : String → Option ℤ → Type 0
ConfinedItem path mode = (all names_entry (split_slash path) ≡ true) × ModeWithin mode

abbrev pub ConfinedMount : FileMountSpec → Type 0
ConfinedMount m =
    ModeWithin m.default_mode
    × All (λ (item : FileProjectionItem). ConfinedItem item.path item.mode) m.items

mode-Within : (mode : Option ℤ) → mode_out_of_range mode ≡ false → ModeWithin mode
mode-Within none h = tt
mode-Within (some m) h = ground arith

validate_file_mode_value-Within :
    (mode : Option ℤ) (field : String)
    → no_error (validate_file_mode_value mode field) ≡ true
    → ModeWithin mode
unfolding validate_file_mode_value
validate_file_mode_value-Within mode field h =
    mode-Within mode (not-true (mode_out_of_range mode) (sym (no_error-fail_if _ _) ∙ h))

-- Of the checks of an item, those of its path and mode, and of the later items.
item_checks :
    (key new_key path proper new_path mode others : Option String)
    → no_error
        (key or_err new_key or_err path or_err proper or_err new_path or_err mode or_err others)
      ≡ true
    → (no_error proper ≡ true) × (no_error mode ≡ true) × (no_error others ≡ true)
item_checks key new_key path proper new_path mode others h =
    let from_proper = or_err_second path _ (or_err_second new_key _ (or_err_second key _ h)) in
    let from_mode = or_err_second new_path _ (or_err_second proper _ from_proper) in
    (
      or_err_first proper _ from_proper,
      or_err_first mode others from_mode,
      or_err_second mode others from_mode,
    )

-- Of the checks of a mount, those of its mode and items, and of the later mounts.
mount_checks :
    (both neither path absolute new config_map secret mode items others : Option String)
    → no_error (
        both or_err neither or_err path or_err absolute or_err new or_err config_map or_err secret
        or_err mode or_err items or_err others)
      ≡ true
    → (no_error mode ≡ true) × (no_error items ≡ true) × (no_error others ≡ true)
mount_checks both neither path absolute new config_map secret mode items others h =
    item_checks new config_map secret mode none items others (
      or_err_second absolute _
        (or_err_second path _ (or_err_second neither _ (or_err_second both _ h))))

validate_items-Confined :
    (i j : ℕ) (keys paths : Map ℕ) (items : List FileProjectionItem)
    → no_error (validate_items i j keys paths items) ≡ true
    → All (λ (item : FileProjectionItem). ConfinedItem item.path item.mode) items
unfolding validate_items
validate_items-Confined i j keys paths [] h = tt
validate_items-Confined i j keys paths (item ∷ items) h =
    let (path, mode, others) =
      item_checks (fail_if (item.key == "") _) (fail_if_seen (lookup item.key keys) _)
        (fail_if (item.path == "") _) (prefix_err _ (validate_file_mount_item_path item.path))
        (fail_if_seen (lookup item.path paths) _) (validate_file_mode_value item.mode _)
        (validate_items i (suc j) _ _ items) h in
    (
      (
        sym (validate_file_mount_item_path-segments item.path)
            ∙ sym (no_error-prefix_err _ _)
            ∙ path,
        validate_file_mode_value-Within item.mode _ mode,
      ),
      validate_items-Confined i (suc j) _ _ items others,
    )

pub validate_mounts-Confined :
    (i : ℕ) (seen : Map ℕ) (mounts : List FileMountSpec)
    → no_error (validate_mounts i seen mounts) ≡ true
    → All ConfinedMount mounts
unfolding validate_mounts
validate_mounts-Confined i seen [] h = tt
validate_mounts-Confined i seen (mount ∷ mounts) h =
    let (mode, items, others) =
      mount_checks (fail_if (is_set mount.config_map_ref && is_set mount.secret_ref) _)
        (fail_if (not (is_set mount.config_map_ref) && not (is_set mount.secret_ref)) _)
        (fail_if (mount.mount_path == "") _) (fail_if (not (is_abs mount.mount_path)) _)
        (fail_if_seen (lookup mount.mount_path seen) _)
        (fail_if (is_unnamed mount.config_map_ref) _) (fail_if (is_unnamed mount.secret_ref) _)
        (validate_file_mode_value mount.default_mode _) (validate_items i 0 [] [] mount.items)
        (validate_mounts (suc i) _ mounts) h in
    (
      (
        validate_file_mode_value-Within mount.default_mode _ mode,
        validate_items-Confined i 0 [] [] mount.items items,
      ),
      validate_mounts-Confined (suc i) _ mounts others,
    )
