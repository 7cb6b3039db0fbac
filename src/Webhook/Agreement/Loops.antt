-- ===== src/Webhook/Agreement/Loops.antt =====
-- The loops over the mounts and their items.
use k8s_operator_hermes_agen.Common.{
  ℕ, suc, ◌≡◌, refl, sym, ◌∙◌, String, ◌==◌, Bool, not, ◌&&◌, Option, none, some, List, [], ◌∷◌,
  Map, lookup, insert, is_empty,
}
use k8s_operator_hermes_agen.Api.{FileMountSpec, FileProjectionItem, LocalObjectReference}
use k8s_operator_hermes_agen.GoPath.{is_abs}
use k8s_operator_hermes_agen.FileMounts.{
  no_error, fail_if, is_set, is_unnamed, validate_mounts, validate_file_mount_specs, fail_if_seen,
  validate_items, prefix_err, validate_file_mount_item_path,
}
use k8s_operator_hermes_agen.Webhook.Fields.{FieldPath, FieldError, error_if, when_set}
use k8s_operator_hermes_agen.Webhook.References.{require_name}
use k8s_operator_hermes_agen.Webhook.Mounts.{validate_file_mounts}
use k8s_operator_hermes_agen.Webhook.Mounts
use k8s_operator_hermes_agen.Webhook.Agreement.{
  step, step_two, step_three, passed_new, passed_new_three, own_and_seen, given_agrees, mode_agrees,
  item_path_agrees, seen_agree, is_empty-error_if,
}
use k8s_operator_hermes_agen.FileMounts.Checks.{no_error-fail_if, no_error-prefix_err}

checks_agree :
    (b : Bool) (e : FieldError) (m : String) → is_empty (error_if b e) ≡ no_error (fail_if b m)
checks_agree b e m = is_empty-error_if b e ∙ sym (no_error-fail_if b m)

items_agree :
    (path : FieldPath) (i j : ℕ) (keys paths : Map ℕ) (items : List FileProjectionItem)
    → is_empty (Mounts.validate_items path i j keys paths items)
      ≡ no_error (validate_items i j keys paths items)
unfolding Mounts.validate_items validate_items
items_agree path i j keys paths [] = refl
items_agree path i j keys paths (item ∷ items) =
    step_two _ _ (fail_if (item.key == "") _) (fail_if_seen (lookup item.key keys) _) _
      (given_agrees (item.key == "") _ _ _ _ (λ given. seen_agree (lookup item.key keys) _ _))
      (λ new_key.
        step_three _ _ (fail_if (item.path == "") _)
          (prefix_err _ (validate_file_mount_item_path item.path))
          (fail_if_seen (lookup item.path paths) _) _
          (given_agrees (item.path == "") _ _ _ _ (λ given.
            own_and_seen _ _ (lookup item.path paths) _ _
              (item_path_agrees _ item.path given ∙ sym (no_error-prefix_err _ _))))
          (λ new_path. step _ _ _ _ (mode_agrees _ item.mode _) (λ h.
            rw
              (
                passed_new item.key j keys _ _ new_key,
                passed_new_three item.path j paths _ _ _ new_path,
              )
              (items_agree path i (suc j) (insert item.key j keys) (insert item.path j paths)
                items))))

-- A set reference must have a name.
name_agrees :
    (path : FieldPath) (what : String) (ref : Option LocalObjectReference) (message : String)
    → is_empty (when_set ref (λ r. require_name path what r.name))
      ≡ no_error (fail_if (is_unnamed ref) message)
name_agrees path what none message = refl
name_agrees path what (some r) message = checks_agree (r.name == "") _ message

mounts_agree :
    (path : FieldPath) (i : ℕ) (seen : Map ℕ) (mounts : List FileMountSpec)
    → is_empty (validate_file_mounts path i seen mounts) ≡ no_error (validate_mounts i seen mounts)
unfolding validate_file_mounts validate_mounts
mounts_agree path i seen [] = refl
mounts_agree path i seen (m ∷ ms) =
    step _ _ _ _ (checks_agree (is_set m.config_map_ref && is_set m.secret_ref) _ _) (λ h1.
      step _ _ _ _ (checks_agree (not (is_set m.config_map_ref) && not (is_set m.secret_ref)) _ _)
        (λ h2.
          step_three _ _ (fail_if (m.mount_path == "") _) (fail_if (not (is_abs m.mount_path)) _)
            (fail_if_seen (lookup m.mount_path seen) _) _
            (given_agrees (m.mount_path == "") _ _ _ _ (λ given.
              own_and_seen _ _ (lookup m.mount_path seen) _ _
                (checks_agree (not (is_abs m.mount_path)) _ _)))
            (λ new_path. step _ _ _ _ (name_agrees _ _ m.config_map_ref _) (λ h3.
              step _ _ _ _ (name_agrees _ _ m.secret_ref _) (λ h4.
                step _ _ _ _ (mode_agrees _ m.default_mode _) (λ h5.
                  step _ _ _ _ (items_agree _ i 0 [] [] m.items) (λ h6.
                    rw (passed_new_three m.mount_path i seen _ _ _ new_path)
                      (mounts_agree path (suc i) (insert m.mount_path i seen) ms))))))))

-- The webhook finds no error in the file mounts exactly where the controller finds none.
pub validate_file_mounts-agree :
    (path : FieldPath) (mounts : List FileMountSpec)
    → is_empty (validate_file_mounts path 0 [] mounts) ≡ no_error (validate_file_mount_specs mounts)
unfolding validate_file_mount_specs
validate_file_mounts-agree path mounts = mounts_agree path 0 [] mounts
