-- ===== src/Webhook/Agreement.antt =====
-- What the webhook (internal/webhook/v1/hermesagent_webhook.go) and the controller
-- (internal/controller/hermesagent_resources.go) find in the file mounts, side by side.
pub mod Loops
use k8s_operator_hermes_agen.Common.{
  ℕ, suc, ℤ, ◌≡◌, refl, sym, ap, ◌∙◌, String, ◌==◌, ◌<>◌, Bool, true, false, not, ◌&&◌, Option,
  none, some, List, [], ◌∷◌, ◌++◌, Map, lookup, insert, is_empty, arith, if◌then◌else◌, Bool-cases,
  Option-cases, inl, inr,
}
use k8s_operator_hermes_agen.Api.{FileMountSpec, FileProjectionItem, LocalObjectReference}
use k8s_operator_hermes_agen.GoPath.{is_abs, clean}
use k8s_operator_hermes_agen.FileMounts.{
  ◌or_err◌, no_error, fail_if, is_set, is_unnamed, mode_out_of_range, leaves_directory,
  validate_file_mode_value, fail_if_seen, prefix_err, validate_mounts, validate_file_mount_specs,
}
use k8s_operator_hermes_agen.FileMounts
use k8s_operator_hermes_agen.FileMounts.Checks.{
  no_error-or_err, no_error-fail_if, no_error-prefix_err, or_err_first, or_err_second, not-true,
}
use k8s_operator_hermes_agen.Webhook.Fields.{
  FieldPath, ErrorList, FieldError, error_if, when_set, ◌at◌, ◌⟩◌,
}
use k8s_operator_hermes_agen.Webhook.Mounts.{
  validate_mode, validate_file_mounts, note, note_nonempty, error_if_seen,
}
use k8s_operator_hermes_agen.Webhook.Mounts

pub is_empty-append : (es fs : ErrorList) → is_empty (es ++ fs) ≡ (is_empty es && is_empty fs)
is_empty-append [] fs = refl
is_empty-append (e ∷ es) fs = refl

pub is_empty-error_if : (b : Bool) (e : FieldError) → is_empty (error_if b e) ≡ not b
is_empty-error_if true e = refl
is_empty-error_if false e = refl

pub seen_agree :
    (o : Option ℕ) (e : ℕ → FieldError) (f : ℕ → String)
    → is_empty (error_if_seen o e) ≡ no_error (fail_if_seen o f)
seen_agree none e f = refl
seen_agree (some n) e f = refl

pub mode_agrees :
    (path : FieldPath) (mode : Option ℤ) (field : String)
    → is_empty (validate_mode path mode) ≡ no_error (validate_file_mode_value mode field)
unfolding validate_mode validate_file_mode_value
mode_agrees path mode field =
    is_empty-error_if (mode_out_of_range mode) _ ∙ sym (no_error-fail_if (mode_out_of_range mode) _)

pub item_path_agrees :
    (path : FieldPath) (value : String)
    → (value == "") ≡ false
    → is_empty (Mounts.validate_file_mount_item_path path value)
      ≡ no_error (FileMounts.validate_file_mount_item_path value)
unfolding Mounts.validate_file_mount_item_path FileMounts.validate_file_mount_item_path
item_path_agrees path value given = elim (Bool-cases (is_abs value)) [
  | inl absolute ↦ rw (given, absolute)
  | inr relative ↦
      rw (given, relative)
        (is_empty-error_if (leaves_directory (clean value) value) _
          ∙ sym (no_error-fail_if (leaves_directory (clean value) value) _))
]

-- A value without an error is noted as the controller notes it.
note_nonempty-insert :
    (key : String) (i : ℕ) (seen : Map ℕ) (f : ℕ → String)
    → (key == "") ≡ false
    → no_error (fail_if_seen (lookup key seen) f) ≡ true
    → note_nonempty key i seen ≡ insert key i seen
note_nonempty-insert key i seen f given new = elim (Option-cases (lookup key seen)) [
  | inl absent ↦ rw (given, absent)
  | inr (p, there) ↦ let clash = rw (there) at new in absurd (cc)
]

-- Two conjunctions agree where the second parts do once the first holds.
pub and_agrees : (a x y : Bool) → (a ≡ true → x ≡ y) → (a && x) ≡ (a && y)
and_agrees true x y same = same refl
and_agrees false x y same = refl

-- A check that is made on a value that was given.
pub given_agrees :
    (missing : Bool) (e : FieldError) (es : ErrorList) (o : Option String) (message : String)
    → (missing ≡ false → is_empty es ≡ no_error o)
    → is_empty (if missing then e ∷ [] else es) ≡ (no_error (fail_if missing message or_err o))
given_agrees true e es o message same = refl
given_agrees false e es o message same = same refl

-- What is known of a value that passed its two checks.
pub passed_new :
    (key : String) (i : ℕ) (seen : Map ℕ) (message : String) (f : ℕ → String)
    → no_error (fail_if (key == "") message or_err fail_if_seen (lookup key seen) f) ≡ true
    → note_nonempty key i seen ≡ insert key i seen
passed_new key i seen message f h =
    note_nonempty-insert key i seen f
      (not-true (key == "") (
        sym (no_error-fail_if (key == "") message)
        ∙ or_err_first (fail_if (key == "") message) _ h))
      (or_err_second (fail_if (key == "") message) _ h)

pub or_err_assoc : (a b c : Option String) → ((a or_err b) or_err c) ≡ (a or_err b or_err c)
or_err_assoc none b c = refl
or_err_assoc (some e) b c = refl

-- The errors of a check and of what follows it, against the first error of the same.
pub step :
    (es fs : ErrorList) (o r : Option String)
    → is_empty es ≡ no_error o
    → (no_error o ≡ true → is_empty fs ≡ no_error r)
    → is_empty (es ++ fs) ≡ no_error (o or_err r)
step es fs o r same rest =
    is_empty-append es fs
    ∙ (ap (λ b. b && is_empty fs) same
        ∙ (and_agrees (no_error o) (is_empty fs) (no_error r) rest ∙ sym (no_error-or_err o r)))

pub step_two :
    (es fs : ErrorList) (o1 o2 r : Option String)
    → is_empty es ≡ no_error (o1 or_err o2)
    → (no_error (o1 or_err o2) ≡ true → is_empty fs ≡ no_error r)
    → is_empty (es ++ fs) ≡ no_error (o1 or_err o2 or_err r)
step_two es fs o1 o2 r same rest =
    step es fs (o1 or_err o2) r same rest ∙ ap no_error (or_err_assoc o1 o2 r)

pub step_three :
    (es fs : ErrorList) (o1 o2 o3 r : Option String)
    → is_empty es ≡ no_error (o1 or_err o2 or_err o3)
    → (no_error (o1 or_err o2 or_err o3) ≡ true → is_empty fs ≡ no_error r)
    → is_empty (es ++ fs) ≡ no_error (o1 or_err o2 or_err o3 or_err r)
step_three es fs o1 o2 o3 r same rest =
    step_two es fs o1 (o2 or_err o3) r same rest
    ∙ ap (λ o. no_error (o1 or_err o)) (or_err_assoc o2 o3 r)

-- The same for a value that has a check of its own between the two.
pub passed_new_three :
    (key : String) (i : ℕ) (seen : Map ℕ) (message : String) (own : Option String) (f : ℕ → String)
    → no_error (fail_if (key == "") message or_err own or_err fail_if_seen (lookup key seen) f)
      ≡ true
    → note_nonempty key i seen ≡ insert key i seen
passed_new_three key i seen message own f h =
    note_nonempty-insert key i seen f
      (not-true (key == "") (
        sym (no_error-fail_if (key == "") message)
        ∙ or_err_first (fail_if (key == "") message) _ h))
      (or_err_second own _ (or_err_second (fail_if (key == "") message) _ h))

-- A check of the value itself, and then whether it was seen.
pub own_and_seen :
    (es : ErrorList) (own : Option String) (o : Option ℕ) (e : ℕ → FieldError) (f : ℕ → String)
    → is_empty es ≡ no_error own
    → is_empty (es ++ error_if_seen o e) ≡ no_error (own or_err fail_if_seen o f)
own_and_seen es own o e f same = step es _ own _ same (λ h. seen_agree o e f)
