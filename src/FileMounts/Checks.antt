-- ===== src/FileMounts/Checks.antt =====
-- What passing the controller's checks means: no error of a chain of checks.
use k8s_operator_hermes_agen.Common.{
  ◌≡◌, refl, String, Bool, true, false, not, ◌&&◌, Option, none, some,
}
use k8s_operator_hermes_agen.FileMounts.{◌or_err◌, no_error, fail_if, prefix_err}

pub no_error-or_err : (e f : Option String) → no_error (e or_err f) ≡ (no_error e && no_error f)
no_error-or_err none f = refl
no_error-or_err (some e) f = refl

pub no_error-fail_if : (b : Bool) (e : String) → no_error (fail_if b e) ≡ not b
no_error-fail_if true e = refl
no_error-fail_if false e = refl

pub no_error-prefix_err : (p : String) (e : Option String) → no_error (prefix_err p e) ≡ no_error e
no_error-prefix_err p none = refl
no_error-prefix_err p (some e) = refl

pub or_err_first : (a b : Option String) → no_error (a or_err b) ≡ true → no_error a ≡ true
or_err_first none b h = refl
or_err_first (some e) b h = h

pub or_err_second : (a b : Option String) → no_error (a or_err b) ≡ true → no_error b ≡ true
or_err_second none b h = h
or_err_second (some e) b h = absurd (cc)

pub not-true : (b : Bool) → not b ≡ true → b ≡ false
not-true true h = absurd (cc)
not-true false h = refl
