-- ===== src/FileMounts/Paths.antt =====
-- Which item paths of file mounts are accepted, in terms of their segments.
use mathlib.Core.List.{reverse, reverse_aux, reverse-reverse}
use text.Mathlib.Text.{starts_with}
use text.Mathlib.TextLemmas.{append_assoc}
use text.Mathlib.TextEquality.{starts_with_iff}
use text.Mathlib.TextPositions.{starts_with_of_prefix}
use k8s_operator_hermes_agen.Common.{
  suc, ◌≡◌, refl, sym, ap, ◌∙◌, ◌⊎◌, String, ◌==◌, eq_iff, eq_refl, Bool, true, false, List, [],
  ◌∷◌, All, all, length, Bool-cases, inl, inr, arith,
}
use k8s_operator_hermes_agen.GoPath.{
  is_abs, is_slash, split_slash, join_slash, resolve, resolve_all, clean,
}
use k8s_operator_hermes_agen.GoPath.Split.{
  Segment, split_slash-some, split_slash-Segment, join-split, split-join, split_slash-append,
}
use k8s_operator_hermes_agen.GoPath.Resolve.{
  names_entry, all_kept, resolve_all-Segment, All-reverse_aux, length-reverse_aux,
}
use k8s_operator_hermes_agen.FileMounts.{no_error, validate_file_mount_item_path}

names_entry-head :
    (seg : String)
    → names_entry seg ≡ true
    → ((seg == "") ≡ false) × ((seg == ".") ≡ false) × ((seg == "..") ≡ false)
names_entry-head seg h = ground arith

all-head :
    (seg : String) (segs : List String)
    → all names_entry (seg ∷ segs) ≡ true
    → (names_entry seg ≡ true) × (all names_entry segs ≡ true)
all-head seg segs h = ground arith

resolve_all-plain :
    (rooted : Bool) (st segs : List String)
    → all names_entry segs ≡ true
    → resolve_all rooted st segs ≡ reverse_aux segs st
unfolding resolve_all resolve
resolve_all-plain rooted st [] h = refl
resolve_all-plain rooted st (seg ∷ segs) h =
    let (first, others) = all-head seg segs h in
    let (nonempty, no_dot, no_dots) = names_entry-head seg first in
    rw (nonempty, no_dot, no_dots) (resolve_all-plain rooted (seg ∷ st) segs others)

not_abs : (p : String) → all names_entry (split_slash p) ≡ true → is_abs p ≡ false
unfolding is_abs split_slash
not_abs String.[] h = refl
not_abs (String.◌∷◌ c s) h = elim (Bool-cases (is_slash c)) [
  | inl is ↦ absurd (cc (rw (is) at h))
  | inr plain ↦ plain
]

-- A text whose split has a segment that names no entry is another text.
other_text :
    (p q : String)
    → all names_entry (split_slash p) ≡ true
    → all names_entry (split_slash q) ≡ false
    → (p == q) ≡ false
other_text p q h k = elim (Bool-cases (p == q)) [
  | inl same ↦ absurd (cc (rw ((eq_iff p q).0 same) at h))
  | inr other ↦ other
]

clean-plain : (p : String) → all names_entry (split_slash p) ≡ true → clean p ≡ p
unfolding clean
clean-plain p h =
    let out : join_slash (reverse (resolve_all false [] (split_slash p))) ≡ p =
      ap (λ r. join_slash (reverse r)) (resolve_all-plain false [] (split_slash p) h)
      ∙ ap join_slash (reverse-reverse (split_slash p))
      ∙ join-split p in
    rw (other_text p "" h refl, not_abs p h, out, other_text p "" h refl) refl

not_above : (p : String) → all names_entry (split_slash p) ≡ true → starts_with p "../" ≡ false
unfolding is_abs
not_above p h = elim (Bool-cases (starts_with p "../")) [
  | inl above ↦
      let (u, e) = (starts_with_iff p "../").0 above in
      let dots_first : split_slash p ≡ ".." ∷ split_slash u =
        ap split_slash (sym e ∙ append_assoc ".." "/" u) ∙ split_slash-append ".." u refl in
      absurd (cc (rw (dots_first) at h))
  | inr below ↦ below
]

accepts :
    (p : String)
    → all names_entry (split_slash p) ≡ true
    → no_error (validate_file_mount_item_path p) ≡ true
unfolding validate_file_mount_item_path split_slash
accepts p h =
    rw
      (
        not_abs p h,
        clean-plain p h,
        other_text p "." h refl,
        eq_refl p,
        other_text p ".." h refl,
        not_above p h,
      )
      refl

-- What the checks find out of an accepted path.
accepted :
    (p : String)
    → no_error (validate_file_mount_item_path p) ≡ true
    → (is_abs p ≡ false)
      × (clean p ≡ p)
      × ((p == ".") ≡ false)
      × ((p == "..") ≡ false)
      × (starts_with p "../" ≡ false)
unfolding validate_file_mount_item_path
accepted p h = ground (arith, eq_iff (clean p) p)

-- The text that the segments leave is not empty and is the path again.
accepted-join :
    (p : String)
    → is_abs p ≡ false
    → clean p ≡ p
    → (p == ".") ≡ false
    → join_slash (reverse (resolve_all false [] (split_slash p))) ≡ p
unfolding clean
accepted-join p relative same no_dot = ground (arith, eq_iff p ".")

nonempty_path : (p : String) → clean p ≡ p → (p == ".") ≡ false → (p == "") ≡ false
unfolding clean
nonempty_path p same no_dot = ground (arith, eq_iff p ".")

-- The split of a text that joins segments is their list, unless there is none.
split-of_join :
    (p : String) (xs : List String)
    → All Segment xs
    → (p == "") ≡ false
    → join_slash xs ≡ p
    → split_slash p ≡ xs
unfolding join_slash
split-of_join p [] a h e = absurd (cc (rw (sym e) at h))
split-of_join p (x ∷ xs) a h e = sym (ap split_slash e) ∙ split-join x xs a

-- A join whose first segment is ".." is that text, or starts with "../".
back_first :
    (segs : List String)
    → (join_slash (".." ∷ segs) ≡ "..") ⊎ (starts_with (join_slash (".." ∷ segs)) "../" ≡ true)
unfolding join_slash
back_first [] = inl refl
back_first (y ∷ ys) =
    inr (starts_with_of_prefix "../" _ (join_slash (y ∷ ys), append_assoc ".." "/" _))

not_back :
    (p seg : String) (segs : List String)
    → join_slash (seg ∷ segs) ≡ p
    → (p == "..") ≡ false
    → starts_with p "../" ≡ false
    → (seg == "..") ≡ false
not_back p seg segs e no_dots below = elim (Bool-cases (seg == "..")) [
  | inl dots ↦
      let joined : join_slash (".." ∷ segs) ≡ p =
        ap (λ x. join_slash (x ∷ segs)) (sym ((eq_iff seg "..").0 dots)) ∙ e in
      elim (back_first segs) [
        | inl alone ↦ absurd (cc (joined, eq_refl ".."))
        | inr above ↦ absurd (cc joined)
      ]
  | inr other ↦ other
]

rejects :
    (p : String)
    → no_error (validate_file_mount_item_path p) ≡ true
    → all names_entry (split_slash p) ≡ true
rejects p h =
    let (relative, same, no_dot, no_dots, below) = accepted p h in
    let kept = resolve_all false [] (split_slash p) in
    let whole : split_slash p ≡ reverse kept =
      split-of_join p (reverse kept)
        (All-reverse_aux kept [] (resolve_all-Segment [] (split_slash p) tt (split_slash-Segment p))
          tt)
        (nonempty_path p same no_dot) (accepted-join p relative same no_dot) in
    let (seg, segs, e) = split_slash-some p in
    let count : length (resolve_all false [] (seg ∷ segs)) ≡ suc (length segs) = omega (
      arith,
      length-reverse_aux kept [],
      ap length whole,
      ap length e,
      ap (λ x. length (resolve_all false [] x)) e,
    ) in
    rw (e) (
      all_kept seg segs (not_back p seg segs (ap join_slash (sym e) ∙ join-split p) no_dots below)
        count)

-- The path of an item is accepted exactly if each of its segments names an entry: none of them is
-- empty, "." or "..".
pub validate_file_mount_item_path-segments :
    (p : String) → no_error (validate_file_mount_item_path p) ≡ all names_entry (split_slash p)
validate_file_mount_item_path-segments p = elim (Bool-cases (all names_entry (split_slash p))) [
  | inl proper ↦ accepts p proper ∙ sym proper
  | inr improper ↦ elim (Bool-cases (no_error (validate_file_mount_item_path p))) [
    | inl fine ↦ absurd (cc (rejects p fine))
    | inr failed ↦ failed ∙ sym improper
  ]
]
