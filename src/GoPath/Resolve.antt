-- ===== src/GoPath/Resolve.antt =====
-- What resolving keeps: Go's path.Clean drops no segment of a path exactly if each one names an entry.
use mathlib.Core.List.{reverse_aux}
use k8s_operator_hermes_agen.Common.{
  suc, ◌+◌, ◌≤◌, ◌≡◌, refl, ◌∙◌, String, ◌==◌, Bool, true, false, not, ◌&&◌, ◌||◌, List, [], ◌∷◌,
  All, all, length, Bool-cases, inl, inr, if◌then◌else◌, arith,
}
use k8s_operator_hermes_agen.GoPath.{back, resolve, resolve_all}
use k8s_operator_hermes_agen.GoPath.Split.{Segment}

-- A segment that names a file or directory: not empty, not "." and not "..".
abbrev pub names_entry : String → Bool
names_entry seg = not (seg == "") && not (seg == ".") && not (seg == "..")

length-resolve : (st : List String) (seg : String) → length (resolve false st seg) ≤ suc (length st)
unfolding resolve back
length-resolve [] seg = ground arith
length-resolve (top ∷ st) seg = ground arith

length-resolve_all :
    (st segs : List String) → length (resolve_all false st segs) ≤ length st + length segs
unfolding resolve_all
length-resolve_all st [] = omega arith
length-resolve_all st (seg ∷ segs) =
    omega (arith, length-resolve st seg, length-resolve_all (resolve false st seg) segs)

-- Where no segment is lost, each one names an entry: one that goes back would drop another.
kept_segments :
    (top : String) (st segs : List String)
    → (top == "..") ≡ false
    → length (resolve_all false (top ∷ st) segs) ≡ suc (length st) + length segs
    → all names_entry segs ≡ true
unfolding resolve_all resolve back
kept_segments top st [] h e = refl
kept_segments top st (seg ∷ segs) h e = elim (Bool-cases (seg == "")) [
  | inl empty ↦ absurd (omega (arith, rw (empty) at e, length-resolve_all (top ∷ st) segs))
  | inr nonempty ↦ elim (Bool-cases (seg == ".")) [
    | inl dot ↦ absurd (omega (arith, rw (nonempty, dot) at e, length-resolve_all (top ∷ st) segs))
    | inr no_dot ↦ elim (Bool-cases (seg == "..")) [
      | inl dots ↦
          absurd (omega (arith, rw (nonempty, no_dot, dots, h) at e, length-resolve_all st segs))
      | inr plain ↦
          rw (nonempty, no_dot, plain)
            (kept_segments seg (top ∷ st) segs plain
              (rw (nonempty, no_dot, plain) at e ∙ omega arith))
    ]
  ]
]

-- The same from the start, where the first segment does not go back.
pub all_kept :
    (seg : String) (segs : List String)
    → (seg == "..") ≡ false
    → length (resolve_all false [] (seg ∷ segs)) ≡ suc (length segs)
    → all names_entry (seg ∷ segs) ≡ true
unfolding resolve_all resolve back
all_kept seg segs h e = elim (Bool-cases (seg == "")) [
  | inl empty ↦ absurd (omega (arith, rw (empty) at e, length-resolve_all [] segs))
  | inr nonempty ↦ elim (Bool-cases (seg == ".")) [
    | inl dot ↦ absurd (omega (arith, rw (nonempty, dot) at e, length-resolve_all [] segs))
    | inr no_dot ↦
        rw (nonempty, no_dot, h)
          (kept_segments seg [] segs h (rw (nonempty, no_dot, h) at e ∙ omega arith))
  ]
]

if-Segment :
    (b : Bool) (xs ys : List String)
    → All Segment xs
    → All Segment ys
    → All Segment (if b then xs else ys)
if-Segment true xs ys a b = a
if-Segment false xs ys a b = b

resolve-Segment :
    (st : List String) (seg : String)
    → All Segment st
    → Segment seg
    → All Segment (resolve false st seg)
unfolding resolve back
resolve-Segment [] seg a h =
    if-Segment (seg == "" || seg == ".") [] _ a
      (if-Segment (seg == "..") (".." ∷ []) (seg ∷ []) (refl, tt) (h, a))
resolve-Segment (top ∷ st) seg (t, a) h =
    if-Segment (seg == "" || seg == ".") (top ∷ st) _ (t, a)
      (if-Segment (seg == "..") _ (seg ∷ top ∷ st)
        (if-Segment (top == "..") (".." ∷ top ∷ st) st (refl, (t, a)) a) (h, (t, a)))

pub resolve_all-Segment :
    (st segs : List String)
    → All Segment st
    → All Segment segs
    → All Segment (resolve_all false st segs)
unfolding resolve_all
resolve_all-Segment st [] a b = a
resolve_all-Segment st (seg ∷ segs) a (h, b) =
    resolve_all-Segment (resolve false st seg) segs (resolve-Segment st seg a h) b

pub All-reverse_aux :
    (xs ys : List String) → All Segment xs → All Segment ys → All Segment (reverse_aux xs ys)
All-reverse_aux [] ys a b = b
All-reverse_aux (x ∷ xs) ys (h, a) b = All-reverse_aux xs (x ∷ ys) a (h, b)

pub length-reverse_aux : (xs ys : List String) → length (reverse_aux xs ys) ≡ length xs + length ys
length-reverse_aux [] ys = omega arith
length-reverse_aux (x ∷ xs) ys = omega (arith, length-reverse_aux xs (x ∷ ys))
