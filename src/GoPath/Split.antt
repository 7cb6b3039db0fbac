-- ===== src/GoPath/Split.antt =====
-- Splitting at slashes and joining with slashes undo each other.
use Prim.Native.Char.{Char, code}
use Prim.Native.Nat.{compare, Ordering}
use text.Mathlib.TextEquality.{codes_equal}
use Prim.Native.String.append
use k8s_operator_hermes_agen.Common.{
  ◌≡◌, refl, sym, ap, ◌∙◌, String, ◌<>◌, Bool, true, false, ◌||◌, List, [], ◌∷◌, All, Bool-cases,
  inl, inr,
}
use k8s_operator_hermes_agen.GoPath.{is_slash, push_first, split_slash, join_slash}

abbrev pub has_slash : String → Bool
has_slash String.[] = false
has_slash (String.◌∷◌ c s) = is_slash c || has_slash s

abbrev slash : Char
slash = "/"

push_slash : (s : String) → "/" <> s ≡ String.◌∷◌ slash s
push_slash s = append.cons slash "" s ∙ ap (String.◌∷◌ slash) (append.nil s)

-- A segment has no slash.
abbrev pub Segment : String → Type 0
Segment s = has_slash s ≡ false

push_first-Segment :
    (c : Char) (xs : List String)
    → is_slash c ≡ false
    → All Segment xs
    → All Segment (push_first c xs)
push_first-Segment c [] h a = (rw (h) refl, tt)
push_first-Segment c (x ∷ xs) h (s, a) = (rw (h) s, a)

pub split_slash-Segment : (s : String) → All Segment (split_slash s)
unfolding split_slash
split_slash-Segment String.[] = (refl, tt)
split_slash-Segment (String.◌∷◌ c s) = elim (Bool-cases (is_slash c)) [
  | inl is ↦ rw (is) (refl, split_slash-Segment s)
  | inr plain ↦ rw (plain) (push_first-Segment c (split_slash s) plain (split_slash-Segment s))
]

join-push_first :
    (c : Char) (xs : List String) → join_slash (push_first c xs) ≡ String.◌∷◌ c (join_slash xs)
unfolding join_slash
join-push_first c [] = refl
join-push_first c (x ∷ []) = refl
join-push_first c (x ∷ y ∷ ys) = append.cons c x ("/" <> join_slash (y ∷ ys))

equal_order : (o : Ordering) → (elim o [ Ordering.eq ↦ true | _ ↦ false ]) ≡ true → o ≡ Ordering.eq
equal_order Ordering.lt h = absurd (cc)
equal_order Ordering.eq h = refl
equal_order Ordering.gt h = absurd (cc)

slash_char : (c : Char) → is_slash c ≡ true → slash ≡ c
slash_char c h = sym (codes_equal c slash (equal_order (compare (code c) 47) h))

join-empty :
    (xs : List String) (s : String)
    → join_slash xs ≡ s
    → ((x : String) × (ys : List String) × (xs ≡ x ∷ ys))
    → join_slash ("" ∷ xs) ≡ String.◌∷◌ slash s
unfolding join_slash
join-empty [] s h (x, ys, e) = absurd (cc)
join-empty (x ∷ xs) s h some_segment =
    append.nil ("/" <> join_slash (x ∷ xs)) ∙ push_slash _ ∙ ap (String.◌∷◌ slash) h

pub split_slash-some : (s : String) → (x : String) × (ys : List String) × (split_slash s ≡ x ∷ ys)
unfolding split_slash
split_slash-some String.[] = ("", [], refl)
split_slash-some (String.◌∷◌ c s) =
    let (x, ys, e) = split_slash-some s in
    elim (Bool-cases (is_slash c)) [
      | inl is ↦ ("", split_slash s, rw (is) refl)
      | inr plain ↦ (String.◌∷◌ c x, ys, rw (plain, e) refl)
    ]

pub join-split : (s : String) → join_slash (split_slash s) ≡ s
unfolding split_slash join_slash
join-split String.[] = refl
join-split (String.◌∷◌ c s) = elim (Bool-cases (is_slash c)) [
  | inl is ↦ rw (is) (
      join-empty (split_slash s) s (join-split s) (split_slash-some s)
      ∙ ap (λ d. String.◌∷◌ d s) (slash_char c is))
  | inr plain ↦ rw (plain) (join-push_first c (split_slash s) ∙ ap (String.◌∷◌ c) (join-split s))
]

-- Text without a slash before the first slash is the first segment.
pub split_slash-append :
    (x s : String) → Segment x → split_slash (x <> "/" <> s) ≡ x ∷ split_slash s
unfolding split_slash
split_slash-append String.[] s h = ap split_slash (append.nil ("/" <> s) ∙ push_slash s)
split_slash-append (String.◌∷◌ c x) s h = elim (Bool-cases (is_slash c)) [
  | inl is ↦ absurd (cc (rw (is) at h))
  | inr plain ↦
      ap split_slash (append.cons c x ("/" <> s))
      ∙ rw (plain, split_slash-append x s (rw (plain) at h)) refl
]

split_slash-one : (x : String) → Segment x → split_slash x ≡ x ∷ []
unfolding split_slash
split_slash-one String.[] h = refl
split_slash-one (String.◌∷◌ c x) h = elim (Bool-cases (is_slash c)) [
  | inl is ↦ absurd (cc (rw (is) at h))
  | inr plain ↦ rw (plain, split_slash-one x (rw (plain) at h)) refl
]

pub split-join :
    (x : String) (xs : List String)
    → All Segment (x ∷ xs)
    → split_slash (join_slash (x ∷ xs)) ≡ x ∷ xs
unfolding join_slash
split-join x [] (h, a) = split_slash-one x h
split-join x (y ∷ ys) (h, a) =
    split_slash-append x (join_slash (y ∷ ys)) h ∙ ap (λ r. x ∷ r) (split-join y ys a)
