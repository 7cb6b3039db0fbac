-- ===== src/Common/Texts.antt =====
-- The order of texts: Go's `<=` on strings, by the code points of their characters.
use Prim.Native.Nat.compare as compare_ℕ
use Prim.Native.Nat.{ℕ, zero, suc, ◌<◌, Ordering, compare as compare_ℕ}
use Prim.Native.Char.{code}
use Prim.Native.String.compare
use Prim.Native.String.{String, [], ◌∷◌, compare, then}
use mathlib.Core.Path.{◌≡◌, refl, sym, ◌∙◌}
use mathlib.Core.Logic.{◌⊎◌, inl, inr}
use mathlib.Core.Bool.{Bool, true, false}
use text.Mathlib.Text.{is_le}
use text.Mathlib.TextEquality.{path_by_compare}
use native.Mathlib.Omega.{arith}

abbrev pub leb_text : String → String → Bool
leb_text s t = is_le (compare s t)

-- What the comparison of two numbers says of them.
Compared : ℕ → ℕ → Type 0
Compared m n =
    ((compare_ℕ m n ≡ Ordering.lt) × (m < n))
    ⊎ ((compare_ℕ m n ≡ Ordering.eq) × (m ≡ n))
    ⊎ ((compare_ℕ m n ≡ Ordering.gt) × (n < m))

compared : (m n : ℕ) → Compared m n
unfolding Compared
compared zero zero = inr (inl (compare_ℕ.zero-zero, refl))
compared zero (suc n) = inl (compare_ℕ.zero-suc n, omega arith)
compared (suc m) zero = inr (inr (compare_ℕ.suc-zero m, omega arith))
compared (suc m) (suc n) = elim (compared m n) [
  | inl (e, h) ↦ inl (compare_ℕ.suc-suc m n ∙ e, omega arith)
  | inr (inl (e, h)) ↦ inr (inl (compare_ℕ.suc-suc m n ∙ e, omega arith))
  | inr (inr (e, h)) ↦ inr (inr (compare_ℕ.suc-suc m n ∙ e, omega arith))
]

compare-less : (m n : ℕ) → m < n → compare_ℕ m n ≡ Ordering.lt
unfolding Compared
compare-less m n h = elim (compared m n) [
  | inl (e, l) ↦ e
  | inr (inl (e, l)) ↦ absurd (omega arith)
  | inr (inr (e, l)) ↦ absurd (omega arith)
]

flip : Ordering → Ordering
flip Ordering.lt = Ordering.gt
flip Ordering.eq = Ordering.eq
flip Ordering.gt = Ordering.lt

flip-compare_nat : (m n : ℕ) → compare_ℕ n m ≡ flip (compare_ℕ m n)
unfolding flip
flip-compare_nat zero zero = refl
flip-compare_nat zero (suc n) = rw (compare_ℕ.zero-suc n, compare_ℕ.suc-zero n) refl
flip-compare_nat (suc m) zero = rw (compare_ℕ.zero-suc m, compare_ℕ.suc-zero m) refl
flip-compare_nat (suc m) (suc n) =
    rw (compare_ℕ.suc-suc m n, compare_ℕ.suc-suc n m) (flip-compare_nat m n)

flip-then : (o p : Ordering) → then (flip o) (flip p) ≡ flip (then o p)
unfolding flip
flip-then Ordering.lt p = refl
flip-then Ordering.eq p = refl
flip-then Ordering.gt p = refl

flip-compare : (s t : String) → compare t s ≡ flip (compare s t)
unfolding flip
flip-compare [] [] = refl
flip-compare [] (d ∷ t) = rw (compare.nil-cons d t, compare.cons-nil d t) refl
flip-compare (c ∷ s) [] = rw (compare.nil-cons c s, compare.cons-nil c s) refl
flip-compare (c ∷ s) (d ∷ t) =
    rw
      (
        compare.cons-cons c d s t,
        compare.cons-cons d c t s,
        flip-compare_nat (code c) (code d),
        flip-compare s t,
      )
      (flip-then (compare_ℕ (code c) (code d)) (compare s t))

le_flip : (o : Ordering) → is_le o ≡ false → is_le (flip o) ≡ true
unfolding flip
le_flip Ordering.lt h = absurd (cc)
le_flip Ordering.eq h = absurd (cc)
le_flip Ordering.gt h = refl

pub leb_text-total : (s t : String) → leb_text s t ≡ false → leb_text t s ≡ true
leb_text-total s t h = rw (flip-compare s t) (le_flip (compare s t) h)

both_le : (o : Ordering) → is_le o ≡ true → is_le (flip o) ≡ true → o ≡ Ordering.eq
unfolding flip
both_le Ordering.lt h k = absurd (cc)
both_le Ordering.eq h k = refl
both_le Ordering.gt h k = absurd (cc)

pub leb_text-antisym : (s t : String) → leb_text s t ≡ true → leb_text t s ≡ true → s ≡ t
leb_text-antisym s t h k =
    path_by_compare s t (both_le (compare s t) h (rw (sym (flip-compare s t)) k))

then_trans :
    (m n k : ℕ) (o p q : Ordering)
    → (is_le o ≡ true → is_le p ≡ true → is_le q ≡ true)
    → is_le (then (compare_ℕ m n) o) ≡ true
    → is_le (then (compare_ℕ n k) p) ≡ true
    → is_le (then (compare_ℕ m k) q) ≡ true
unfolding Compared
then_trans m n k o p q rest h h' = elim (compared m n) [
  | inl (e, l) ↦ elim (compared n k) [
    | inl (f, l') ↦ rw (compare-less m k (omega arith)) refl
    | inr (inl (f, l')) ↦ rw (compare-less m k (omega arith)) refl
    | inr (inr (f, l')) ↦ absurd (cc)
  ]
  | inr (inl (e, l)) ↦ elim (compared n k) [
    | inl (f, l') ↦ rw (compare-less m k (omega arith)) refl
    | inr (inl (f, l')) ↦ rw (l, f) (rest (rw (e) at h) (rw (f) at h'))
    | inr (inr (f, l')) ↦ absurd (cc)
  ]
  | inr (inr (e, l)) ↦ absurd (cc)
]

pub leb_text_trans :
    (s t u : String) → leb_text s t ≡ true → leb_text t u ≡ true → leb_text s u ≡ true
leb_text_trans [] t [] h k = refl
leb_text_trans [] t (e ∷ u) h k = rw (compare.nil-cons e u) refl
leb_text_trans (c ∷ s) [] u h k = absurd (cc (rw (compare.cons-nil c s) at h))
leb_text_trans (c ∷ s) (d ∷ t) [] h k = absurd (cc (rw (compare.cons-nil d t) at k))
leb_text_trans (c ∷ s) (d ∷ t) (e ∷ u) h k = rw (compare.cons-cons c e s u) (
    then_trans (code c) (code d) (code e) (compare s t) (compare t u) (compare s u)
      (leb_text_trans s t u) (rw (compare.cons-cons c d s t) at h)
      (rw (compare.cons-cons d e t u) at k))
