-- ===== src/Controller/Drift/Order.antt =====
-- The comparison of access modes against equality up to order.
use mathlib.Core.Bool.{Bool-set}
use mathlib.Core.Logic.{∥∥₁_elim}
use mathlib.Core.List.{Perm, Permᴰ}
use mathlib.Core.List.Perm
use k8s_operator_hermes_agen.Common.{
  ℕ, suc, ◌≡◌, refl, sym, ap, ◌∙◌, ◌↔◌, String, ◌==◌, eq_refl, eq_iff, true, List, [], ◌∷◌, length,
  eqb, leb_text, leb_text-total, leb_text-antisym, leb_text_trans, Bool-cases, inl, inr, arith,
}
use k8s_operator_hermes_agen.Controller.Drift.{
  insert_text, sort_texts, equal_texts, equal_persistent_volume_access_modes,
}

pub equal_texts_self : (xs : List String) → equal_texts xs xs ≡ true
unfolding equal_texts
equal_texts_self [] = refl
equal_texts_self (x ∷ xs) = rw (eq_refl x) (equal_texts_self xs)

equal_texts-path : (xs ys : List String) → equal_texts xs ys ≡ true → xs ≡ ys
unfolding equal_texts
equal_texts-path [] [] h = refl
equal_texts-path [] (y ∷ ys) h = absurd (cc)
equal_texts-path (x ∷ xs) [] h = absurd (cc)
equal_texts-path (x ∷ xs) (y ∷ ys) h = elim (Bool-cases (x == y)) [
  | inl same ↦ rw ((eq_iff x y).0 same, equal_texts-path xs ys (rw (same) at h)) refl
  | inr other ↦ absurd (cc (rw (other) at h))
]

insert_text-Perm : (x : String) (xs : List String) → Perm (insert_text x xs) (x ∷ xs)
unfolding insert_text
insert_text-Perm x [] = Perm.rfl
insert_text-Perm x (y ∷ ys) = elim (Bool-cases (leb_text x y)) [
  | inl below ↦ rw (below) Perm.rfl
  | inr above ↦ rw (above) (Perm.trans (Perm.cons y (insert_text-Perm x ys)) (Perm.swap x y ys))
]

sort_texts-Perm : (xs : List String) → Perm (sort_texts xs) xs
unfolding sort_texts
sort_texts-Perm [] = Perm.rfl
sort_texts-Perm (x ∷ xs) =
    Perm.trans (insert_text-Perm x (sort_texts xs)) (Perm.cons x (sort_texts-Perm xs))

length-insert_text : (x : String) (xs : List String) → length (insert_text x xs) ≡ suc (length xs)
unfolding insert_text
length-insert_text x [] = refl
length-insert_text x (y ∷ ys) = ground (arith, length-insert_text x ys)

length-sort_texts : (xs : List String) → length (sort_texts xs) ≡ length xs
unfolding sort_texts
length-sort_texts [] = refl
length-sort_texts (x ∷ xs) = length-insert_text x (sort_texts xs) ∙ ap suc (length-sort_texts xs)

same_text :
    (x y : String) (zs : List String)
    → x ≡ y
    → insert_text x (insert_text y zs) ≡ insert_text y (insert_text x zs)
same_text x y zs p = λ i. insert_text (p i) (insert_text (sym p i) zs)

-- The order in which two texts are inserted does not matter.
insert_text-insert_text :
    (x y : String) (zs : List String)
    → insert_text x (insert_text y zs) ≡ insert_text y (insert_text x zs)
unfolding insert_text
insert_text-insert_text x y [] = elim (Bool-cases (leb_text x y)) [
  | inl below ↦ elim (Bool-cases (leb_text y x)) [
    | inl above ↦ same_text x y [] (leb_text-antisym x y below above)
    | inr strict ↦ rw (below, strict) refl
  ]
  | inr above ↦ rw (above, leb_text-total x y above) refl
]
insert_text-insert_text x y (z ∷ zs) = elim (Bool-cases (leb_text x z)) [
  | inl x_z ↦ elim (Bool-cases (leb_text y z)) [
    | inl y_z ↦ elim (Bool-cases (leb_text x y)) [
      | inl below ↦ elim (Bool-cases (leb_text y x)) [
        | inl above ↦ same_text x y (z ∷ zs) (leb_text-antisym x y below above)
        | inr strict ↦ rw (x_z, y_z, below, strict) refl
      ]
      | inr above ↦ rw (x_z, y_z, above, leb_text-total x y above, x_z) refl
    ]
    | inr z_y ↦ elim (Bool-cases (leb_text y x)) [
      | inl above ↦ absurd (cc (leb_text_trans y x z above x_z))
      | inr below ↦ rw (x_z, z_y, x_z, below) refl
    ]
  ]
  | inr z_x ↦ elim (Bool-cases (leb_text y z)) [
    | inl y_z ↦ elim (Bool-cases (leb_text x y)) [
      | inl below ↦ absurd (cc (leb_text_trans x y z below y_z))
      | inr above ↦ rw (z_x, y_z, above, z_x) refl
    ]
    | inr z_y ↦ rw (z_x, z_y, z_x, insert_text-insert_text x y zs) refl
  ]
]

sort_texts-Permᴰ : (xs ys : List String) → Permᴰ xs ys → sort_texts xs ≡ sort_texts ys
unfolding sort_texts
sort_texts-Permᴰ _ _ Permᴰ.nil = refl
sort_texts-Permᴰ (x ∷ xs) (y ∷ ys) (Permᴰ.cons e d) =
    λ i. insert_text (e i) (sort_texts-Permᴰ xs ys d i)
sort_texts-Permᴰ (x ∷ y ∷ xs) (y' ∷ x' ∷ _) (Permᴰ.swap e f) =
    insert_text-insert_text x y (sort_texts xs) ∙ λ i.
    insert_text (f i) (insert_text (e i) (sort_texts xs))
sort_texts-Permᴰ xs zs (Permᴰ.trans {l₂ = ys} d d') =
    sort_texts-Permᴰ xs ys d ∙ sort_texts-Permᴰ ys zs d'

sorted_alike :
    (left right : List String)
    → equal_persistent_volume_access_modes left right ≡ true
    → sort_texts left ≡ sort_texts right
unfolding equal_persistent_volume_access_modes
sorted_alike left right h = elim (Bool-cases (eqb (length left) (length right))) [
  | inl same ↦ equal_texts-path _ _ (rw (same) at h)
  | inr other ↦ absurd (cc (rw (other) at h))
]

eqb_self : (n : ℕ) → eqb n n ≡ true
eqb_self n = ground arith

pub alike_sorted :
    (left right : List String)
    → sort_texts left ≡ sort_texts right
    → equal_persistent_volume_access_modes left right ≡ true
unfolding equal_persistent_volume_access_modes
alike_sorted left right same =
    let lengths : length left ≡ length right =
      sym (length-sort_texts left) ∙ ap length same ∙ length-sort_texts right in
    rw (lengths, eqb_self (length right), same) (equal_texts_self (sort_texts right))

-- Two lists of access modes count as equal exactly if they differ in their order alone: an access
-- mode that is given more often in one of them counts as a drift.
pub equal_persistent_volume_access_modes-Perm :
    (left right : List String)
    → (equal_persistent_volume_access_modes left right ≡ true) ↔ Perm left right
equal_persistent_volume_access_modes-Perm left right = (
  λ h.
      Perm.trans (Perm.symm (sort_texts-Perm left))
        (rw (sorted_alike left right h) (sort_texts-Perm right)),
  λ p. ∥∥₁_elim p (Bool-set _ _) (λ d. alike_sorted left right (sort_texts-Permᴰ left right d)),
)
