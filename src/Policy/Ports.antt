-- ===== src/Policy/Ports.antt =====
-- The sets of ports: membership, order and repetition.
use k8s_operator_hermes_agen.Common.{
  ℤ, eqb_ℤ, eqb_ℤ_iff, ◌≡◌, refl, sym, ap, ◌∙◌, Bool, true, false, not, ◌&&◌, ◌||◌, List, [], ◌∷◌,
  arith, Bool-cases, inl, inr,
}
use k8s_operator_hermes_agen.Policy.{has_port, add_port, collect_ports, insert_sorted, sort}

pub has_port-insert_sorted :
    (p q : ℤ) (set : List ℤ) → has_port p (insert_sorted q set) ≡ (eqb_ℤ p q || has_port p set)
unfolding insert_sorted
has_port-insert_sorted p q [] = refl
has_port-insert_sorted p q (x ∷ xs) = ground (arith, has_port-insert_sorted p q xs)

pub has_port-sort : (p : ℤ) (set : List ℤ) → has_port p (sort set) ≡ has_port p set
unfolding sort
has_port-sort p [] = refl
has_port-sort p (x ∷ xs) = rw (has_port-insert_sorted, has_port-sort p xs)

or-true : (b : Bool) → (b || true) ≡ true
or-true true = refl
or-true false = refl

pub or-false : (b : Bool) → (b || false) ≡ b
or-false true = refl
or-false false = refl

-- Two ports that compare as equal are in the same sets.
pub has_port-equal : (p q : ℤ) (set : List ℤ) → eqb_ℤ p q ≡ true → has_port p set ≡ has_port q set
has_port-equal p q set e = ap (λ x. has_port x set) ((eqb_ℤ_iff p q).0 e)

pub has_port-add_port :
    (p q : ℤ) (set : List ℤ) → has_port p (add_port q set) ≡ (eqb_ℤ p q || has_port p set)
has_port-add_port p q set = elim (Bool-cases (has_port q set)) [
  | inr absent ↦ rw (absent)
  | inl present ↦ elim (Bool-cases (eqb_ℤ p q)) [
    | inl same ↦ rw (present, same) (has_port-equal p q set same ∙ present)
    | inr differs ↦ rw (present, differs)
  ]
]

and-false : (b c : Bool) → (c || b && false) ≡ (c || false)
and-false true c = refl
and-false false c = refl

known_lem :
    (p q : ℤ) (existing unique qs : List ℤ)
    → has_port q existing ≡ true
    → (has_port p unique || has_port p qs && not (has_port p existing))
      ≡ (has_port p unique || (eqb_ℤ p q || has_port p qs) && not (has_port p existing))
known_lem p q existing unique qs known = elim (Bool-cases (eqb_ℤ p q)) [
  | inl same ↦
      rw (same, has_port-equal p q existing same ∙ known)
        (and-false (has_port p qs) (has_port p unique))
  | inr differs ↦ rw (differs)
]

new_lem :
    (p q : ℤ) (existing unique qs : List ℤ)
    → has_port q existing ≡ false
    → ((eqb_ℤ p q || has_port p unique) || has_port p qs && not (has_port p existing))
      ≡ (has_port p unique || (eqb_ℤ p q || has_port p qs) && not (has_port p existing))
new_lem p q existing unique qs new = elim (Bool-cases (eqb_ℤ p q)) [
  | inl same ↦ rw (same, has_port-equal p q existing same ∙ new) (sym (or-true (has_port p unique)))
  | inr differs ↦ rw (differs)
]

pub has_port-collect_ports :
    (p : ℤ) (existing unique ports : List ℤ)
    → has_port p (collect_ports existing unique ports)
      ≡ (has_port p unique || has_port p ports && not (has_port p existing))
unfolding collect_ports
has_port-collect_ports p existing unique [] = sym (or-false (has_port p unique))
has_port-collect_ports p existing unique (q ∷ qs) = elim (Bool-cases (has_port q existing)) [
  | inl known ↦
      rw (known, has_port-collect_ports p existing unique qs)
        (known_lem p q existing unique qs known)
  | inr new ↦
      rw
        (
          new,
          has_port-collect_ports p existing (add_port q unique) qs,
          has_port-add_port p q unique,
        )
        (new_lem p q existing unique qs new)
]
