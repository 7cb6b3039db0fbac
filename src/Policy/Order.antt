-- ===== src/Policy/Order.antt =====
-- Order and repetition of the ports of the additional rules.
use k8s_operator_hermes_agen.Common.{
  ℤ, ltb_ℤ, ◌≡◌, ◌∙◌, true, false, List, [], ◌∷◌, arith, Bool-cases, inl, inr,
}
use k8s_operator_hermes_agen.Policy.{
  has_port, collect_ports, insert_sorted, sort, additional_network_policy_ports,
}
use k8s_operator_hermes_agen.Policy.Ports.{has_port-sort}

-- No port stands twice.
abbrev Unique : List ℤ → Type 0
Unique [] = Unit {0}
Unique (p ∷ ps) = (has_port p ps ≡ false) × Unique ps

-- Each port is below the next.
abbrev pub Ascending : List ℤ → Type 0
Ascending [] = Unit {0}
Ascending (p ∷ []) = Unit {0}
Ascending (p ∷ q ∷ qs) = (ltb_ℤ p q ≡ true) × Ascending (q ∷ qs)

collect_ports-Unique :
    (existing unique ports : List ℤ) → Unique unique → Unique (collect_ports existing unique ports)
unfolding collect_ports
collect_ports-Unique existing unique [] u = u
collect_ports-Unique existing unique (q ∷ qs) u = elim (Bool-cases (has_port q existing)) [
  | inl known ↦ rw (known) (collect_ports-Unique existing unique qs u)
  | inr new ↦ elim (Bool-cases (has_port q unique)) [
    | inl seen ↦ rw (new, seen) (collect_ports-Unique existing unique qs u)
    | inr fresh ↦ rw (new, fresh) (collect_ports-Unique existing (q ∷ unique) qs (fresh, u))
  ]
]

insert_sorted-Ascending :
    (p : ℤ) (ps : List ℤ) → has_port p ps ≡ false → Ascending ps → Ascending (insert_sorted p ps)
unfolding insert_sorted
insert_sorted-Ascending p [] new up = tt
insert_sorted-Ascending p (x ∷ []) new up = ground arith
insert_sorted-Ascending p (x ∷ y ∷ ys) new (below, up) =
    ground (arith, insert_sorted-Ascending p (y ∷ ys))

sort-Ascending : (ps : List ℤ) → Unique ps → Ascending (sort ps)
unfolding sort
sort-Ascending [] u = tt
sort-Ascending (p ∷ ps) (new, u) =
    insert_sorted-Ascending p (sort ps) (has_port-sort p ps ∙ new) (sort-Ascending ps u)

-- Whatever the order and the repetitions of the ports asked for, those of the rule are in strictly
-- ascending order.
pub additional_network_policy_ports-Ascending :
    (ports existing : List ℤ) → Ascending (additional_network_policy_ports ports existing)
unfolding additional_network_policy_ports
additional_network_policy_ports-Ascending ports existing =
    sort-Ascending (collect_ports existing [] ports) (collect_ports-Unique existing [] ports tt)
