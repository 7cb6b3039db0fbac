-- ===== src/Policy/Egress.antt =====
-- Which ports the egress rules open.
use k8s_operator_hermes_agen.Common.{
  ℤ, pos, eqb_ℤ, ◌≡◌, refl, ap, ◌∙◌, Bool, true, false, not, ◌&&◌, ◌||◌, List, [], ◌∷◌, ◌++◌, arith,
  any, is_empty, String, ◌==◌,
}
use k8s_operator_hermes_agen.Api.{HermesAgent, EgressRule, NetworkPolicyPort, NetworkPolicyPeer}
use k8s_operator_hermes_agen.Policy.{
  has_port, build_egress, network_policy_ports, network_policy_rule, rule_if_any, ssh_rule,
  additional_network_policy_ports, network_policy_port_set, default_tcp_ports, base_rules,
  network_policy_peers, tcp, udp,
}
use k8s_operator_hermes_agen.Policy.Ports.{
  has_port-sort, has_port-add_port, has_port-collect_ports, or-false,
}

-- Which ports of a protocol rules open, as Kubernetes documents it: a rule opens the ports that it
-- lists, and one that lists none opens all.
abbrev pub opens : String → ℤ → List EgressRule → Bool
opens protocol p rules =
    any
      (λ (r : EgressRule).
        is_empty r.ports
        || any (λ (q : NetworkPolicyPort). q.protocol == protocol && eqb_ℤ p q.port) r.ports)
      rules

any-append :
    (A : Type 0) (test : A → Bool) (xs ys : List A)
    → any test (xs ++ ys) ≡ (any test xs || any test ys)
any-append A test [] ys = refl
any-append A test (x ∷ xs) ys = ground (arith, any-append A test xs ys)

any-network_policy_ports :
    (protocol asked : String) (p : ℤ) (ports : List ℤ)
    → any
        (λ (q : NetworkPolicyPort). q.protocol == asked && eqb_ℤ p q.port)
        (network_policy_ports protocol ports)
      ≡ (protocol == asked && has_port p ports)
unfolding network_policy_ports
any-network_policy_ports protocol asked p [] = ground arith
any-network_policy_ports protocol asked p (x ∷ xs) =
    ground (arith, any-network_policy_ports protocol asked p xs)

opens-rule_if_any :
    (to : List NetworkPolicyPeer) (protocol asked : String) (p : ℤ) (ports : List ℤ)
    → opens asked p (rule_if_any to protocol ports) ≡ (protocol == asked && has_port p ports)
unfolding network_policy_rule network_policy_ports
opens-rule_if_any to protocol asked p [] = ground arith
opens-rule_if_any to protocol asked p (x ∷ xs) =
    or-false _ ∙ any-network_policy_ports protocol asked p (x ∷ xs)

-- The additional ports are those asked for that no other rule opens.
has_port-additional :
    (p : ℤ) (ports existing : List ℤ)
    → has_port p (additional_network_policy_ports ports existing)
      ≡ (has_port p ports && not (has_port p existing))
unfolding additional_network_policy_ports
has_port-additional p ports existing = rw (has_port-sort, has_port-collect_ports)

has_port-default_tcp_ports :
    (p : ℤ) (ssh : Bool)
    → has_port p (default_tcp_ports ssh)
      ≡ (ssh && eqb_ℤ p (pos 22) || has_port p (pos 53 ∷ pos 80 ∷ pos 443 ∷ []))
unfolding network_policy_port_set
has_port-default_tcp_ports p false = refl
has_port-default_tcp_ports p true = has_port-add_port p (pos 22) (pos 53 ∷ pos 80 ∷ pos 443 ∷ [])

opens-append_four :
    (asked : String) (p : ℤ) (xs ys zs ws : List EgressRule)
    → opens asked p (xs ++ (ys ++ (zs ++ ws)))
      ≡ (opens asked p xs || (opens asked p ys || (opens asked p zs || opens asked p ws)))
opens-append_four asked p xs ys zs ws =
    any-append EgressRule _ xs (ys ++ (zs ++ ws))
    ∙ ap (λ b. opens asked p xs || b)
        (any-append EgressRule _ ys (zs ++ ws)
          ∙ ap (λ b. opens asked p ys || b) (any-append EgressRule _ zs ws))

opens-tcp-base_rules :
    (to : List NetworkPolicyPeer) (p : ℤ)
    → opens tcp p (base_rules to) ≡ has_port p (pos 53 ∷ pos 80 ∷ pos 443 ∷ [])
unfolding network_policy_rule network_policy_ports
opens-tcp-base_rules to p = ground arith

opens-udp-base_rules :
    (to : List NetworkPolicyPeer) (p : ℤ) → opens udp p (base_rules to) ≡ eqb_ℤ p (pos 53)
unfolding network_policy_rule network_policy_ports
opens-udp-base_rules to p = ground arith

opens-tcp-ssh_rule :
    (to : List NetworkPolicyPeer) (p : ℤ) (ssh : Bool)
    → opens tcp p (ssh_rule ssh to) ≡ (ssh && eqb_ℤ p (pos 22))
unfolding network_policy_rule network_policy_ports
opens-tcp-ssh_rule to p true = ground arith
opens-tcp-ssh_rule to p false = refl

opens-udp-ssh_rule :
    (to : List NetworkPolicyPeer) (p : ℤ) (ssh : Bool) → opens udp p (ssh_rule ssh to) ≡ false
unfolding network_policy_rule network_policy_ports
opens-udp-ssh_rule to p true = refl
opens-udp-ssh_rule to p false = refl

-- A part that is only added where the others do not have it.
or-rest :
    (base ssh extra x y z w : Bool)
    → x ≡ base
    → y ≡ ssh
    → z ≡ (extra && not (ssh || base))
    → w ≡ false
    → (x || (y || (z || w))) ≡ (base || (ssh || extra))
or-rest base ssh extra x y z w = ground arith

or-rest_first :
    (base extra x y z w : Bool)
    → x ≡ base
    → y ≡ false
    → z ≡ false
    → w ≡ (extra && not base)
    → (x || (y || (z || w))) ≡ (base || extra)
or-rest_first base extra x y z w = ground arith

has_port-udp : (p : ℤ) → has_port p (network_policy_port_set (pos 53 ∷ [])) ≡ eqb_ℤ p (pos 53)
unfolding network_policy_port_set
has_port-udp p = or-false (eqb_ℤ p (pos 53))

module _ (a : HermesAgent) (backend : String) (p : ℤ) where
  opens-tcp-build_egress : opens tcp p (build_egress a backend) ≡ (
      has_port p (pos 53 ∷ pos 80 ∷ pos 443 ∷ [])
      || (backend == "ssh" && eqb_ℤ p (pos 22)
          || has_port p a.spec.network_policy.additional_tcp_ports))
  unfolding build_egress
  opens-tcp-build_egress =
      let to = network_policy_peers a.spec.network_policy.destinations in
      let ports = a.spec.network_policy.additional_tcp_ports in
      let opened = default_tcp_ports (backend == "ssh") in
      opens-append_four tcp p (base_rules to) (ssh_rule (backend == "ssh") to)
        (rule_if_any to tcp (additional_network_policy_ports ports opened)) _
      ∙ or-rest _ _ _ _ _ _ _ (opens-tcp-base_rules to p)
          (opens-tcp-ssh_rule to p (backend == "ssh"))
          (opens-rule_if_any to tcp tcp p _
            ∙ (has_port-additional p ports opened
                ∙ ap (λ b. has_port p ports && not b)
                    (has_port-default_tcp_ports p (backend == "ssh"))))
          (opens-rule_if_any to udp tcp p (
            additional_network_policy_ports a.spec.network_policy.additional_udp_ports
              (network_policy_port_set (pos 53 ∷ []))))

  opens-udp-build_egress :
      opens udp p (build_egress a backend)
      ≡ (eqb_ℤ p (pos 53) || has_port p a.spec.network_policy.additional_udp_ports)
  unfolding build_egress
  opens-udp-build_egress =
      let to = network_policy_peers a.spec.network_policy.destinations in
      let ports = a.spec.network_policy.additional_udp_ports in
      let opened = network_policy_port_set (pos 53 ∷ []) in
      opens-append_four udp p (base_rules to) (ssh_rule (backend == "ssh") to) _
        (rule_if_any to udp (additional_network_policy_ports ports opened))
      ∙ or-rest_first _ _ _ _ _ _ (opens-udp-base_rules to p)
          (opens-udp-ssh_rule to p (backend == "ssh"))
          (opens-rule_if_any to tcp udp p (
            additional_network_policy_ports a.spec.network_policy.additional_tcp_ports
              (default_tcp_ports (backend == "ssh"))))
          (opens-rule_if_any to udp udp p _
            ∙ (has_port-additional p ports opened
                ∙ ap (λ b. has_port p ports && not b) (has_port-udp p)))

  -- The egress rules open a TCP port exactly if it is 53, 80 or 443, or 22 with the ssh backend, or one
  -- of the additional TCP ports; and a UDP port exactly if it is 53 or one of the additional UDP ports.
  pub opens-build_egress :
      (opens tcp p (build_egress a backend) ≡ (
        has_port p (pos 53 ∷ pos 80 ∷ pos 443 ∷ [])
        || (backend == "ssh" && eqb_ℤ p (pos 22)
            || has_port p a.spec.network_policy.additional_tcp_ports)))
      × (opens udp p (build_egress a backend)
          ≡ (eqb_ℤ p (pos 53) || has_port p a.spec.network_policy.additional_udp_ports))
  opens-build_egress = (opens-tcp-build_egress, opens-udp-build_egress)
