-- ===== src/Policy.antt =====
-- internal/controller/hermesagent_resources.go: the egress NetworkPolicy.
-- A set of ports (`map[int32]struct{}`) is the list of its members, in an order that stands for
-- nothing.
pub mod Ports
pub mod Egress
pub mod Order
use k8s_operator_hermes_agen.Common.{
  ℤ, pos, leb_ℤ, eqb_ℤ, String, ◌==◌, Bool, Option, none, some, List, [], ◌∷◌, ◌++◌, any, is_empty,
  if◌then◌else◌,
}
use k8s_operator_hermes_agen.Api.{
  HermesAgent, PolicyPeer, NetworkPolicyPeer, NetworkPolicyPort, NetworkPolicySpec, EgressRule,
  IpBlock,
}
use k8s_operator_hermes_agen.Settings.{resource_labels}

-- `_, ok := set[port]`
abbrev pub has_port : ℤ → List ℤ → Bool
has_port p set = any (eqb_ℤ p) set

-- `set[port] = struct{}{}`
abbrev pub add_port : ℤ → List ℤ → List ℤ
add_port p set = if has_port p set then set else p ∷ set

-- The loop that collects the ports that are not in `existing`.
unfoldable pub collect_ports : List ℤ → List ℤ → List ℤ → List ℤ
collect_ports existing unique [] = unique
collect_ports existing unique (p ∷ ports) =
    collect_ports existing (if has_port p existing then unique else add_port p unique) ports

-- `slices.Sort`
unfoldable pub insert_sorted : ℤ → List ℤ → List ℤ
insert_sorted p [] = p ∷ []
insert_sorted p (q ∷ qs) = if leb_ℤ p q then p ∷ q ∷ qs else q ∷ insert_sorted p qs

unfoldable pub sort : List ℤ → List ℤ
unfolding insert_sorted
sort [] = []
sort (p ∷ ps) = insert_sorted p (sort ps)

unfoldable pub additional_network_policy_ports : List ℤ → List ℤ → List ℤ
unfolding collect_ports sort
additional_network_policy_ports ports existing = sort (collect_ports existing [] ports)

-- `networkPolicyPortSet`
unfoldable pub network_policy_port_set : List ℤ → List ℤ
network_policy_port_set [] = []
network_policy_port_set (p ∷ ports) = add_port p (network_policy_port_set ports)

unfoldable pub network_policy_ports : String → List ℤ → List NetworkPolicyPort
network_policy_ports protocol [] = []
network_policy_ports protocol (p ∷ ports) =
    record { protocol = protocol; port = p } ∷ network_policy_ports protocol ports

unfoldable pub network_policy_rule : List NetworkPolicyPeer → List NetworkPolicyPort → EgressRule
network_policy_rule to ports = record { to = to; ports = ports }

unfoldable pub network_policy_ip_block : PolicyPeer → Option IpBlock
network_policy_ip_block peer =
    if peer.cidr == "" then none else some (record { cidr = peer.cidr; except = peer.except })

-- `networkPolicyPeers`: nil and no peers are one.
unfoldable pub network_policy_peers : List PolicyPeer → List NetworkPolicyPeer
unfolding network_policy_ip_block
network_policy_peers [] = []
network_policy_peers (peer ∷ peers) =
    record {
      ip_block = network_policy_ip_block peer;
      namespace_selector = peer.namespace_selector;
      pod_selector = peer.pod_selector;
    }
    ∷ network_policy_peers peers

abbrev pub udp : String
udp = "UDP"

abbrev pub tcp : String
tcp = "TCP"

-- `if ports := …; len(ports) > 0 { egress = append(egress, rule) }`
abbrev rule_if_any : List NetworkPolicyPeer → String → List ℤ → List EgressRule
rule_if_any to protocol ports =
    if is_empty ports then [] else network_policy_rule to (network_policy_ports protocol ports) ∷ []

-- The rule for SSH, and the TCP ports that have a rule of their own.
abbrev ssh_rule : Bool → List NetworkPolicyPeer → List EgressRule
ssh_rule ssh to =
    if ssh then network_policy_rule to (network_policy_ports tcp (pos 22 ∷ [])) ∷ [] else []

abbrev default_tcp_ports : Bool → List ℤ
default_tcp_ports ssh =
    let ports = network_policy_port_set (pos 53 ∷ pos 80 ∷ pos 443 ∷ []) in
    if ssh then add_port (pos 22) ports else ports

-- The rules for name resolution and for the web, which are always there.
abbrev base_rules : List NetworkPolicyPeer → List EgressRule
base_rules to =
    network_policy_rule []
      (network_policy_ports udp (pos 53 ∷ []) ++ network_policy_ports tcp (pos 53 ∷ []))
    ∷ network_policy_rule to (network_policy_ports tcp (pos 80 ∷ pos 443 ∷ []))
    ∷ []

-- The `egress` list of `buildNetworkPolicy`.
unfoldable pub build_egress : HermesAgent → String → List EgressRule
unfolding additional_network_policy_ports network_policy_port_set network_policy_ports
    network_policy_rule
build_egress a terminal_backend =
    let to = network_policy_peers a.spec.network_policy.destinations in
    let ssh = terminal_backend == "ssh" in
    base_rules to
    ++ (ssh_rule ssh to
        ++ (rule_if_any to tcp (
              additional_network_policy_ports a.spec.network_policy.additional_tcp_ports
                (default_tcp_ports ssh))
            ++ rule_if_any to udp (
                additional_network_policy_ports a.spec.network_policy.additional_udp_ports
                  (network_policy_port_set (pos 53 ∷ [])))))

-- The spec of `buildNetworkPolicy`.
unfoldable pub build_network_policy : HermesAgent → String → NetworkPolicySpec
unfolding build_egress resource_labels
build_network_policy a terminal_backend = record {
  pod_selector = record { match_labels = resource_labels a; match_expressions = [] };
  policy_types = "Egress" ∷ [];
  egress = build_egress a terminal_backend;
}
