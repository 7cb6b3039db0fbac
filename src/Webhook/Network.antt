-- ===== src/Webhook/Network.antt =====
-- Validation of the network policy. `parse_prefix` is netip.ParsePrefix, which gives the error's
-- text or nothing; `validate_label_selector` is the one of k8s.io/apimachinery.
use k8s_operator_hermes_agen.Common.{
  ℕ, suc, ℤ, pos, ltb_ℤ, leb_ℤ, String, ◌==◌, ◌<>◌, Bool, not, ◌&&◌, ◌||◌, Option, none, some, List,
  [], ◌∷◌, ◌++◌, is_empty, if◌then◌else◌,
}
use k8s_operator_hermes_agen.Api.{NetworkPolicyConfig, PolicyPeer, LabelSelector}
use k8s_operator_hermes_agen.FileMounts.{is_set}
use k8s_operator_hermes_agen.Webhook.Fields.{
  FieldPath, ◌⟩◌, ◌at◌, ErrorList, invalid, error_if, when_set,
}

-- `port <= 0 || port > 65535`
abbrev pub port_out_of_range : ℤ → Bool
port_out_of_range p = leb_ℤ p (pos 0) || ltb_ℤ (pos 65535) p

-- `validateNetworkPolicyPorts`, from index i
unfoldable pub validate_network_policy_ports : ℕ → FieldPath → List ℤ → ErrorList
validate_network_policy_ports i path [] = []
validate_network_policy_ports i path (p ∷ ports) =
    error_if (port_out_of_range p) (invalid (path at i) "must be between 1 and 65535")
    ++ validate_network_policy_ports (suc i) path ports

module _ (parse_prefix : String → Option String)
    (validate_label_selector : LabelSelector → FieldPath → ErrorList) where
  unfoldable pub validate_cidr : FieldPath → String → ErrorList
  validate_cidr path cidr = elim (parse_prefix cidr) [
    | none ↦ []
    | some e ↦ invalid path ("must be a valid CIDR: " <> e) ∷ []
  ]

  -- The loop over `destination.Except`, from index i
  unfoldable pub validate_excepts : ℕ → FieldPath → List String → ErrorList
  unfolding validate_cidr
  validate_excepts i path [] = []
  validate_excepts i path (c ∷ cs) = validate_cidr (path at i) c ++ validate_excepts (suc i) path cs

  -- `validateNetworkPolicyDestinations`, from index i
  unfoldable pub validate_network_policy_destinations : ℕ → FieldPath → List PolicyPeer → ErrorList
  unfolding validate_cidr validate_excepts
  validate_network_policy_destinations i path [] = []
  validate_network_policy_destinations i path (d ∷ ds) =
      let here = path at i in
      error_if (d.cidr == "" && not (is_set d.namespace_selector) && not (is_set d.pod_selector))
        (invalid here "at least one of cidr, namespaceSelector, or podSelector must be set")
      ++ ((if d.cidr == "" then [] else validate_cidr (here ⟩ "cidr") d.cidr)
          ++ (error_if (not (is_empty d.except) && d.cidr == "")
                (invalid (here ⟩ "except") "except requires cidr to be set")
              ++ (validate_excepts 0 (here ⟩ "except") d.except
                  ++ (when_set d.namespace_selector
                        (λ s. validate_label_selector s (here ⟩ "namespaceSelector"))
                      ++ (when_set d.pod_selector
                            (λ s. validate_label_selector s (here ⟩ "podSelector"))
                          ++ validate_network_policy_destinations (suc i) path ds)))))

  unfoldable pub validate_network_policy : FieldPath → NetworkPolicyConfig → ErrorList
  unfolding validate_network_policy_destinations validate_network_policy_ports
  validate_network_policy path n =
      validate_network_policy_destinations 0 (path ⟩ "destinations") n.destinations
      ++ (validate_network_policy_ports 0 (path ⟩ "additionalTCPPorts") n.additional_tcp_ports
          ++ validate_network_policy_ports 0 (path ⟩ "additionalUDPPorts") n.additional_udp_ports)
