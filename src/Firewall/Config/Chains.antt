-- ===== src/Firewall/Config/Chains.antt =====
-- controllers/firewall/firewall-rules.go: the loops of `BuildConfig`, one definition for each chain
-- or group of chains, in the order of the source.
use kube_pet_node.Prelude.{ℕ, ◌%◌, List, [], ◌∷◌, ◌++◌, Option, none, some, if◌then◌else◌, head?}
use kube_pet_node.Prelude.Text.{Text, str, text_eq}
use kube_pet_node.Prelude.Assoc.{Assoc, lookup, keys}
use kube_pet_node.Prelude.Order.{sort_by}
use kube_pet_node.Firewall.Platform.{Ip, IpNet, Platform, Priority}
use kube_pet_node.Firewall.Rule
use kube_pet_node.Firewall.Rule.{Builder}
use kube_pet_node.Firewall.Nft.{Chain, Hooknum}
use kube_pet_node.Firewall.Writer
use kube_pet_node.Firewall.Cluster.{ServicePort, Service, Endpoints}
use kube_pet_node.Firewall.Config.Lookup.{
  service_key, is_external, is_headless, healthy_addrs, targets, port_name, note_local_pods,
}
use kube_pet_node.Firewall.Config.Actions.{
  Action, ◌>>◌, skip, for_each, on_nft, on_rule, on_pods, add_rule_with_comment,
}

-- The fields of a FirewallController that `BuildConfig` reads.
pub record Node : Type 0 where
  pub node_name : Text
  pub vpn_iface : Text
  pub node_ip : Ip
  pub pod_nets : List IpNet

-- &nftables.Chain{Name: name}
abbrev pub basic_chain : Text → Chain
basic_chain name = record {
  name = name;
  chain_type = [];
  hooknum = none;
  priority = none;
  table = none;
}

abbrev pub hook_chain : Text → Text → Hooknum → Priority → Chain
hook_chain name type' hook priority = record {
  name = name;
  chain_type = type';
  hooknum = some hook;
  priority = some priority;
  table = none;
}

unfoldable pub dnat_chain_name : Service → Text
dnat_chain_name svc = str "svc-" ++ (svc.uid ++ str "-dnat")

module _ (p : Platform) where
  -- `switch port.Protocol`
  unfoldable pub protocol_test : Text → Builder
  protocol_test protocol rb =
      if text_eq protocol (str "TCP")
      then Rule.is_tcp p rb
      else if text_eq protocol (str "UDP")
      then Rule.is_udp p rb
      else if text_eq protocol (str "SCTP")
      then Rule.is_sctp p rb
      else rb

  unfoldable pub forward_port : Text → ServicePort → Option (Text × ℕ) → Action
  forward_port key port none = skip
  forward_port key port (some (ip, target_port)) = do
    on_rule Rule.reset
    on_rule (protocol_test port.protocol)
    on_rule (Rule.is_dest_port (port.port % 65536))
    on_rule Rule.counter
    on_rule (Rule.translate_ipv4_destination p ip target_port)
    add_rule_with_comment (key ++ (b':' ∷ port_name port))

  -- One round of `for _, port := range svc.Spec.Ports`: only the first target is used.
  unfoldable pub service_port : Text → Endpoints → ServicePort → Action
  unfolding forward_port
  service_port key ep port = forward_port key port (head? (targets port.name ep.subsets))

  unfoldable pub forward_icmp : Text → Option Text → Action
  forward_icmp key none = skip
  forward_icmp key (some ip) = do
    on_rule Rule.reset
    on_rule (Rule.is_icmp p)
    on_rule Rule.counter
    on_rule (Rule.translate_ipv4_address p ip)
    add_rule_with_comment (key ++ str " ICMP")

  -- ICMP goes to the first address that is at all healthy.
  unfoldable pub service_icmp : Text → Endpoints → Action
  unfolding forward_icmp
  service_icmp key ep = forward_icmp key (head? (healthy_addrs ep.subsets))

  unfoldable pub chain_for : Node → Service → Option Endpoints → Action
  chain_for node svc none = skip
  chain_for node svc (some ep) =
      if is_external svc then skip else if is_headless svc then skip else (do
        on_pods (note_local_pods node.node_name (service_key svc) ep.subsets)
        on_nft (Writer.start_basic_chain p (dnat_chain_name svc))
        for_each (service_port (service_key svc) ep) svc.ports
        service_icmp (service_key svc) ep
        on_nft Writer.end_chain)

  -- One round of the first loop over the services.
  unfoldable pub service_chain : Node → Assoc Endpoints → Service → Action
  unfolding chain_for
  service_chain node eps svc = chain_for node svc (lookup (service_key svc) eps)

  -- One round of the loop that fills `cluster-ips-dnat`.
  unfoldable pub dispatch_dnat : Service → Action
  dispatch_dnat svc = if is_external svc then skip else if is_headless svc then skip else (do
    on_rule Rule.reset
    on_rule (Rule.is_ip_dest_address p svc.cluster_ip)
    on_rule (Rule.go_to_chain (dnat_chain_name svc))
    add_rule_with_comment (service_key svc))

  -- One round of the loop that fills `cluster-ips-filter`.
  unfoldable pub dispatch_filter : Service → Action
  dispatch_filter svc = if is_external svc then skip else if is_headless svc then skip else (do
    on_rule Rule.reset
    on_rule (Rule.is_ip_dest_address p svc.cluster_ip)
    on_rule Rule.counter
    on_rule Rule.reject_as_port_unreachable
    add_rule_with_comment (service_key svc))

  unfoldable pub cluster_ip_chains : List Service → Action
  cluster_ip_chains services = do
    on_nft (Writer.start_chain p (basic_chain (str "cluster-ips-dnat")))
    for_each dispatch_dnat services
    on_nft Writer.end_chain
    on_nft (Writer.start_chain p (basic_chain (str "cluster-ips-filter")))
    for_each dispatch_filter services
    on_nft Writer.end_chain

  -- `podIpsServingClusterIps[podIp]`; a missing key reads as the empty text.
  abbrev pub served_by : Assoc Text → Text → Text
  served_by pods ip = elim (lookup ip pods) [ none ↦ [] | some key ↦ key ]

  unfoldable pub pod_masquerade : Text → Action
  pod_masquerade ip w =
      (do
        on_rule Rule.reset
        on_rule (Rule.is_ip_src_address_str p ip)
        on_rule (Rule.is_ip_dest_address p ip)
        on_rule Rule.counter
        on_rule Rule.masquerade
        add_rule_with_comment (str "For " ++ served_by w.pods ip))
        w

  -- The keys of the map are collected in `order`, an order in which Go ranges over it, and sorted.
  unfoldable pub pod_masquerades : (List Text → List Text) → Action
  pod_masquerades order w =
      (do
        on_nft (Writer.start_chain p (basic_chain (str "cluster-ip-backing-pods-masq")))
        for_each pod_masquerade (sort_by (λ ip. ip) (order (keys w.pods)))
        on_nft Writer.end_chain)
        w

  unfoldable pub outbound_masquerades : Node → Action
  outbound_masquerades node = do
    on_nft (Writer.start_chain p (basic_chain (str "cluster-outbound-masq")))
    on_rule (Rule.is_ip_src_address node.node_ip)
    on_rule Rule.return
    add_rule_with_comment (str "From our Node IP")
    for_each
        (λ net. do
          on_rule (Rule.is_ip_src_network net)
          on_rule Rule.return
          add_rule_with_comment (str "From our Pod CNI"))
        node.pod_nets
    on_rule Rule.counter
    on_rule Rule.masquerade
    add_rule_with_comment (str "Foreign traffic from us to the cluster")
    on_nft Writer.end_chain
