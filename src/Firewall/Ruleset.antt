-- ===== src/Firewall/Ruleset.antt =====
-- The configuration of controllers/firewall/firewall-rules.go as a value: the chains with their
-- rules, described without a writer, a builder that is used again or an order of visits.
pub mod Order
pub mod References
pub mod Closed
pub mod Dangling
use kube_pet_node.Prelude.{
  ℕ, ◌%◌, List, [], ◌∷◌, ◌++◌, Option, none, some, Bool, not, ◌&&◌, if◌then◌else◌, head?, flat_map,
  drop,
}
use kube_pet_node.Prelude.Text.{Text, str}
use kube_pet_node.Prelude.Assoc.{Assoc, lookup, keys}
use kube_pet_node.Prelude.Order.{sort_by}
use kube_pet_node.Firewall.Platform.{Platform, Priority}
use kube_pet_node.Firewall.Expr.{Expr}
use kube_pet_node.Firewall.Rule
use kube_pet_node.Firewall.Rule.{Builder, new_rule_builder}
use kube_pet_node.Firewall.Nft.{Chain, Hooknum}
use kube_pet_node.Firewall.Cluster.{ServicePort, Service, Endpoints}
use kube_pet_node.Firewall.Config.Lookup.{
  service_key, is_external, is_headless, healthy_addrs, targets, port_name, note_local_pods,
}
use kube_pet_node.Firewall.Config.Chains.{
  Node, basic_chain, hook_chain, dnat_chain_name, protocol_test,
}

pub record RuleEntry : Type 0 where
  pub exprs : List Expr
  pub line : Text
  pub comment : Option Text

pub record Block : Type 0 where
  pub chain : Chain
  pub rules : List RuleEntry

-- The rule that a new builder holds after the steps.
abbrev pub rule_of : Builder → Option Text → RuleEntry
rule_of f comment = record {
  exprs = (f new_rule_builder).exprs;
  line = drop 1 (f new_rule_builder).text;
  comment = comment;
}

-- A service gets rules if it has an address of its own.
unfoldable pub has_cluster_ip : Service → Bool
has_cluster_ip svc = not (is_external svc) && not (is_headless svc)

module _ (p : Platform) where
  open p use {chain_type_filter, chain_type_nat}

  unfoldable pub port_rule : Text → ServicePort → Option (Text × ℕ) → List RuleEntry
  port_rule key port none = []
  port_rule key port (some (ip, target_port)) =
      rule_of
        (λ rb.
          Rule.translate_ipv4_destination p ip target_port (
            Rule.counter
              (Rule.is_dest_port (port.port % 65536) (protocol_test p port.protocol rb))))
        (some (key ++ (b':' ∷ port_name port)))
      ∷ []

  -- Of all targets of the port the first gets the packets.
  unfoldable pub port_rules : Text → Endpoints → ServicePort → List RuleEntry
  unfolding port_rule
  port_rules key ep port = port_rule key port (head? (targets port.name ep.subsets))

  unfoldable pub icmp_rule : Text → Option Text → List RuleEntry
  icmp_rule key none = []
  icmp_rule key (some ip) =
      rule_of (λ rb. Rule.translate_ipv4_address p ip (Rule.counter (Rule.is_icmp p rb)))
        (some (key ++ str " ICMP"))
      ∷ []

  unfoldable pub icmp_rules : Text → Endpoints → List RuleEntry
  unfolding icmp_rule
  icmp_rules key ep = icmp_rule key (head? (healthy_addrs ep.subsets))

  unfoldable pub block_for : Service → Option Endpoints → List Block
  block_for svc none = []
  block_for svc (some ep) =
      if has_cluster_ip svc
      then record {
        chain = basic_chain (dnat_chain_name svc);
        rules =
            flat_map (port_rules (service_key svc) ep) svc.ports ++ icmp_rules (service_key svc) ep;
      }
        ∷ []
      else []

  unfoldable pub service_blocks : Assoc Endpoints → Service → List Block
  unfolding block_for
  service_blocks eps svc = block_for svc (lookup (service_key svc) eps)

  unfoldable pub note_service : Text → Service → Option Endpoints → Assoc Text → Assoc Text
  note_service node svc none pods = pods
  note_service node svc (some ep) pods =
      if has_cluster_ip svc then note_local_pods node (service_key svc) ep.subsets pods else pods

  -- The addresses of local pods that serve, with the service that named them last.
  unfoldable pub local_pods : Text → Assoc Endpoints → List Service → Assoc Text → Assoc Text
  unfolding note_service
  local_pods node eps [] pods = pods
  local_pods node eps (svc ∷ svcs) pods =
      local_pods node eps svcs (note_service node svc (lookup (service_key svc) eps) pods)

  unfoldable pub dnat_rules : Service → List RuleEntry
  dnat_rules svc =
      if has_cluster_ip svc
      then rule_of
          (λ rb.
            Rule.go_to_chain (dnat_chain_name svc) (Rule.is_ip_dest_address p svc.cluster_ip rb))
          (some (service_key svc))
        ∷ []
      else []

  unfoldable pub filter_rules : Service → List RuleEntry
  filter_rules svc =
      if has_cluster_ip svc
      then rule_of
          (λ rb.
            Rule.reject_as_port_unreachable
              (Rule.counter (Rule.is_ip_dest_address p svc.cluster_ip rb)))
          (some (service_key svc))
        ∷ []
      else []

  unfoldable pub pod_rules : Assoc Text → Text → List RuleEntry
  pod_rules pods ip =
      rule_of
        (λ rb.
          Rule.masquerade
            (Rule.counter (Rule.is_ip_dest_address p ip (Rule.is_ip_src_address_str p ip rb))))
        (some (str "For " ++ elim (lookup ip pods) [ none ↦ [] | some key ↦ key ]))
      ∷ []

  unfoldable pub outbound_rules : Node → List RuleEntry
  outbound_rules node =
      rule_of (λ rb. Rule.return (Rule.is_ip_src_address node.node_ip rb))
        (some (str "From our Node IP"))
      ∷ (flat_map
            (λ net.
              rule_of (λ rb. Rule.return (Rule.is_ip_src_network net rb))
                (some (str "From our Pod CNI"))
              ∷ [])
            node.pod_nets
          ++ rule_of (λ rb. Rule.masquerade (Rule.counter rb))
              (some (str "Foreign traffic from us to the cluster"))
            ∷ [])

  unfoldable pub jump_block : Text → Text → Hooknum → Priority → Text → Block
  jump_block name chain_type hook priority target = record {
    chain = hook_chain name chain_type hook priority;
    rules = rule_of (Rule.jump_to_chain target) none ∷ [];
  }

  unfoldable pub postrouting_block : Node → Block
  postrouting_block node = record {
    chain =
        hook_chain (str "hook-nat-postrouting") chain_type_nat Hooknum.post_routing
          Priority.nat_source;
    rules =
        rule_of (Rule.jump_to_chain (str "cluster-ip-backing-pods-masq")) none
        ∷ rule_of (λ rb. Rule.return (Rule.out_iface_name (str "lo") rb)) none
        ∷ rule_of
            (λ rb.
              Rule.go_to_chain (str "cluster-outbound-masq")
                (Rule.out_iface_name node.vpn_iface rb))
            none
        ∷ flat_map
            (λ net.
              rule_of (λ rb. Rule.masquerade (Rule.counter (Rule.is_ip_src_network net rb)))
                (some (str "From our Pod CNI"))
              ∷ [])
            node.pod_nets;
  }

  unfoldable pub static_blocks : Node → List Block
  static_blocks node =
      jump_block (str "hook-filter-forward") chain_type_filter Hooknum.forward Priority.filter
        (str "cluster-ips-filter")
      ∷ jump_block (str "hook-filter-local-out") chain_type_filter Hooknum.local_out Priority.filter
          (str "cluster-ips-filter")
      ∷ jump_block (str "hook-nat-fwd-in") chain_type_nat Hooknum.pre_routing Priority.nat_dest
          (str "cluster-ips-dnat")
      ∷ jump_block (str "hook-nat-local-out") chain_type_nat Hooknum.local_out Priority.mangle
          (str "cluster-ips-dnat")
      ∷ postrouting_block node
      ∷ []

  -- The chains of the table, for services in sorted order.
  unfoldable pub ruleset_of : Node → Assoc Endpoints → List Service → List Block
  ruleset_of node eps svcs =
      let pods = local_pods node.node_name eps svcs [] in
      flat_map (service_blocks eps) svcs
      ++ (record { chain = basic_chain (str "cluster-ips-dnat"); rules = flat_map dnat_rules svcs }
          ∷ record {
            chain = basic_chain (str "cluster-ips-filter");
            rules = flat_map filter_rules svcs;
          }
          ∷ record {
            chain = basic_chain (str "cluster-ip-backing-pods-masq");
            rules = flat_map (pod_rules pods) (sort_by (λ ip. ip) (keys pods));
          }
          ∷ record {
            chain = basic_chain (str "cluster-outbound-masq");
            rules = outbound_rules node;
          }
          ∷ static_blocks node)
