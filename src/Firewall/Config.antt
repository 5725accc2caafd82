-- ===== src/Firewall/Config.antt =====
-- controllers/firewall/firewall-rules.go: `BuildConfig`. The two informer lists are arguments; a
-- lister that fails is `none` in its list's place.
pub mod Lookup
pub mod Actions
pub mod Chains
pub mod Emits
use kube_pet_node.Prelude.{List, Option, none, some, Bool, true, false}
use kube_pet_node.Prelude.Text.{Text, str}
use kube_pet_node.Firewall.Platform.{Platform, Priority}
use kube_pet_node.Firewall.Rule
use kube_pet_node.Firewall.Rule.{new_rule_builder}
use kube_pet_node.Firewall.Nft.{Hooknum}
use kube_pet_node.Firewall.Writer
use kube_pet_node.Firewall.Writer.{NftWriter}
use kube_pet_node.Firewall.Cluster.{Service, Endpoints}
use Lookup.{endpoint_map, sort_services}
use Actions.{Work, Action, ◌>>◌, for_each, on_nft, on_rule, add_rule, add_rule_with_comment}
use Chains.{
  Node, hook_chain, service_chain, cluster_ip_chains, pod_masquerades, outbound_masquerades,
}

module _ (p : Platform) where
  open p use {chain_type_filter, chain_type_nat}

  -- A base chain that sends every packet to one chain.
  unfoldable pub jump_hook : Text → Text → Hooknum → Priority → Text → Action
  jump_hook name chain_type hook priority target = do
    on_nft (Writer.start_chain p (hook_chain name chain_type hook priority))
    on_rule (Rule.jump_to_chain target)
    add_rule
    on_nft Writer.end_chain

  unfoldable pub postrouting_hook : Node → Action
  postrouting_hook node = do
    on_nft (
        Writer.start_chain p (
          hook_chain (str "hook-nat-postrouting") chain_type_nat Hooknum.post_routing
            Priority.nat_source))
    on_rule (Rule.jump_to_chain (str "cluster-ip-backing-pods-masq"))
    add_rule
    on_rule (Rule.out_iface_name (str "lo"))
    on_rule Rule.return
    add_rule
    on_rule (Rule.out_iface_name node.vpn_iface)
    on_rule (Rule.go_to_chain (str "cluster-outbound-masq"))
    add_rule
    for_each
        (λ net. do
          on_rule (Rule.is_ip_src_network net)
          on_rule Rule.counter
          on_rule Rule.masquerade
          add_rule_with_comment (str "From our Pod CNI"))
        node.pod_nets
    on_nft Writer.end_chain

  -- The static hook chains that send packets into the other chains.
  unfoldable pub hook_chains : Node → Action
  hook_chains node = do
    jump_hook (str "hook-filter-forward") chain_type_filter Hooknum.forward Priority.filter
        (str "cluster-ips-filter")
    jump_hook (str "hook-filter-local-out") chain_type_filter Hooknum.local_out Priority.filter
        (str "cluster-ips-filter")
    jump_hook (str "hook-nat-fwd-in") chain_type_nat Hooknum.pre_routing Priority.nat_dest
        (str "cluster-ips-dnat")
    jump_hook (str "hook-nat-local-out") chain_type_nat Hooknum.local_out Priority.mangle
        (str "cluster-ips-dnat")
    postrouting_hook node

  unfoldable pub table_body :
      (List Text → List Text) → Node → List Endpoints → List Service → Action
  table_body order node endpoints services = do
    for_each (service_chain p node (endpoint_map endpoints)) (sort_services services)
    cluster_ip_chains p (sort_services services)
    pod_masquerades p order
    outbound_masquerades p node
    hook_chains node

  unfoldable pub config_steps :
      (List Text → List Text) → Node → List Endpoints → List Service → Action
  config_steps order node endpoints services = do
    on_nft (Writer.start_table_replacement (str "kube-pet"))
    on_rule (λ _. new_rule_builder)
    table_body order node endpoints services
    on_nft Writer.end_table

  abbrev pub written : Option Work → Option (NftWriter × Bool)
  written none = none
  written (some w) = some (w.nft, true)

  -- The Boolean says whether `BuildConfig` returns a nil error.
  unfoldable pub build_config :
      (List Text → List Text)
      → Node
      → Option (List Endpoints)
      → Option (List Service)
      → NftWriter
      → Option (NftWriter × Bool)
  build_config order node none services nft = some (nft, false)
  build_config order node (some endpoints) none nft = some (nft, false)
  build_config order node (some endpoints) (some services) nft = written (
      config_steps order node endpoints services
        (record { nft = nft; rule = new_rule_builder; pods = List.[] }))
