-- ===== src/Firewall/Refinement.antt =====
-- `BuildConfig` (controllers/firewall/firewall-rules.go) writes the rule set of Ruleset.antt.
mod Rules
use kube_pet_node.Prelude.{
  ℕ, ◌%◌, List, [], ◌∷◌, ◌++◌, Option, none, some, ◌≡◌, refl, sym, ap, ◌∙◌, Bool, true, false, map,
  flat_map, drop, arith, append_assoc, append-nil, Bool-cases, inl, inr, if◌then◌else◌, head?,
}
use mathlib.Core.List.{Permᴰ}
use kube_pet_node.Prelude.Text.{Text, str, text_eq}
use kube_pet_node.Prelude.Assoc.{Assoc, lookup, keys}
use kube_pet_node.Prelude.Order.{sort_by, sort_by-perm}
use kube_pet_node.Firewall.Platform.{Platform, IpNet, Priority}
use kube_pet_node.Firewall.Expr.{Expr}
use kube_pet_node.Firewall.Rule
use kube_pet_node.Firewall.Rule.{new_rule_builder}
use kube_pet_node.Firewall.Nft.{Table, Hooknum, NftCall}
use kube_pet_node.Firewall.Writer
use kube_pet_node.Firewall.Writer.{NftWriter, new_nft_writer}
use kube_pet_node.Firewall.Cluster.{ServicePort, Service, Endpoints}
use kube_pet_node.Firewall.Config.Lookup.{
  service_key, endpoint_map, sort_services, is_external, is_headless, healthy_addrs, targets,
  port_name, note_local_pods,
}
use Rules.{
  service_port-EmitsRules, service_icmp-EmitsRules, dispatch_dnat-EmitsRules,
  dispatch_filter-EmitsRules, pod_masquerade-EmitsRules, outbound_masquerades-EmitsBlocks,
}
use kube_pet_node.Firewall.Config.Actions.{Action, ◌>>◌, skip, for_each, on_nft, on_rule, add_rule}
use kube_pet_node.Firewall.Config.Chains.{
  Node, protocol_test, forward_port, forward_icmp, chain_for, service_port, service_icmp,
  service_chain, dispatch_dnat, dispatch_filter, cluster_ip_chains, pod_masquerade, pod_masquerades,
  outbound_masquerades, basic_chain, dnat_chain_name, hook_chain,
}
use kube_pet_node.Firewall.Config.Emits.{
  EmitsRules, EmitsBlocks, Closes, >>-some, between, Fits, EmitsRules-skip, EmitsRules-rule,
  EmitsRules-bare, EmitsRules-seq, EmitsRules-for, Closes-seq_end, Closes-seq, Closes-seq_last,
  EmitsBlocks-on_pods, EmitsBlocks-chain, EmitsBlocks-skip, EmitsBlocks-seq, block_calls,
  block_text,
}
use kube_pet_node.Firewall.Config.{
  jump_hook, postrouting_hook, hook_chains, table_body, config_steps, build_config, written,
}
use kube_pet_node.Firewall.Ruleset.{
  Block, has_cluster_ip, port_rule, icmp_rule, block_for, note_service, port_rules, icmp_rules,
  service_blocks, local_pods, dnat_rules, filter_rules, pod_rules, outbound_rules, jump_block,
  postrouting_block, static_blocks, ruleset_of,
}

module _ (p : Platform) where
  block_for-EmitsBlocks :
      (node : Node) (svc : Service) (ep : Option Endpoints) (pods : Assoc Text)
      → EmitsBlocks p pods
          (note_service p node.node_name svc ep pods)
          (chain_for p node svc ep)
          (block_for p svc ep)
  unfolding chain_for block_for has_cluster_ip note_service Writer.start_basic_chain
  block_for-EmitsBlocks node svc none pods = EmitsBlocks-skip p pods
  block_for-EmitsBlocks node svc (some ep) pods = elim (Bool-cases (is_external svc)) [
    | inl external ↦ rw external (EmitsBlocks-skip p pods)
    | inr internal ↦ elim (Bool-cases (is_headless svc)) [
      | inl headless ↦ rw (internal, headless) (EmitsBlocks-skip p pods)
      | inr headed ↦
          rw (internal, headed)
            (let pods' : Assoc Text =
                note_local_pods node.node_name (service_key svc) ep.subsets pods in
              EmitsBlocks-on_pods p (note_local_pods node.node_name (service_key svc) ep.subsets)
                pods pods' _ _
                (EmitsBlocks-chain p pods' pods' (basic_chain (dnat_chain_name svc)) _ _ [] (
                  Closes-seq p pods' pods' _ _ _ _ []
                    (EmitsRules-for pods' _ _ (service_port-EmitsRules p pods' (service_key svc) ep)
                      svc.ports)
                    (Closes-seq_last p pods' _ _
                      (service_icmp-EmitsRules p pods' (service_key svc) ep)))))
    ]
  ]

  services-EmitsBlocks :
      (node : Node) (eps : Assoc Endpoints) (svcs : List Service) (pods : Assoc Text)
      → EmitsBlocks p pods
          (local_pods p node.node_name eps svcs pods)
          (for_each (service_chain p node eps) svcs)
          (flat_map (service_blocks p eps) svcs)
  unfolding for_each service_chain local_pods service_blocks
  services-EmitsBlocks node eps [] pods = EmitsBlocks-skip p pods
  services-EmitsBlocks node eps (svc ∷ svcs) pods =
      EmitsBlocks-seq p pods (note_service p node.node_name svc (lookup (service_key svc) eps) pods)
        _ _ _ _ _ (block_for-EmitsBlocks node svc (lookup (service_key svc) eps) pods)
        (services-EmitsBlocks node eps svcs _)

  cluster_ip_chains-EmitsBlocks :
      (svcs : List Service) (pods : Assoc Text)
      → EmitsBlocks p pods pods (cluster_ip_chains p svcs) (
          record {
            chain = basic_chain (str "cluster-ips-dnat");
            rules = flat_map (dnat_rules p) svcs;
          }
          ∷ record {
            chain = basic_chain (str "cluster-ips-filter");
            rules = flat_map (filter_rules p) svcs;
          }
          ∷ [])
  unfolding cluster_ip_chains
  cluster_ip_chains-EmitsBlocks svcs pods =
      EmitsBlocks-chain p pods pods (basic_chain (str "cluster-ips-dnat")) _ _ _ (
        Closes-seq_end p pods pods _ _ _ _
          (EmitsRules-for pods _ _ (dispatch_dnat-EmitsRules p pods) svcs)
          (EmitsBlocks-chain p pods pods (basic_chain (str "cluster-ips-filter")) _ _ [] (
            Closes-seq_last p pods _ _
              (EmitsRules-for pods _ _ (dispatch_filter-EmitsRules p pods) svcs))))

  pod_masquerades-EmitsBlocks :
      (order : List Text → List Text) (pods : Assoc Text)
      → Permᴰ (order (keys pods)) (keys pods)
      → EmitsBlocks p pods pods (pod_masquerades p order) (
          record {
            chain = basic_chain (str "cluster-ip-backing-pods-masq");
            rules = flat_map (pod_rules p pods) (sort_by (λ ip. ip) (keys pods));
          }
          ∷ [])
  unfolding pod_masquerades
  pod_masquerades-EmitsBlocks order pods perm =
      let sorted : List Text = sort_by (λ ip. ip) (order (keys pods)) in
      let same : sorted ≡ sort_by (λ ip. ip) (keys pods) =
        sort_by-perm (λ ip. ip) perm (λ a b _ _ e. e) in
      rw (← same) (record {
        at =
            (EmitsBlocks-chain p pods pods (basic_chain (str "cluster-ip-backing-pods-masq")) _ _ []
              (Closes-seq_last p pods _ _
                (EmitsRules-for pods _ _ (pod_masquerade-EmitsRules p pods) sorted))).at;
      })

  jump_hook-EmitsBlocks :
      (name chain_type : Text) (hook : Hooknum) (priority : Priority) (target : Text)
      (pods : Assoc Text)
      → EmitsBlocks p pods pods
          (jump_hook p name chain_type hook priority target)
          (jump_block p name chain_type hook priority target ∷ [])
  unfolding jump_hook jump_block Rule.jump_to_chain Rule.string
  jump_hook-EmitsBlocks name chain_type hook priority target pods =
      EmitsBlocks-chain p pods pods (hook_chain name chain_type hook priority) _ _ [] (
        Closes-seq_last p pods (on_rule (Rule.jump_to_chain target) >> add_rule) _
          (EmitsRules-bare pods (Rule.jump_to_chain target) refl))

  postrouting_hook-EmitsBlocks :
      (node : Node) (pods : Assoc Text)
      → EmitsBlocks p pods pods (postrouting_hook p node) (postrouting_block p node ∷ [])
  unfolding postrouting_hook postrouting_block Rule.jump_to_chain Rule.out_iface_name Rule.return
      Rule.go_to_chain Rule.is_ip_src_network Rule.counter Rule.masquerade Rule.string
  postrouting_hook-EmitsBlocks node pods =
      let to_pods : Rule.Builder = Rule.jump_to_chain (str "cluster-ip-backing-pods-masq") in
      let local : Rule.Builder = λ rb. Rule.return (Rule.out_iface_name (str "lo") rb) in
      let outbound : Rule.Builder = λ rb.
        Rule.go_to_chain (str "cluster-outbound-masq") (Rule.out_iface_name node.vpn_iface rb) in
      EmitsBlocks-chain p pods pods
        (hook_chain (str "hook-nat-postrouting") p.chain_type_nat Hooknum.post_routing
          Priority.nat_source)
        _ _ []
        (Closes-seq p pods pods (on_rule to_pods >> add_rule) _ _ _ []
          (EmitsRules-bare pods to_pods refl)
          (Closes-seq p pods pods (on_rule local >> add_rule) _ _ _ []
            (EmitsRules-bare pods local refl)
            (Closes-seq p pods pods (on_rule outbound >> add_rule) _ _ _ []
              (EmitsRules-bare pods outbound refl)
              (Closes-seq_last p pods _ _ (
                EmitsRules-for pods _ _
                  (λ net.
                    EmitsRules-rule pods
                      (λ rb. Rule.masquerade (Rule.counter (Rule.is_ip_src_network net rb)))
                      (str "From our Pod CNI") refl)
                  node.pod_nets)))))

  hook_chains-EmitsBlocks :
      (node : Node) (pods : Assoc Text)
      → EmitsBlocks p pods pods (hook_chains p node) (static_blocks p node)
  unfolding hook_chains static_blocks
  hook_chains-EmitsBlocks node pods =
      EmitsBlocks-seq p pods pods pods _ _ _ _ (jump_hook-EmitsBlocks _ _ _ _ _ pods) (
        EmitsBlocks-seq p pods pods pods _ _ _ _ (jump_hook-EmitsBlocks _ _ _ _ _ pods) (
          EmitsBlocks-seq p pods pods pods _ _ _ _ (jump_hook-EmitsBlocks _ _ _ _ _ pods) (
            EmitsBlocks-seq p pods pods pods _ _ _ _ (jump_hook-EmitsBlocks _ _ _ _ _ pods)
              (postrouting_hook-EmitsBlocks node pods))))

  table_body-EmitsBlocks :
      (order : List Text → List Text) (node : Node) (endpoints : List Endpoints)
      (services : List Service)
      → ((l : List Text) → Permᴰ (order l) l)
      → EmitsBlocks p []
          (local_pods p node.node_name (endpoint_map endpoints) (sort_services services) [])
          (table_body p order node endpoints services)
          (ruleset_of p node (endpoint_map endpoints) (sort_services services))
  unfolding table_body ruleset_of
  table_body-EmitsBlocks order node endpoints services perm =
      let eps : Assoc Endpoints = endpoint_map endpoints in
      let svcs : List Service = sort_services services in
      let pods : Assoc Text = local_pods p node.node_name eps svcs [] in
      EmitsBlocks-seq p [] pods pods _ _ _ _ (services-EmitsBlocks node eps svcs []) (
        EmitsBlocks-seq p pods pods pods _ _ _ _ (cluster_ip_chains-EmitsBlocks svcs pods) (
          EmitsBlocks-seq p pods pods pods _ _ _ _
            (pod_masquerades-EmitsBlocks order pods (perm (keys pods)))
            (EmitsBlocks-seq p pods pods pods _ _ _ _ (outbound_masquerades-EmitsBlocks p pods node)
              (hook_chains-EmitsBlocks node pods))))

  abbrev pub kube_pet_table : Table
  kube_pet_table = record { name = str "kube-pet" }

  -- The table is added, deleted and added again, so that what it held is gone.
  abbrev pub preamble : List NftCall
  preamble =
      NftCall.add_table kube_pet_table
      ∷ NftCall.del_table kube_pet_table
      ∷ NftCall.add_table kube_pet_table
      ∷ []

  abbrev pub preamble_text : Text
  preamble_text =
      ((str "table " ++ (str "ip" ++ (b' ' ∷ (str "kube-pet" ++ str "\n"))))
        ++ (str "delete table " ++ (str "kube-pet" ++ str "\n")))
      ++ (str "\ntable " ++ (str "ip" ++ (b' ' ∷ (str "kube-pet" ++ str " {"))))

  -- The writer that holds exactly the chains, with no open table and chain.
  unfoldable pub writer_of : List Block → NftWriter
  writer_of bs = record {
    conn = preamble ++ flat_map (block_calls p kube_pet_table) bs;
    text = (preamble_text ++ flat_map (block_text p kube_pet_table) bs) ++ str "}\n";
    table = none;
    chain = none;
  }

  -- From a new writer `BuildConfig` never panics, returns no error, and leaves the calls and the
  -- text of the rule set for the sorted services, in whatever order Go ranges over the map of pods.
  pub build_config-ruleset :
      (order : List Text → List Text) (node : Node) (endpoints : List Endpoints)
      (services : List Service)
      → ((l : List Text) → Permᴰ (order l) l)
      → build_config p order node (some endpoints) (some services) new_nft_writer
        ≡ some
            (writer_of (ruleset_of p node (endpoint_map endpoints) (sort_services services)), true)
  unfolding build_config config_steps writer_of Writer.start_table_replacement Writer.end_table
  build_config-ruleset order node endpoints services perm = ap (written p) (
      >>-some (table_body p order node endpoints services) (on_nft Writer.end_table)
        (between preamble preamble_text kube_pet_table [])
        ((table_body-EmitsBlocks order node endpoints services perm).at preamble preamble_text
          kube_pet_table))
