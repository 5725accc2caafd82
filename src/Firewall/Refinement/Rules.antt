-- ===== src/Firewall/Refinement/Rules.antt =====
-- The rules that the steps of `BuildConfig` (controllers/firewall/firewall-rules.go) write.
use kube_pet_node.Prelude.{
  ℕ, ◌%◌, List, [], ◌∷◌, ◌++◌, Option, none, some, ◌≡◌, refl, drop, Bool-cases, inl, inr, head?,
}
use kube_pet_node.Prelude.Text.{Text, str}
use kube_pet_node.Prelude.Assoc.{Assoc}
use kube_pet_node.Firewall.Platform.{Platform}
use kube_pet_node.Firewall.Expr.{Expr}
use kube_pet_node.Firewall.Rule
use kube_pet_node.Firewall.Rule.{new_rule_builder}
use kube_pet_node.Firewall.Cluster.{ServicePort, Service, Endpoints}
use kube_pet_node.Firewall.Config.Lookup.{
  service_key, is_external, is_headless, healthy_addrs, targets, port_name,
}
use kube_pet_node.Firewall.Config.Actions.{◌>>◌, on_rule, add_rule_with_comment}
use kube_pet_node.Firewall.Config.Chains.{
  Node, protocol_test, forward_port, forward_icmp, service_port, service_icmp, dispatch_dnat,
  dispatch_filter, pod_masquerade, outbound_masquerades, dnat_chain_name, served_by, basic_chain,
}
use kube_pet_node.Firewall.Config.Emits.{
  EmitsRules, EmitsBlocks, EmitsRules-skip, EmitsRules-rule, EmitsRules-for, Closes-seq,
  Closes-seq_last, EmitsBlocks-chain,
}
use kube_pet_node.Firewall.Ruleset.{
  has_cluster_ip, port_rule, icmp_rule, port_rules, icmp_rules, dnat_rules, rule_of, filter_rules,
  pod_rules, outbound_rules,
}

-- Whatever protocol was written before it, the test of the port leaves text in the builder.
port_text :
    (p : Platform) (port port' : ℕ) (ip t : Text) (es : List Expr)
    → let rb : Rule.RuleBuilder =
        Rule.translate_ipv4_destination p ip port'
          (Rule.counter (Rule.is_dest_port port (record { text = t; exprs = es }))) in
      Rule.string rb ≡ some (drop 1 rb.text)
unfolding Rule.string Rule.translate_ipv4_destination Rule.counter Rule.is_dest_port
port_text p port port' ip [] es = refl
port_text p port port' ip (c ∷ t) es = refl

module _ (p : Platform) where
  forward_port-EmitsRules :
      (pods : Assoc Text) (key : Text) (port : ServicePort) (target : Option (Text × ℕ))
      → EmitsRules pods (forward_port p key port target) (port_rule p key port target)
  unfolding forward_port port_rule Rule.reset
  forward_port-EmitsRules pods key port none = EmitsRules-skip pods
  forward_port-EmitsRules pods key port (some (ip, t)) =
      let first : Rule.RuleBuilder = protocol_test p port.protocol new_rule_builder in
      EmitsRules-rule pods
        (λ rb. Rule.translate_ipv4_destination p ip t (
          Rule.counter (
            Rule.is_dest_port (port.port % 65536) (protocol_test p port.protocol (Rule.reset rb)))))
        (key ++ (b':' ∷ port_name port))
        (port_text p (port.port % 65536) t ip first.text first.exprs)

  forward_icmp-EmitsRules :
      (pods : Assoc Text) (key : Text) (ip : Option Text)
      → EmitsRules pods (forward_icmp p key ip) (icmp_rule p key ip)
  unfolding forward_icmp icmp_rule Rule.reset
  forward_icmp-EmitsRules pods key none = EmitsRules-skip pods
  forward_icmp-EmitsRules pods key (some ip) =
      EmitsRules-rule pods
        (λ rb. Rule.translate_ipv4_address p ip (Rule.counter (Rule.is_icmp p (Rule.reset rb))))
        (key ++ str " ICMP")
        (unfold Rule.translate_ipv4_address Rule.counter Rule.is_icmp Rule.is_ip_protocol
            Rule.string in
          refl)

  pub service_port-EmitsRules :
      (pods : Assoc Text) (key : Text) (ep : Endpoints) (port : ServicePort)
      → EmitsRules pods (service_port p key ep port) (port_rules p key ep port)
  unfolding service_port port_rules
  service_port-EmitsRules pods key ep port =
      forward_port-EmitsRules pods key port (head? (targets port.name ep.subsets))

  pub service_icmp-EmitsRules :
      (pods : Assoc Text) (key : Text) (ep : Endpoints)
      → EmitsRules pods (service_icmp p key ep) (icmp_rules p key ep)
  unfolding service_icmp icmp_rules
  service_icmp-EmitsRules pods key ep =
      forward_icmp-EmitsRules pods key (head? (healthy_addrs ep.subsets))

  pub dispatch_dnat-EmitsRules :
      (pods : Assoc Text) (svc : Service) → EmitsRules pods (dispatch_dnat p svc) (dnat_rules p svc)
  unfolding dispatch_dnat dnat_rules has_cluster_ip Rule.reset
  dispatch_dnat-EmitsRules pods svc = elim (Bool-cases (is_external svc)) [
    | inl external ↦ rw external (EmitsRules-skip pods)
    | inr internal ↦ elim (Bool-cases (is_headless svc)) [
      | inl headless ↦ rw (internal, headless) (EmitsRules-skip pods)
      | inr headed ↦
          rw (internal, headed)
            (EmitsRules-rule pods
              (λ rb.
                Rule.go_to_chain (dnat_chain_name svc)
                  (Rule.is_ip_dest_address p svc.cluster_ip (Rule.reset rb)))
              (service_key svc)
              (unfold Rule.go_to_chain Rule.is_ip_dest_address Rule.string in refl))
    ]
  ]

  pub dispatch_filter-EmitsRules :
      (pods : Assoc Text) (svc : Service)
      → EmitsRules pods (dispatch_filter p svc) (filter_rules p svc)
  unfolding dispatch_filter filter_rules has_cluster_ip Rule.reset
  dispatch_filter-EmitsRules pods svc = elim (Bool-cases (is_external svc)) [
    | inl external ↦ rw external (EmitsRules-skip pods)
    | inr internal ↦ elim (Bool-cases (is_headless svc)) [
      | inl headless ↦ rw (internal, headless) (EmitsRules-skip pods)
      | inr headed ↦
          rw (internal, headed)
            (EmitsRules-rule pods
              (λ rb.
                Rule.reject_as_port_unreachable
                  (Rule.counter (Rule.is_ip_dest_address p svc.cluster_ip (Rule.reset rb))))
              (service_key svc)
              (unfold Rule.reject_as_port_unreachable Rule.counter Rule.is_ip_dest_address
                  Rule.string in
                refl))
    ]
  ]

  pub pod_masquerade-EmitsRules :
      (pods : Assoc Text) (ip : Text) → EmitsRules pods (pod_masquerade p ip) (pod_rules p pods ip)
  unfolding pod_masquerade pod_rules Rule.reset
  pod_masquerade-EmitsRules pods ip = record {
    at =
        (EmitsRules-rule pods
          (λ rb. Rule.masquerade (
            Rule.counter
              (Rule.is_ip_dest_address p ip (Rule.is_ip_src_address_str p ip (Rule.reset rb)))))
          (str "For " ++ served_by p pods ip)
          (unfold Rule.masquerade Rule.counter Rule.is_ip_dest_address Rule.is_ip_src_address_str
              Rule.is_ip_src_address Rule.string in
            refl)).at;
  }

  pub outbound_masquerades-EmitsBlocks :
      (pods : Assoc Text) (node : Node)
      → EmitsBlocks p pods pods (outbound_masquerades p node) (
          record {
            chain = basic_chain (str "cluster-outbound-masq");
            rules = outbound_rules p node;
          }
          ∷ [])
  unfolding outbound_masquerades outbound_rules Rule.is_ip_src_address Rule.return
      Rule.is_ip_src_network Rule.counter Rule.masquerade Rule.string
  outbound_masquerades-EmitsBlocks pods node =
      EmitsBlocks-chain p pods pods (basic_chain (str "cluster-outbound-masq")) _ _ [] (
        Closes-seq p pods pods
          (on_rule (λ rb. Rule.return (Rule.is_ip_src_address node.node_ip rb))
            >> add_rule_with_comment (str "From our Node IP"))
          _
          (rule_of (λ rb. Rule.return (Rule.is_ip_src_address node.node_ip rb))
              (some (str "From our Node IP"))
            ∷ [])
          _ []
          (EmitsRules-rule pods (λ rb. Rule.return (Rule.is_ip_src_address node.node_ip rb))
            (str "From our Node IP") refl)
          (Closes-seq p pods pods _ _ _ _ []
            (EmitsRules-for pods _
              (λ net.
                rule_of (λ rb. Rule.return (Rule.is_ip_src_network net rb))
                  (some (str "From our Pod CNI"))
                ∷ [])
              (λ net.
                EmitsRules-rule pods (λ rb. Rule.return (Rule.is_ip_src_network net rb))
                  (str "From our Pod CNI") refl)
              node.pod_nets)
            (Closes-seq_last p pods
              (on_rule (λ rb. Rule.masquerade (Rule.counter rb))
                >> add_rule_with_comment (str "Foreign traffic from us to the cluster"))
              _
              (EmitsRules-rule pods (λ rb. Rule.masquerade (Rule.counter rb))
                (str "Foreign traffic from us to the cluster") refl))))
