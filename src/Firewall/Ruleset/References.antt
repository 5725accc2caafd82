-- ===== src/Firewall/Ruleset/References.antt =====
-- The chains that the rules of a rule set send packets to.
use kube_pet_node.Prelude.{
  ℕ, List, [], ◌∷◌, ◌++◌, Option, none, some, ◌≡◌, ◌≢◌, refl, flat_map, flat_map-append, append-nil,
  arith, true, ◌⊎◌, inl, inr, Bool-cases, All, if◌then◌else◌, head?,
}
use kube_pet_node.Prelude.Text.{Text}
use kube_pet_node.Prelude.Assoc.{Assoc, lookup}
use kube_pet_node.Firewall.Platform.{Platform}
use kube_pet_node.Firewall.Expr.{Expr, VerdictKind}
use kube_pet_node.Firewall.Rule
use kube_pet_node.Firewall.Cluster.{ServicePort, Service, Endpoints}
use kube_pet_node.Firewall.Config.Lookup.{service_key, healthy_addrs}
use kube_pet_node.Firewall.Config.Chains.{dnat_chain_name, protocol_test}
use kube_pet_node.Firewall.Ruleset.{
  RuleEntry, Block, has_cluster_ip, port_rule, port_rules, icmp_rule, icmp_rules, dnat_rules,
  filter_rules, pod_rules,
}

-- The text stands in the list.
abbrev pub Has : Text → List Text → Type 0
Has n [] = ⊥
Has n (x ∷ xs) = (n ≡ x) ⊎ Has n xs

-- The chain that an expression jumps or goes to.
unfoldable pub expr_jumps : Expr → List Text
expr_jumps (Expr.verdict VerdictKind.jump chain) = chain ∷ []
expr_jumps (Expr.verdict VerdictKind.goto chain) = chain ∷ []
expr_jumps _ = []

abbrev pub jumps : List Expr → List Text
jumps = flat_map expr_jumps

unfoldable pub block_jumps : List RuleEntry → List Text
block_jumps = flat_map (λ (r : RuleEntry). jumps r.exprs)

-- Every rule sends packets only to its own chain or to chains declared above it, among `seen`.
abbrev pub IsClosed : List Text → List Block → Type 0
IsClosed seen [] = Unit
IsClosed seen (b ∷ bs) =
    All (λ n. Has n (b.chain.name ∷ seen)) (block_jumps b.rules) × IsClosed (b.chain.name ∷ seen) bs

-- Every service with a cluster IP has an Endpoints object.
abbrev pub HasEndpoints : Assoc Endpoints → List Service → Type 0
HasEndpoints eps [] = Unit
HasEndpoints eps (svc ∷ svcs) =
    (has_cluster_ip svc ≡ true → lookup (service_key svc) eps ≢ none) × HasEndpoints eps svcs

pub block_jumps-append :
    (rs ss : List RuleEntry) → block_jumps (rs ++ ss) ≡ block_jumps rs ++ block_jumps ss
unfolding block_jumps
block_jumps-append rs ss = flat_map-append (λ (r : RuleEntry). jumps r.exprs) rs ss

module _ (p : Platform) where
  protocol_test-jumps :
      (protocol : Text) → jumps (protocol_test p protocol Rule.new_rule_builder).exprs ≡ []
  unfolding protocol_test expr_jumps Rule.is_tcp Rule.is_udp Rule.is_sctp Rule.is_l4_proto
  protocol_test-jumps protocol = ground arith

  port_rule-jumps :
      (key : Text) (port : ServicePort) (target : Option (Text × ℕ))
      → block_jumps (port_rule p key port target) ≡ []
  unfolding block_jumps port_rule expr_jumps Rule.translate_ipv4_destination Rule.counter
      Rule.is_dest_port
  port_rule-jumps key port none = refl
  port_rule-jumps key port (some (ip, t)) = simp (flat_map-append, append-nil, protocol_test-jumps)

  icmp_rule-jumps : (key : Text) (ip : Option Text) → block_jumps (icmp_rule p key ip) ≡ []
  unfolding block_jumps icmp_rule expr_jumps Rule.translate_ipv4_address Rule.counter Rule.is_icmp
      Rule.is_ip_protocol
  icmp_rule-jumps key none = refl
  icmp_rule-jumps key (some ip) = refl

  filter_rules-jumps : (svc : Service) → block_jumps (filter_rules p svc) ≡ []
  unfolding block_jumps filter_rules expr_jumps Rule.reject_as_port_unreachable Rule.counter
      Rule.is_ip_dest_address
  filter_rules-jumps svc = elim (Bool-cases (has_cluster_ip svc)) [ inl e ↦ rw e | inr e ↦ rw e ]

  pod_rules-jumps : (pods : Assoc Text) (ip : Text) → block_jumps (pod_rules p pods ip) ≡ []
  unfolding block_jumps pod_rules expr_jumps Rule.masquerade Rule.counter Rule.is_ip_dest_address
      Rule.is_ip_src_address_str Rule.is_ip_src_address
  pod_rules-jumps pods ip = refl

  pub dnat_rules-jumps :
      (svc : Service)
      → block_jumps (dnat_rules p svc)
        ≡ (if has_cluster_ip svc then dnat_chain_name svc ∷ [] else [])
  unfolding block_jumps dnat_rules expr_jumps Rule.go_to_chain Rule.is_ip_dest_address
  dnat_rules-jumps svc = elim (Bool-cases (has_cluster_ip svc)) [ inl e ↦ rw e | inr e ↦ rw e ]

  pub port_rules-jumps :
      (key : Text) (ep : Endpoints) (ports : List ServicePort)
      → block_jumps (flat_map (port_rules p key ep) ports) ≡ []
  unfolding port_rules
  port_rules-jumps key ep [] = unfold block_jumps in refl
  port_rules-jumps key ep (port ∷ ports) =
      simp (block_jumps-append, port_rule-jumps, port_rules-jumps key ep ports)

  pub icmp_rules-jumps : (key : Text) (ep : Endpoints) → block_jumps (icmp_rules p key ep) ≡ []
  unfolding icmp_rules
  icmp_rules-jumps key ep = icmp_rule-jumps key (head? (healthy_addrs ep.subsets))

  pub filter_all-jumps : (svcs : List Service) → block_jumps (flat_map (filter_rules p) svcs) ≡ []
  filter_all-jumps [] = unfold block_jumps in refl
  filter_all-jumps (svc ∷ svcs) =
      simp (block_jumps-append, filter_rules-jumps, filter_all-jumps svcs)

  pub pod_all-jumps :
      (pods : Assoc Text) (ips : List Text) → block_jumps (flat_map (pod_rules p pods) ips) ≡ []
  pod_all-jumps pods [] = unfold block_jumps in refl
  pod_all-jumps pods (ip ∷ ips) = simp (block_jumps-append, pod_rules-jumps, pod_all-jumps pods ips)

-- The names of chains declared by `bs` on top of `seen`.
abbrev pub declared : List Block → List Text → List Text
declared [] seen = seen
declared (b ∷ bs) seen = declared bs (b.chain.name ∷ seen)

pub Has-declared :
    (n : Text) (bs : List Block) (seen : List Text) → Has n seen → Has n (declared bs seen)
Has-declared n [] seen h = h
Has-declared n (b ∷ bs) seen h = Has-declared n bs (b.chain.name ∷ seen) (inr h)

pub declared-append :
    (bs cs : List Block) (seen : List Text)
    → declared (bs ++ cs) seen ≡ declared cs (declared bs seen)
declared-append [] cs seen = refl
declared-append (b ∷ bs) cs seen = declared-append bs cs (b.chain.name ∷ seen)

pub IsClosed-append :
    (bs cs : List Block) (seen : List Text)
    → IsClosed seen bs
    → IsClosed (declared bs seen) cs
    → IsClosed seen (bs ++ cs)
IsClosed-append [] cs seen h k = k
IsClosed-append (b ∷ bs) cs seen (j, h) k = (j, IsClosed-append bs cs (b.chain.name ∷ seen) h k)

pub IsClosed-rest :
    (bs cs : List Block) (seen : List Text)
    → IsClosed seen (bs ++ cs)
    → IsClosed (declared bs seen) cs
IsClosed-rest [] cs seen h = h
IsClosed-rest (b ∷ bs) cs seen (j, h) = IsClosed-rest bs cs (b.chain.name ∷ seen) h
