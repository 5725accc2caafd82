-- ===== src/Firewall/Ruleset/Closed.antt =====
-- Whether the rules of the whole rule set send packets only to chains that it declares.
use kube_pet_node.Prelude.{
  List, [], ◌∷◌, ◌++◌, Option, none, some, ◌≡◌, ◌≢◌, refl, flat_map, true, inl, inr, Bool-cases,
  All,
}
use kube_pet_node.Prelude.Text.{Text, str}
use kube_pet_node.Prelude.Assoc.{Assoc, lookup}
use kube_pet_node.Firewall.Platform.{Platform, IpNet}
use kube_pet_node.Firewall.Rule
use kube_pet_node.Firewall.Cluster.{Service, Endpoints}
use kube_pet_node.Firewall.Config.Lookup.{service_key}
use kube_pet_node.Firewall.Config.Chains.{Node, dnat_chain_name}
use kube_pet_node.Firewall.Ruleset.{
  RuleEntry, Block, has_cluster_ip, block_for, service_blocks, local_pods, dnat_rules,
  outbound_rules, jump_block, postrouting_block, static_blocks, ruleset_of, rule_of,
}
use kube_pet_node.Firewall.Ruleset.References.{
  Has, jumps, expr_jumps, block_jumps, IsClosed, HasEndpoints, block_jumps-append, port_rules-jumps,
  icmp_rules-jumps, filter_all-jumps, pod_all-jumps, dnat_rules-jumps, declared, Has-declared,
  declared-append, IsClosed-append,
}

All-map : (P Q : Text → Type 0) → ((n : Text) → P n → Q n) → (l : List Text) → All P l → All Q l
All-map P Q f [] h = tt
All-map P Q f (x ∷ xs) (h, hs) = (f x h, All-map P Q f xs hs)

All-append : (P : Text → Type 0) (l m : List Text) → All P l → All P m → All P (l ++ m)
All-append P [] m h k = k
All-append P (x ∷ xs) m (h, hs) k = (h, All-append P xs m hs k)

module _ (p : Platform) (eps : Assoc Endpoints) where
  block_for-IsClosed :
      (svc : Service) (ep : Option Endpoints) (seen : List Text)
      → IsClosed seen (block_for p svc ep)
  unfolding block_for
  block_for-IsClosed svc none seen = tt
  block_for-IsClosed svc (some ep) seen = elim (Bool-cases (has_cluster_ip svc)) [
    | inl e ↦ rw e (
        rw (block_jumps-append, port_rules-jumps p _ ep svc.ports, icmp_rules-jumps p _ ep)
          (tt, tt))
    | inr e ↦ rw e tt
  ]

  service_blocks-IsClosed :
      (svcs : List Service) (seen : List Text)
      → IsClosed seen (flat_map (service_blocks p eps) svcs)
  unfolding service_blocks
  service_blocks-IsClosed [] seen = tt
  service_blocks-IsClosed (svc ∷ svcs) seen =
      IsClosed-append (block_for p svc (lookup (service_key svc) eps)) _ seen
        (block_for-IsClosed svc _ seen) (service_blocks-IsClosed svcs _)

  block_for-Has :
      (svc : Service) (ep : Option Endpoints) (seen : List Text)
      → has_cluster_ip svc ≡ true
      → ep ≢ none
      → Has (dnat_chain_name svc) (declared (block_for p svc ep) seen)
  unfolding block_for
  block_for-Has svc none seen e h = absurd (h refl)
  block_for-Has svc (some ep) seen e h = rw e (inl refl)

  dnat-Has :
      (svcs : List Service) (seen : List Text)
      → HasEndpoints eps svcs
      → All
          (λ n. Has n (declared (flat_map (service_blocks p eps) svcs) seen))
          (block_jumps (flat_map (dnat_rules p) svcs))
  unfolding service_blocks
  dnat-Has [] seen h = unfold block_jumps in tt
  dnat-Has (svc ∷ svcs) seen (h, hs) =
      let own : List Block = block_for p svc (lookup (service_key svc) eps) in
      rw (block_jumps-append, declared-append own)
        (All-append _ (block_jumps (dnat_rules p svc)) _
          (rw (dnat_rules-jumps p svc) (elim (Bool-cases (has_cluster_ip svc)) [
            | inl e ↦ rw e (
              Has-declared (dnat_chain_name svc) (flat_map (service_blocks p eps) svcs) _
                  (block_for-Has svc _ seen e (h e)),
              tt,
            )
            | inr e ↦ rw e tt
          ]))
          (dnat-Has svcs (declared own seen) hs))

  -- The rules for the pod networks jump nowhere.
  masquerades-jumps :
      (nets : List IpNet)
      → block_jumps (
          flat_map
            (λ net.
              rule_of
                (λ rb. Rule.masquerade (Rule.counter (Rule.is_ip_src_network net rb)))
                (some (str "From our Pod CNI"))
              ∷ [])
            nets)
        ≡ []
  unfolding block_jumps expr_jumps Rule.masquerade Rule.counter Rule.is_ip_src_network
  masquerades-jumps [] = refl
  masquerades-jumps (net ∷ nets) = masquerades-jumps nets

  static-IsClosed :
      (node : Node) (rest : List Text)
      → IsClosed
          (str "cluster-outbound-masq"
            ∷ str "cluster-ip-backing-pods-masq"
            ∷ str "cluster-ips-filter"
            ∷ str "cluster-ips-dnat"
            ∷ rest)
          (static_blocks p node)
  unfolding static_blocks jump_block postrouting_block block_jumps expr_jumps Rule.jump_to_chain
      Rule.return Rule.out_iface_name Rule.go_to_chain
  static-IsClosed node rest = (
    (inr (inr (inr (inl refl))), tt),
    (
      (inr (inr (inr (inr (inl refl)))), tt),
      (
        (inr (inr (inr (inr (inr (inr (inl refl)))))), tt),
        (
          (inr (inr (inr (inr (inr (inr (inr (inl refl))))))), tt),
          (
            (
              inr (inr (inr (inr (inr (inr (inl refl)))))),
              (inr (inr (inr (inr (inr (inl refl))))), rw (masquerades-jumps node.pod_nets) tt),
            ),
            tt,
          ),
        ),
      ),
    ),
  )

  outbound_rules-jumps : (node : Node) → block_jumps (outbound_rules p node) ≡ []
  unfolding outbound_rules block_jumps expr_jumps Rule.return Rule.is_ip_src_address Rule.masquerade
      Rule.counter Rule.is_ip_src_network
  outbound_rules-jumps node = go node.pod_nets
    where
      go :
          (nets : List IpNet)
          → flat_map
              (λ (r : RuleEntry). jumps r.exprs)
              (flat_map
                  (λ net.
                    rule_of
                      (λ rb. Rule.return (Rule.is_ip_src_network net rb))
                      (some (str "From our Pod CNI"))
                    ∷ [])
                  nets
                ++ rule_of
                    (λ rb. Rule.masquerade (Rule.counter rb))
                    (some (str "Foreign traffic from us to the cluster"))
                  ∷ [])
            ≡ []
      go [] = refl
      go (net ∷ nets) = go nets

  -- If every service with a cluster IP has an Endpoints object, every rule sends packets only to
  -- chains that are declared before it or hold it.
  pub ruleset_of-IsClosed :
      (node : Node) (svcs : List Service)
      → HasEndpoints eps svcs
      → IsClosed [] (ruleset_of p node eps svcs)
  unfolding ruleset_of
  ruleset_of-IsClosed node svcs h =
      IsClosed-append (flat_map (service_blocks p eps) svcs) _ [] (service_blocks-IsClosed svcs [])
        (
          All-map _ _ (λ n k. inr k) _ (dnat-Has svcs [] h),
          (
            rw (filter_all-jumps p svcs) tt,
            (
              rw (pod_all-jumps p (local_pods p node.node_name eps svcs []) _) tt,
              (rw (outbound_rules-jumps node) tt, static-IsClosed node _),
            ),
          ),
        )
