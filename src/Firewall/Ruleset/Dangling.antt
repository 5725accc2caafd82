-- ===== src/Firewall/Ruleset/Dangling.antt =====
-- A service with a cluster IP and no Endpoints object makes a rule go to a chain that does not exist.
use kube_pet_node.Prelude.{
  List, [], ◌∷◌, ◌++◌, Option, none, some, ◌≡◌, ◌≢◌, sym, flat_map, arith, true, inl, inr,
  Bool-cases, All, if◌then◌else◌,
}
use mathlib.Core.List.{Memᴰ}
use mathlib.Core.List.{append_cancel_left, append_cancel_right}
use kube_pet_node.Prelude.Text.{Text, str}
use kube_pet_node.Prelude.Assoc.{Assoc, lookup}
use kube_pet_node.Firewall.Platform.{Platform}
use kube_pet_node.Firewall.Cluster.{Service, Endpoints}
use kube_pet_node.Firewall.Config.Lookup.{service_key}
use kube_pet_node.Firewall.Config.Chains.{Node, dnat_chain_name}
use kube_pet_node.Firewall.Ruleset.{
  has_cluster_ip, block_for, service_blocks, dnat_rules, ruleset_of,
}
use kube_pet_node.Firewall.Ruleset.References.{
  Has, block_jumps, IsClosed, block_jumps-append, dnat_rules-jumps, declared, declared-append,
  IsClosed-rest,
}

dnat_chain_name-injective : (a b : Service) → dnat_chain_name a ≡ dnat_chain_name b → a.uid ≡ b.uid
unfolding dnat_chain_name
dnat_chain_name-injective a b e =
    append_cancel_right _ _ (str "-dnat") (append_cancel_left (str "svc-") _ _ e)

dnat_chain_name-ne : (a : Service) → dnat_chain_name a ≢ str "cluster-ips-dnat"
unfolding dnat_chain_name str
dnat_chain_name-ne a e = ground arith

All-split : (P : Text → Type 0) (l m : List Text) → All P (l ++ m) → All P l × All P m
All-split P [] m h = (tt, h)
All-split P (x ∷ xs) m (h, hs) = let (k, r) = All-split P xs m hs in ((h, k), r)

module _ (p : Platform) (eps : Assoc Endpoints) (svc : Service) where
  -- No other service that has endpoints shares the uid.
  abbrev pub OwnUid : List Service → Type 0
  OwnUid [] = Unit
  OwnUid (s ∷ ss) = (lookup (service_key s) eps ≢ none → s.uid ≢ svc.uid) × OwnUid ss

  block_for-not-Has :
      (s : Service) (ep : Option Endpoints) (seen : List Text)
      → (ep ≢ none → s.uid ≢ svc.uid)
      → Has (dnat_chain_name svc) (declared (block_for p s ep) seen)
      → Has (dnat_chain_name svc) seen
  unfolding block_for
  block_for-not-Has s none seen other h = h
  block_for-not-Has s (some ep) seen other h = elim (Bool-cases (has_cluster_ip s)) [
    | inl e ↦ elim (rw e at h) [
      | inl same ↦ absurd (other (λ k. cc) (sym (dnat_chain_name-injective svc s same)))
      | inr old ↦ old
    ]
    | inr e ↦ rw e at h
  ]

  blocks-not-Has :
      (svcs : List Service) (seen : List Text)
      → OwnUid svcs
      → Has (dnat_chain_name svc) (declared (flat_map (service_blocks p eps) svcs) seen)
      → Has (dnat_chain_name svc) seen
  unfolding service_blocks
  blocks-not-Has [] seen own h = h
  blocks-not-Has (s ∷ ss) seen (other, own) h =
      block_for-not-Has s (lookup (service_key s) eps) seen other (
        blocks-not-Has ss _ own
          (rw (declared-append (block_for p s (lookup (service_key s) eps))) at h))

  -- The rules of the dispatching chain send to the chain of every listed service.
  dnat-All :
      (P : Text → Type 0) (svcs : List Service)
      → Memᴰ svc svcs
      → has_cluster_ip svc ≡ true
      → All P (block_jumps (flat_map (dnat_rules p) svcs))
      → P (dnat_chain_name svc)
  dnat-All P [] m e h = elim m [ ]
  dnat-All P (s ∷ ss) (Memᴰ.head same) e h =
      let here =
        All-split P (block_jumps (dnat_rules p s)) _
          (rw (block_jumps-append (dnat_rules p s)) at h) in
      let at_svc : All P (block_jumps (dnat_rules p svc)) = rw same here.0 in
      let found : All P (if has_cluster_ip svc then dnat_chain_name svc ∷ [] else []) =
        rw (dnat_rules-jumps p svc) at at_svc in
      (rw e at found).0
  dnat-All P (s ∷ ss) (Memᴰ.tail m) e h =
      dnat-All P ss m e
        (All-split P (block_jumps (dnat_rules p s)) _
          (rw (block_jumps-append (dnat_rules p s)) at h)).1

  -- If a listed service with a cluster IP has no Endpoints object, and no service that has one
  -- shares its uid, then some rule goes to a chain that the rule set does not declare before it.
  pub ruleset_of-not-IsClosed :
      (node : Node) (svcs : List Service)
      → Memᴰ svc svcs
      → has_cluster_ip svc ≡ true
      → OwnUid svcs
      → ¬ IsClosed [] (ruleset_of p node eps svcs)
  unfolding ruleset_of
  ruleset_of-not-IsClosed node svcs m e own h =
      let (sent, rest) = IsClosed-rest (flat_map (service_blocks p eps) svcs) _ [] h in
      elim (dnat-All _ svcs m e sent) [
        | inl same ↦ dnat_chain_name-ne svc same
        | inr old ↦ blocks-not-Has svcs [] own old
      ]
