-- ===== src/Firewall/Ruleset/Order.antt =====
-- The rule set does not depend on the order in which the informers list the objects.
use kube_pet_node.Prelude.{List, [], ◌∷◌, ◌≡◌, refl, sym, ◌∙◌, flat_map, arith}
use mathlib.Core.List.{Permᴰ}
use mathlib.Core.List.{Memᴰ}
use kube_pet_node.Prelude.Text.{Text, text_eq_iff}
use kube_pet_node.Prelude.Assoc.{Assoc, lookup, insert, lookup-insert}
use kube_pet_node.Prelude.Order.{Separates, Separates-tail, Separates-perm, sort_by-perm}
use kube_pet_node.Firewall.Platform.{Platform}
use kube_pet_node.Firewall.Cluster.{Service, Endpoints}
use kube_pet_node.Firewall.Config.Lookup.{
  service_key, endpoints_key, endpoint_map_from, endpoint_map, sort_services,
}
use kube_pet_node.Firewall.Config.Chains.{Node}
use kube_pet_node.Firewall.Ruleset.{service_blocks, local_pods, ruleset_of}

-- The maps answer every lookup alike.
pub record SameLookup (m n : Assoc Endpoints) : Type 0 where
  pub at : (k : Text) → lookup k m ≡ lookup k n

SameLookup-insert :
    (k : Text) (ep : Endpoints) {m n : Assoc Endpoints}
    → SameLookup m n
    → SameLookup (insert k ep m) (insert k ep n)
SameLookup-insert k ep {m} {n} h = record {
  at = λ j. lookup-insert k j ep m ∙ rw (h.at j) (sym (lookup-insert k j ep n));
}

SameLookup-from :
    (eps : List Endpoints) {m n : Assoc Endpoints}
    → SameLookup m n
    → SameLookup (endpoint_map_from m eps) (endpoint_map_from n eps)
unfolding endpoint_map_from
SameLookup-from [] h = h
SameLookup-from (ep ∷ eps) h = SameLookup-from eps (SameLookup-insert (endpoints_key ep) ep h)

SameLookup-swap :
    (a b : Endpoints) (m : Assoc Endpoints)
    → (endpoints_key a ≡ endpoints_key b → a ≡ b)
    → SameLookup
        (insert (endpoints_key b) b (insert (endpoints_key a) a m))
        (insert (endpoints_key a) a (insert (endpoints_key b) b m))
SameLookup-swap a b m same = record {
  at = λ k.
      simp lookup-insert
        (ground (arith, text_eq_iff (endpoints_key a) k, text_eq_iff (endpoints_key b) k, same));
}

endpoint_map_from-perm :
    {l₁ l₂ : List Endpoints} (m : Assoc Endpoints)
    → Permᴰ l₁ l₂
    → Separates endpoints_key l₁
    → SameLookup (endpoint_map_from m l₁) (endpoint_map_from m l₂)
unfolding endpoint_map_from
endpoint_map_from-perm m Permᴰ.nil s = record { at = λ k. refl }
endpoint_map_from-perm m (Permᴰ.cons {a = a} {b = b} {l₁ = l₁} e d) s =
    rw (← e) (
      endpoint_map_from-perm (insert (endpoints_key a) a m) d (Separates-tail endpoints_key a l₁ s))
endpoint_map_from-perm m (Permᴰ.swap {a = a} {b = b} {l = l} e₁ e₂) s =
    rw (← e₁, ← e₂)
      (SameLookup-from l
        (SameLookup-swap a b m (s a b (Memᴰ.head refl) (Memᴰ.tail (Memᴰ.head refl)))))
endpoint_map_from-perm m (Permᴰ.trans d₁ d₂) s =
    let first = endpoint_map_from-perm m d₁ s in
    let second = endpoint_map_from-perm m d₂ (Separates-perm endpoints_key d₁ s) in
    record { at = λ k. first.at k ∙ second.at k }

module _ (p : Platform) (m n : Assoc Endpoints) (same : SameLookup m n) where
  service_blocks_same :
      (svcs : List Service)
      → flat_map (service_blocks p m) svcs ≡ flat_map (service_blocks p n) svcs
  unfolding service_blocks
  service_blocks_same [] = refl
  service_blocks_same (svc ∷ svcs) = rw (same.at (service_key svc), service_blocks_same svcs)

  local_pods_same :
      (node : Text) (svcs : List Service) (pods : Assoc Text)
      → local_pods p node m svcs pods ≡ local_pods p node n svcs pods
  unfolding local_pods
  local_pods_same node [] pods = refl
  local_pods_same node (svc ∷ svcs) pods =
      rw (same.at (service_key svc)) (local_pods_same node svcs _)

  ruleset_of_same :
      (node : Node) (svcs : List Service) → ruleset_of p node m svcs ≡ ruleset_of p node n svcs
  unfolding ruleset_of
  ruleset_of_same node svcs = rw (service_blocks_same svcs, local_pods_same node.node_name svcs [])

-- Where keys tell the services and the endpoints apart, the rule set is that of every other order
-- of the two lists.
pub ruleset_of-perm :
    (p : Platform) (node : Node) {endpoints endpoints' : List Endpoints}
    {services services' : List Service}
    → Permᴰ endpoints endpoints'
    → Permᴰ services services'
    → Separates endpoints_key endpoints
    → Separates service_key services
    → ruleset_of p node (endpoint_map endpoints) (sort_services services)
      ≡ ruleset_of p node (endpoint_map endpoints') (sort_services services')
unfolding endpoint_map sort_services
ruleset_of-perm p node d e s t =
    rw (sort_by-perm service_key e t) (ruleset_of_same p _ _ (endpoint_map_from-perm [] d s) node _)
