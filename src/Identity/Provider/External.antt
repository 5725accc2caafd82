-- ===== src/Identity/Provider/External.antt =====
-- controllers/nodeidentity/provider.go: the external address of the node, from the start on.
use kube_pet_node.Prelude.{
  ◌≤◌, List, [], ◌∷◌, length, Option, none, some, Bool-cases, inl, inr, ◌≡◌, sym, ap, arith,
}
use kube_pet_node.Prelude.Text.{Text}
use kube_pet_node.Prelude.Run.{Outcome, outcome_of, then_do-cases}
use kube_pet_node.Identity.System.{findos_pretty_name}
use kube_pet_node.Identity.Address.{is_external_v4, external, on_external_ips}
use kube_pet_node.Identity.Address.Updates.{externals, others, EndsWith, on_external_ips-latest}
use kube_pet_node.Identity.Provider.{
  NodeStatus, Host, first, addresses_of, node_status, new_pet_node_provider,
}

first-few : (first_external : Option Text) → length (externals (first first_external)) ≤ 1
first-few none = omega arith
first-few (some ip) = elim (Bool-cases (is_external_v4 (external ip))) [
  | inl dotted ↦ rw dotted (omega arith)
  | inr plain ↦ rw plain (omega arith)
]

addresses_of-few :
    (name : Text) (node_ip first_external : Option Text)
    → length (externals (addresses_of name node_ip first_external)) ≤ 1
unfolding addresses_of is_external_v4
addresses_of-few name none first_external = first-few first_external
addresses_of-few name (some ip) first_external = first-few first_external

provider-addresses :
    (h : Host) (status : NodeStatus)
    → new_pet_node_provider h ≡ Outcome.returned status
    → status.addresses ≡ addresses_of h.name h.node_ip h.first_external
unfolding new_pet_node_provider node_status
provider-addresses h status e =
    let (machine_id, e1) = then_do-cases (outcome_of h.machine_id) _ status e in
    let (boot_id, e2) = then_do-cases (outcome_of h.boot_id) _ status e1 in
    let (os_image, e3) = then_do-cases (findos_pretty_name h.os_release) _ status e2 in
    let same : node_status h machine_id boot_id os_image ≡ status = cc in
    ap (λ (s : NodeStatus). s.addresses) (sym same)

-- When the node's first status can be made and the node is then told addresses of the internet that all
-- have a dot, it has the last of them as its only external address with a dot, whatever it knew at the
-- start, and its other addresses are those of the start.
pub new_pet_node_provider-external :
    (h : Host) (status : NodeStatus) (last : Text) (ips : List Text)
    → new_pet_node_provider h ≡ Outcome.returned status
    → EndsWith last ips
    → (externals (on_external_ips ips status.addresses) ≡ external last ∷ [])
      × (others (on_external_ips ips status.addresses)
          ≡ others (addresses_of h.name h.node_ip h.first_external))
new_pet_node_provider-external h status last ips e ends = rw (provider-addresses h status e) (
    on_external_ips-latest last ips (addresses_of h.name h.node_ip h.first_external) ends
      (addresses_of-few h.name h.node_ip h.first_external))
