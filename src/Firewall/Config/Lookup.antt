-- ===== src/Firewall/Config/Lookup.antt =====
-- controllers/firewall/firewall-rules.go: the keys of services and endpoints, and what `BuildConfig`
-- looks up of a service before it writes rules.
use kube_pet_node.Prelude.{
  ℕ, ◌%◌, List, [], ◌∷◌, ◌++◌, Option, none, some, Bool, ◌||◌, if◌then◌else◌, map, flat_map,
}
use kube_pet_node.Prelude.Text.{Text, str, text_eq, format_uint}
use kube_pet_node.Prelude.Assoc.{Assoc, insert}
use kube_pet_node.Prelude.Order.{sort_by}
use kube_pet_node.Firewall.Cluster.{ServicePort, Service, Address, SubsetPort, Subset, Endpoints}

-- namespace/name
unfoldable pub object_key : Text → Text → Text
object_key namespace name = namespace ++ (b'/' ∷ name)

unfoldable pub service_key : Service → Text
unfolding object_key
service_key svc = object_key svc.namespace svc.name

unfoldable pub endpoints_key : Endpoints → Text
unfolding object_key
endpoints_key ep = object_key ep.namespace ep.name

-- `sort.Sort(byNamespaceAndName(services))`
unfoldable pub sort_services : List Service → List Service
sort_services = sort_by service_key

-- Of two endpoints with one key the later one stays.
unfoldable pub endpoint_map_from : Assoc Endpoints → List Endpoints → Assoc Endpoints
endpoint_map_from m [] = m
endpoint_map_from m (ep ∷ eps) = endpoint_map_from (insert (endpoints_key ep) ep m) eps

unfoldable pub endpoint_map : List Endpoints → Assoc Endpoints
unfolding endpoint_map_from
endpoint_map = endpoint_map_from []

unfoldable pub is_external : Service → Bool
is_external svc = text_eq svc.service_type (str "ExternalName")

unfoldable pub is_headless : Service → Bool
is_headless svc = text_eq svc.cluster_ip [] || text_eq svc.cluster_ip (str "None")

unfoldable pub subset_ips : Subset → List Text
subset_ips subset = map (λ (a : Address). a.ip) subset.addresses

unfoldable pub healthy_addrs : List Subset → List Text
unfolding subset_ips
healthy_addrs = flat_map subset_ips

-- The last port of the subset that has the name, if any, as a uint16.
find_port : Text → Option ℕ → List SubsetPort → Option ℕ
find_port name found [] = found
find_port name found (p ∷ ps) =
    find_port name (if text_eq p.name name then some (p.port % 65536) else found) ps

subset_targets : Text → Subset → List (Text × ℕ)
unfolding find_port subset_ips
subset_targets name subset = elim (find_port name none subset.ports) [
  | none ↦ []
  | some port ↦ map (λ ip. (ip, port)) (subset_ips subset)
]

-- `tgtAddrs` and `tgtPorts`, side by side.
unfoldable pub targets : Text → List Subset → List (Text × ℕ)
unfolding subset_targets
targets name = flat_map (subset_targets name)

unfoldable pub port_name : ServicePort → Text
port_name port = if text_eq port.name [] then format_uint port.port else port.name

-- `podIpsServingClusterIps`: the addresses of the subset that are on this node.
note_addresses : Text → Text → List Address → Assoc Text → Assoc Text
note_addresses node key [] pods = pods
note_addresses node key (a ∷ as') pods = note_addresses node key as' (elim a.node_name [
  | none ↦ pods
  | some n ↦ if text_eq n node then insert a.ip key pods else pods
])

unfoldable pub note_local_pods : Text → Text → List Subset → Assoc Text → Assoc Text
unfolding note_addresses
note_local_pods node key [] pods = pods
note_local_pods node key (s ∷ ss) pods =
    note_local_pods node key ss (note_addresses node key s.addresses pods)
