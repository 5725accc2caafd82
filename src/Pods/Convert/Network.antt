-- ===== src/Pods/Convert/Network.antt =====
-- controllers/pods/converter.go: `ConvertPodConfig`.
use kube_pet_node.Prelude.{List, [], ◌∷◌, ◌++◌, Option, some, Bool, true, false, if◌then◌else◌}
use kube_pet_node.Prelude.Text.{Text, str, text_eq}
use kube_pet_node.Prelude.Assoc.{Assoc}
use kube_pet_node.Pods.Kube.{Pod}
use kube_pet_node.Pods.Coord.{key}
use kube_pet_node.Pods.Storage.{coord_of}

-- The members of podman.PodNetworkConfig that are set; an address by its text.
pub record PodNetworkConfig : Type 0 where
  pub ns_mode : Text
  pub cni_networks : List Text
  pub dns_server : List Text
  pub dns_search : List Text
  pub dns_option : List Text

pub record PodSpecGenerator : Type 0 where
  pub hostname : Text
  pub labels : Assoc Text
  pub name : Text
  pub shared_namespaces : List Text
  pub network : PodNetworkConfig

unfoldable pub share_ns : Option Bool → List Text
share_ns (some true) = str "ipc" ∷ str "net" ∷ str "uts" ∷ str "pid" ∷ []
share_ns _ = str "ipc" ∷ str "net" ∷ str "uts" ∷ []

-- `HostNetwork`: the host's network, or a bridge to the CNI network.
unfoldable pub net_config : Bool → Text → PodNetworkConfig
net_config true cni_net = record {
  ns_mode = str "host";
  cni_networks = [];
  dns_server = [];
  dns_search = [];
  dns_option = [];
}
net_config false cni_net = record {
  ns_mode = str "bridge";
  cni_networks = cni_net ∷ [];
  dns_server = [];
  dns_search = [];
  dns_option = [];
}

unfoldable pub with_cluster_dns : Text → Text → PodNetworkConfig → PodNetworkConfig
with_cluster_dns namespace cluster_dns net = record net {
  dns_server = cluster_dns ∷ [];
  dns_search = (namespace ++ str ".svc.cluster.local") ∷ str "svc.cluster.local" ∷ [];
  dns_option = str "ndots:5" ∷ [];
}

-- `switch pod.Spec.DNSPolicy`
unfoldable pub dns_config : Text → Bool → Text → Text → PodNetworkConfig → PodNetworkConfig
unfolding with_cluster_dns
dns_config policy host_network namespace cluster_dns net =
    if text_eq policy (str "ClusterFirstWithHostNet")
    then with_cluster_dns namespace cluster_dns net
    else if text_eq policy (str "ClusterFirst")
    then (if host_network then net else with_cluster_dns namespace cluster_dns net)
    else net

unfoldable pub convert_pod_config : Pod → Text → Text → PodSpecGenerator
unfolding share_ns net_config dns_config
convert_pod_config pod cluster_dns cni_net = record {
  hostname = pod.name;
  labels = (str "heritage", str "kube-pet-node") ∷ [];
  name = key (coord_of pod);
  shared_namespaces = share_ns pod.spec.share_process_namespace;
  network =
      dns_config pod.spec.dns_policy pod.spec.host_network pod.namespace cluster_dns
        (net_config pod.spec.host_network cni_net);
}
