-- ===== src/Identity/Examples.antt =====
-- The theorem on the node's addresses, applied to a node that is told two addresses of the internet.
use kube_pet_node.Prelude.{List, [], ◌∷◌, ◌++◌, none, some, ◌≡◌, refl}
use kube_pet_node.Prelude.Text.{Text, str}
use kube_pet_node.Prelude.Split.{starts_with, contains}
use kube_pet_node.Prelude.Result.{Result, ok}
use kube_pet_node.Prelude.Run.{Outcome}
use kube_pet_node.Identity.System.{findos_pretty_name, scan_pretty_name, pretty_name_of, trim_lines}
use kube_pet_node.Identity.Address.{external, on_external_ips}
use kube_pet_node.Identity.Address.Updates.{externals, others, EndsWith}
use kube_pet_node.Identity.Provider.{
  NodeStatus, Host, addresses_of, capacity_of, allocatable_of, conditions_of, new_pet_node_provider,
}
use kube_pet_node.Identity.Provider.External.{new_pet_node_provider-external}
use kube_pet_node.Identity.Node.{Existing, set_all, new_node_identity}

abbrev release : Text → Result (List Text × Result (Unit {0}))
release line = ok (str "ID=pet" ∷ line ∷ [], ok tt)

abbrev host : Host
host = record {
  name = str "pet-lab";
  pet_version = str "0.2.0";
  arch = str "amd64";
  os = str "linux";
  kernel_version = str "5.8";
  podman_version = str "2.1";
  max_pods = 50;
  node_ip = some (str "10.6.0.2");
  num_cpu = 4;
  total_memory = 8589934592;
  machine_id = ok (str "m1");
  boot_id = ok (str "b1");
  os_release = release (str "PRETTY_NAME='Pet'");
  first_external = some (str "192.0.2.1");
}

abbrev status : NodeStatus
status = record {
  capacity = capacity_of host;
  allocatable = allocatable_of host;
  conditions = conditions_of host.node_ip;
  node_info = record {
    architecture = str "amd64";
    boot_id = trim_lines (str "b1");
    machine_id = trim_lines (str "m1");
    kernel_version = str "5.8";
    os_image = str "Pet";
    container_runtime_version = str "podman://" ++ str "2.1";
    kubelet_version = str "kube-pet/" ++ str "0.2.0";
    kube_proxy_version = str "nftables-pet/" ++ str "0.2.0";
    operating_system = str "linux";
  };
  addresses = addresses_of (str "pet-lab") host.node_ip host.first_external;
  kubelet_port = 10250;
}

status_made : new_pet_node_provider host ≡ Outcome.returned status
unfolding new_pet_node_provider findos_pretty_name scan_pretty_name pretty_name_of starts_with str
status_made = refl

abbrev told : List Text
told = str "192.0.2.7" ∷ str "192.0.2.9" ∷ []

told-EndsWith : EndsWith (str "192.0.2.9") told
unfolding contains starts_with str
told-EndsWith = (refl, (refl, refl))

new_pet_node_provider-external_example :
    (externals (on_external_ips told status.addresses) ≡ external (str "192.0.2.9") ∷ [])
    × (others (on_external_ips told status.addresses)
        ≡ others (addresses_of (str "pet-lab") (some (str "10.6.0.2")) (some (str "192.0.2.1"))))
new_pet_node_provider-external_example =
    new_pet_node_provider-external host status (str "192.0.2.9") told status_made told-EndsWith

-- A name that is not quoted and empty makes the slice's bounds cross.
bare_name : findos_pretty_name (release (str "PRETTY_NAME=")) ≡ Outcome.panicked
unfolding findos_pretty_name scan_pretty_name pretty_name_of starts_with str
bare_name = refl

-- A node that the cluster has without labels makes the writing of the first label panic.
nil_labels :
    new_node_identity
      (str "pet-lab")
      (str "amd64")
      (str "linux")
      []
      host
      (Existing.found (record { name = str "pet-lab"; labels = none; annotations = some [] }))
    ≡ Outcome.panicked
unfolding new_node_identity set_all
nil_labels = refl
