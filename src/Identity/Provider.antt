-- ===== src/Identity/Provider.antt =====
-- controllers/nodeidentity/provider.go: the status of the node at the start, and its reports. Times are
-- left out; what the machine answers is an argument.
pub mod External
use kube_pet_node.Prelude.{ℕ, ◌*◌, List, [], ◌∷◌, ◌++◌, Option, none, some, Bool, true, false}
use kube_pet_node.Prelude.Text.{Text, str, format_uint}
use kube_pet_node.Prelude.Int.{ℤ, wrap_int64, sub_int64, pos}
use kube_pet_node.Prelude.Result.{Result, ok, err}
use kube_pet_node.Prelude.Run.{Outcome, outcome_of, then_do}
use kube_pet_node.Identity.Address.{AddressType, NodeAddress, external, on_external_ip}
use kube_pet_node.Identity.System.{findos_pretty_name, trim_lines}

-- A resource.Quantity by the call that makes it.
pub data Quantity : Type 0 where
  scaled : ℤ → ℤ → Quantity
  binary_si : ℤ → Quantity
  parsed : Text → Quantity

pub record Resources : Type 0 where
  pub cpu : Quantity
  pub memory : Quantity
  pub pods : Quantity
  pub ephemeral_storage : Quantity
  pub hugepages : Quantity

pub record NodeCondition : Type 0 where
  pub condition_type : Text
  pub status : Text
  pub reason : Text
  pub message : Text

pub record NodeInfo : Type 0 where
  pub architecture : Text
  pub boot_id : Text
  pub machine_id : Text
  pub kernel_version : Text
  pub os_image : Text
  pub container_runtime_version : Text
  pub kubelet_version : Text
  pub kube_proxy_version : Text
  pub operating_system : Text

pub record NodeStatus : Type 0 where
  pub capacity : Resources
  pub allocatable : Resources
  pub conditions : List NodeCondition
  pub node_info : NodeInfo
  pub addresses : List NodeAddress
  pub kubelet_port : ℕ

-- The arguments of `NewPetNodeProvider` and what the machine, podman and the first wait for the
-- external address give. A number of CPUs is below 2 ^ 63 / 90.
pub record Host : Type 0 where
  pub name : Text
  pub pet_version : Text
  pub arch : Text
  pub os : Text
  pub kernel_version : Text
  pub podman_version : Text
  pub max_pods : ℕ
  pub node_ip : Option Text
  pub num_cpu : ℕ
  pub total_memory : ℕ
  pub machine_id : Result Text
  pub boot_id : Result Text
  pub os_release : Result (List Text × Result (Unit {0}))
  pub first_external : Option Text

abbrev fine : Text → Text → NodeCondition
fine condition_type status = record {
  condition_type = condition_type;
  status = status;
  reason = str "OK";
  message = str "Hello World";
}

abbrev ready : Option Text → NodeCondition
ready (some ip) = record {
  condition_type = str "Ready";
  status = str "True";
  reason = str "KubeletReady";
  message = str "Hello World";
}
ready none = record {
  condition_type = str "Ready";
  status = str "False";
  reason = str "NoAddress";
  message = str "No node IP detected";
}

abbrev network : Option Text → NodeCondition
network (some ip) = fine (str "NetworkUnavailable") (str "False")
network none = record {
  condition_type = str "NetworkUnavailable";
  status = str "True";
  reason = str "NoAddress";
  message = str "No node IP detected. Auto provisioning should fix this soon.";
}

unfoldable pub conditions_of : Option Text → List NodeCondition
conditions_of node_ip =
    ready node_ip
    ∷ fine (str "MemoryPressure") (str "False")
    ∷ fine (str "DiskPressure") (str "False")
    ∷ fine (str "PIDPressure") (str "False")
    ∷ network node_ip
    ∷ []

abbrev internal : Option Text → List NodeAddress
internal none = []
internal (some ip) = record { address_type = AddressType.internal_ip; address = ip } ∷ []

abbrev first : Option Text → List NodeAddress
first none = []
first (some ip) = external ip ∷ []

unfoldable pub addresses_of : Text → Option Text → Option Text → List NodeAddress
addresses_of name node_ip first_external =
    (record { address_type = AddressType.host_name; address = name }
      ∷ record { address_type = AddressType.internal_dns; address = name ++ str ".local" }
      ∷ [])
    ++ (internal node_ip ++ first first_external)

unfoldable pub capacity_of : Host → Resources
capacity_of h = record {
  cpu = Quantity.scaled (wrap_int64 h.num_cpu) (pos 0);
  memory = Quantity.binary_si (wrap_int64 h.total_memory);
  pods = Quantity.parsed (format_uint h.max_pods);
  ephemeral_storage = Quantity.parsed (str "10Gi");
  hugepages = Quantity.parsed (str "0");
}

-- Nine tenths of the CPUs, and all of the memory but 128 MiB.
unfoldable pub allocatable_of : Host → Resources
allocatable_of h = record {
  cpu = Quantity.scaled (wrap_int64 (h.num_cpu * 90)) (ℤ.negsuc 1);
  memory = Quantity.binary_si (sub_int64 h.total_memory (pos 134217728));
  pods = Quantity.parsed (format_uint h.max_pods);
  ephemeral_storage = Quantity.parsed (str "1Gi");
  hugepages = Quantity.parsed (str "0");
}

node_status : Host → Text → Text → Text → NodeStatus
unfolding conditions_of addresses_of capacity_of allocatable_of
node_status h machine_id boot_id os_image = record {
  capacity = capacity_of h;
  allocatable = allocatable_of h;
  conditions = conditions_of h.node_ip;
  node_info = record {
    architecture = h.arch;
    boot_id = trim_lines boot_id;
    machine_id = trim_lines machine_id;
    kernel_version = h.kernel_version;
    os_image = os_image;
    container_runtime_version = str "podman://" ++ h.podman_version;
    kubelet_version = str "kube-pet/" ++ h.pet_version;
    kube_proxy_version = str "nftables-pet/" ++ h.pet_version;
    operating_system = h.os;
  };
  addresses = addresses_of h.name h.node_ip h.first_external;
  kubelet_port = 10250;
}

unfoldable pub new_pet_node_provider : Host → Outcome NodeStatus
unfolding node_status
new_pet_node_provider h = then_do (outcome_of h.machine_id) (λ machine_id.
    then_do (outcome_of h.boot_id) (λ boot_id.
      then_do (findos_pretty_name h.os_release)
        (λ os_image. Outcome.returned (node_status h machine_id boot_id os_image))))

-- The events of the loop in `NotifyNodeStatus`.
pub data StatusEvent : Type 0 where
  external_changed : Text → StatusEvent
  ticked : StatusEvent
  first_run : StatusEvent

unfoldable pub on_status_event : StatusEvent → NodeStatus → NodeStatus
on_status_event (StatusEvent.external_changed ip) status = record status {
  addresses = on_external_ip ip status.addresses;
}
on_status_event StatusEvent.ticked status = status
on_status_event StatusEvent.first_run status = status

-- The status that is reported after each event.
unfoldable pub notify_node_status : List StatusEvent → NodeStatus → List NodeStatus
unfolding on_status_event
notify_node_status [] status = []
notify_node_status (event ∷ events) status =
    let next = on_status_event event status in next ∷ notify_node_status events next
