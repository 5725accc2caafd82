-- ===== src/Pods/Provider/Create.antt =====
-- controllers/pods/provider.go: `CreatePod` and the calls that only read. Times are left out.
pub mod Keeps
use kube_pet_node.Prelude.{
  ℕ, List, [], ◌∷◌, ◌++◌, map, Option, none, some, Bool, true, false, if◌then◌else◌,
}
use kube_pet_node.Prelude.Text.{Text, str, text_eq}
use kube_pet_node.Prelude.Assoc.{Assoc, lookup, insert}
use kube_pet_node.Prelude.Split.{split}
use kube_pet_node.Pods.Kube.{Pod, PodStatus, Condition, Container, ContainerStatus, ContainerState}
use kube_pet_node.Prelude.Result.{Result, ok, err}
use kube_pet_node.Pods.Coord.{PodCoord}
use kube_pet_node.Pods.Manager.{RunningPod, PodManager, set_pod_id, set_container_ids}
use kube_pet_node.Pods.ImagePull.{grab_pull_secrets}
use kube_pet_node.Pods.Convert.Network.{convert_pod_config}
use kube_pet_node.Prelude.Run.{Outcome, ◌>>=◌, ◌>>◌, give, answer}
use kube_pet_node.Pods.Provider.Node.{
  Node, Answers, ContainerInspect, PodmanCall, M, call, the_pod, on_manager, alter_pod, change_pod,
  notify, register, register_anyway, is_static,
}
use kube_pet_node.Pods.Provider.Containers.{create_containers}

abbrev condition : Text → Bool → Condition
condition name holds = record {
  condition_type = name;
  status = if holds then str "True" else str "False";
}

unfoldable pub creating_status : PodStatus
creating_status = record {
  phase = str "ContainerCreating";
  qos_class = [];
  conditions =
      condition (str "PodScheduled") true
      ∷ condition (str "Initialized") false
      ∷ condition (str "Ready") false
      ∷ [];
  container_statuses = [];
  pod_ip = [];
}

abbrev on_status : (PodStatus → PodStatus) → M (Unit {0})
on_status f = change_pod (λ pod. record pod { status = f pod.status })

-- The loop that makes a condition true.
unfoldable pub set_condition : Text → PodStatus → PodStatus
set_condition name status = record status {
  conditions =
      map
        (λ (c : Condition).
          if text_eq c.condition_type name then record c { status = str "True" } else c)
        status.conditions;
}

abbrev id_of : Option Text → Text
id_of none = []
id_of (some id) = id

unfoldable pub waiting_status : Assoc Text → Container → ContainerStatus
waiting_status ids container = record {
  name = container.name;
  image = container.image;
  ready = false;
  restart_count = 0;
  container_id = str "podman://" ++ id_of (lookup container.name ids);
  image_id = [];
  state = ContainerState.waiting (str "Initializing");
}

unfoldable pub add_statuses : Assoc Text → List Container → PodStatus → PodStatus
unfolding waiting_status
add_statuses ids containers status = record status {
  container_statuses = status.container_statuses ++ map (waiting_status ids) containers;
}

abbrev first_part : List Text → Text
first_part [] = []
first_part (part ∷ parts) = part

unfoldable pub started_status : Option ContainerInspect → ContainerStatus → ContainerStatus
started_status none cs = cs
started_status (some insp) cs = record cs {
  ready = true;
  restart_count = insp.restart_count;
  image_id = first_part (split b':' insp.image_name) ++ (str "@shasum:" ++ insp.image);
  state = ContainerState.running;
}

unfoldable pub start_statuses : Assoc ContainerInspect → PodStatus → PodStatus
unfolding started_status
start_statuses inspects status = record status {
  container_statuses =
      map (λ (cs : ContainerStatus). started_status (lookup cs.name inspects) cs)
        status.container_statuses;
}

set_ip : Option Text → PodStatus → PodStatus
set_ip none status = status
set_ip (some ip) status = record status { pod_ip = ip }

-- What the inspection of one container says of the pod.
unfoldable pub note_ip : Text → Bool → Text → ContainerInspect → PodStatus → PodStatus
unfolding set_ip
note_ip cni_net host_network name insp status =
    if text_eq name (str "_infra")
    then (if host_network then status else set_ip (lookup cni_net insp.networks) status)
    else status

-- `GetPod`: an unknown pod is a nil pointer, and no error.
unfoldable pub get_pod : Text → Text → PodManager → Option Pod
get_pod namespace name pm = elim (lookup (namespace ++ (b'_' ∷ name)) pm.known_pods) [
  | none ↦ none
  | some known ↦ some known.kube
]

-- `GetPods`, in the order of the map.
unfoldable pub get_pods : Assoc RunningPod → List Pod
get_pods [] = []
get_pods ((k, known) ∷ rest) = known.kube ∷ get_pods rest

module _ {Auths : Type 0} (unmarshal : Text → Result Auths) (marshal : Auths → Result Text)
    (a : Answers) where
  -- The loop over the containers' ids; one that cannot be inspected is passed over.
  unfoldable inspect_one :
      Text → Result ContainerInspect → Assoc ContainerInspect → M (Assoc ContainerInspect)
  inspect_one name (err e) inspects = give inspects
  inspect_one name (ok insp) inspects = do
    pod ← the_pod
    on_status (note_ip a.cni_net pod.spec.host_network name insp)
    give (insert name insp inspects)

  unfoldable pub inspect_containers :
      Assoc Text → Assoc ContainerInspect → M (Assoc ContainerInspect)
  unfolding inspect_one
  inspect_containers [] inspects = give inspects
  inspect_containers ((name, id) ∷ ids) inspects = do
    next ← inspect_one name (a.container_inspect id) inspects
    inspect_containers ids next

  -- Up to the containers: the coordinates, the pod's id and that of its infra container.
  unfoldable pub prepare_pod : M (PodCoord × Text × Text)
  unfolding creating_status
  prepare_pod = do
    alter_pod (λ pod. record pod { status = creating_status })
    notify
    coord ← register a 0
    pod ← the_pod
    answer (a.create_pod_volumes pod)
    let generator = convert_pod_config pod (str "10.6.0.10") a.cni_net
    call (PodmanCall.pod_create generator)
    pod_id ← answer (a.pod_create generator)
    on_manager (set_pod_id coord pod_id)
    infra ← answer (a.pod_inspect pod_id)
    give (coord, pod_id, infra)

  -- Make the containers, and say that they will start.
  unfoldable pub fill_pod : PodCoord → Text → Text → M (Assoc Text)
  unfolding add_statuses set_condition
  fill_pod coord pod_id infra = do
    pod ← the_pod
    secrets ← answer (grab_pull_secrets (a.get_secret pod.namespace) pod.spec.image_pull_secrets)
    ids ←
        create_containers unmarshal marshal a secrets pod_id ((str "_infra", infra) ∷ [])
          pod.spec.containers
    on_manager (set_container_ids coord ids)
    on_status (set_condition (str "Initialized"))
    on_status (add_statuses ids pod.spec.containers)
    notify
    register_anyway a 1
    give ids

  unfoldable pub start_pod : Text → Assoc Text → M (Unit {0})
  unfolding inspect_containers start_statuses set_condition
  start_pod pod_id ids = do
    call (PodmanCall.pod_start pod_id)
    answer (a.pod_start pod_id)
    on_status (λ status. record status { phase = str "Running" })
    notify
    register_anyway a 2
    inspects ← inspect_containers ids []
    on_status (set_condition (str "Ready"))
    on_status (start_statuses inspects)
    notify
    register_anyway a 3

  unfoldable create_steps : M (Unit {0})
  unfolding prepare_pod fill_pod start_pod
  create_steps = do
    (coord, pod_id, infra) ← prepare_pod
    ids ← fill_pod coord pod_id infra
    start_pod pod_id ids

  unfoldable pub create_pod : M (Unit {0})
  unfolding create_steps
  create_pod n = (if is_static n.pod then give tt else create_steps) n
