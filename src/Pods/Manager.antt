-- ===== src/Pods/Manager.antt =====
-- controllers/pods/manager.go: the pods that the manager knows, beside their stored specs.
pub mod Invariant
use kube_pet_node.Prelude.{List, [], ◌∷◌, ◌++◌, Option, none, some, Bool, if◌then◌else◌}
use kube_pet_node.Prelude.Text.{Text, str, text_eq}
use kube_pet_node.Prelude.Assoc.{Assoc, lookup, insert, delete}
use kube_pet_node.Pods.Kube.{Pod}
use kube_pet_node.Prelude.Result.{Result, ok, err}
use kube_pet_node.Pods.Coord.{PodCoord, key}
use kube_pet_node.Pods.Storage.{
  Json, PodSpecStorage, Answer, WriteAnswer, store_pod, remove_pod, coord_of,
}

pub record RunningPod : Type 0 where
  pub kube : Pod
  pub coord : PodCoord
  pub pod_id : Text
  pub container_ids : Assoc Text

pub record PodManager : Type 0 where
  pub spec_storage : PodSpecStorage
  pub known_pods : Assoc RunningPod

abbrev pub put_known : PodCoord → RunningPod → PodManager → PodManager
put_known coord known pm = record pm { known_pods = insert (key coord) known pm.known_pods }

set_known_id : PodCoord → Text → Option RunningPod → PodManager → PodManager
set_known_id coord pod_id none pm = pm
set_known_id coord pod_id (some known) pm =
    put_known coord (record known { coord = coord; pod_id = pod_id }) pm

unfoldable pub set_pod_id : PodCoord → Text → PodManager → PodManager
unfolding set_known_id
set_pod_id coord pod_id pm = set_known_id coord pod_id (lookup (key coord) pm.known_pods) pm

set_known_containers : PodCoord → Assoc Text → Option RunningPod → PodManager → PodManager
set_known_containers coord ids none pm = pm
set_known_containers coord ids (some known) pm =
    put_known coord (record known { coord = coord; container_ids = ids }) pm

unfoldable pub set_container_ids : PodCoord → Assoc Text → PodManager → PodManager
unfolding set_known_containers
set_container_ids coord ids pm =
    set_known_containers coord ids (lookup (key coord) pm.known_pods) pm

-- A pod that is known keeps its id and its containers.
unfoldable pub registered : Pod → PodCoord → Option RunningPod → RunningPod
registered pod coord none = record { kube = pod; coord = coord; pod_id = []; container_ids = [] }
registered pod coord (some known) = record known { kube = pod; coord = coord }

register_stored : Pod → PodManager → PodSpecStorage × Result PodCoord → PodManager × Result PodCoord
unfolding registered
register_stored pod pm (pss, err e) = (record pm { spec_storage = pss }, err e)
register_stored pod pm (pss, ok coord) = (
  record {
    spec_storage = pss;
    known_pods =
        insert (key coord) (registered pod coord (lookup (key coord) pm.known_pods)) pm.known_pods;
  },
  ok coord,
)

unfoldable pub register_pod :
    Json → Answer → WriteAnswer → Pod → PodManager → PodManager × Result PodCoord
unfolding register_stored
register_pod json opened written pod pm =
    register_stored pod pm (store_pod json opened written pod pm.spec_storage)

-- The pod is forgotten first, and its spec is removed afterwards, also if that fails.
unfoldable pub unregister_pod : Answer → PodCoord → PodManager → PodManager × Result (Unit {0})
unregister_pod removed coord pm =
    let (pss, result) = remove_pod removed coord pm.spec_storage in
    (record { spec_storage = pss; known_pods = delete (key coord) pm.known_pods }, result)
