-- ===== src/Pods/Startup.antt =====
-- controllers/pods/manager.go: `NewPodManager`, which brings the stored specs and the pods of podman
-- together. What the system and podman answer are arguments; so is the order in which Go ranges over
-- the map of the pods that are left.
pub mod Kept
mod Examples
use kube_pet_node.Prelude.{List, [], ◌∷◌, Option, none, some, Bool, false, if◌then◌else◌}
use kube_pet_node.Prelude.Text.{Text, str, text_eq}
use kube_pet_node.Prelude.Assoc.{Assoc, lookup, insert, delete}
use kube_pet_node.Prelude.Split.{split}
use kube_pet_node.Pods.Kube.{Pod}
use kube_pet_node.Prelude.Result.{Result, ok, err}
use kube_pet_node.Pods.Coord.{PodCoord, key, parse_pod_key}
use kube_pet_node.Pods.Storage.{Json, PodSpecStorage, Answer, list_all_pods, read_pod, remove_pod}
use kube_pet_node.Pods.Manager.{RunningPod, PodManager}

-- The members of podman.ListPodsContainer and podman.ListPodsReport that are read.
pub record ListPodsContainer : Type 0 where
  pub id : Text
  pub names : Text

pub record ListPodsReport : Type 0 where
  pub id : Text
  pub name : Text
  pub labels : Assoc Text
  pub containers : List ListPodsContainer

abbrev is_ours : Option Text → Bool
is_ours none = false
is_ours (some heritage) = text_eq heritage (str "kube-pet-node")

add_found : Option PodCoord → ListPodsReport → Assoc ListPodsReport → Assoc ListPodsReport
add_found none pod found = found
add_found (some coord) pod found = insert (key coord) pod found

-- `foundPodMap`. The coordinates that are its keys in the code stand here as the key that they were
-- parsed from, which tells them apart.
unfoldable pub found_pods_from : Assoc ListPodsReport → List ListPodsReport → Assoc ListPodsReport
unfolding add_found
found_pods_from found [] = found
found_pods_from found (pod ∷ pods) =
    found_pods_from
      (if is_ours (lookup (str "heritage") pod.labels)
        then add_found (parse_pod_key pod.name) pod found
        else found)
      pods

-- The third part of a container's name, if it has that many.
unfoldable pub container_label : List Text → Text
container_label (namespace ∷ pod ∷ container ∷ rest) = container
container_label _ = str "_infra"

unfoldable pub container_ids_from : Assoc Text → List ListPodsContainer → Assoc Text
unfolding container_label
container_ids_from ids [] = ids
container_ids_from ids (c ∷ cs) =
    container_ids_from (insert (container_label (split b'_' c.names)) c.id ids) cs

-- The variables of the loop over the stored pods.
pub record Correlation : Type 0 where
  pub storage : PodSpecStorage
  pub found : Assoc ListPodsReport
  pub known : Assoc RunningPod

module _ (json : Json) (reads removes : PodCoord → Answer) where
  correlate_read : PodCoord → ListPodsReport → Correlation → Result Pod → Correlation × Option Text
  unfolding container_ids_from
  correlate_read coord found_pod c (err e) =
      (record c { found = delete (key coord) c.found }, some e)
  correlate_read coord found_pod c (ok pod) = (
    record c {
      found = delete (key coord) c.found;
      known =
          insert found_pod.name
            (record {
              kube = pod;
              coord = coord;
              pod_id = found_pod.id;
              container_ids = container_ids_from [] found_pod.containers;
            })
            c.known;
    },
    none,
  )

  correlate_removed : Correlation → PodSpecStorage × Result (Unit {0}) → Correlation × Option Text
  correlate_removed c (pss, err e) = (record c { storage = pss }, some e)
  correlate_removed c (pss, ok _) = (record c { storage = pss }, none)

  -- One round: a stored pod that podman has becomes known, and another one is removed from the store.
  unfoldable pub correlate_one :
      PodCoord → Option ListPodsReport → Correlation → Correlation × Option Text
  unfolding correlate_read correlate_removed
  correlate_one coord none c = correlate_removed c (remove_pod (removes coord) coord c.storage)
  correlate_one coord (some found_pod) c =
      correlate_read coord found_pod c (read_pod json (reads coord) coord c.storage)

  -- The loop ends at the first error.
  unless_failed :
      (Correlation → Correlation × Option Text)
      → Correlation × Option Text
      → Correlation × Option Text
  unless_failed rest (c, some e) = (c, some e)
  unless_failed rest (c, none) = rest c

  unfoldable pub correlate : List PodCoord → Correlation → Correlation × Option Text
  unfolding correlate_one unless_failed
  correlate [] c = (c, none)
  correlate (coord ∷ coords) c =
      unless_failed (correlate coords) (correlate_one coord (lookup (key coord) c.found) c)

  -- The pods that `PodRm` is called for, and the error that ends the loop.
  unfoldable pub remove_dangling :
      (Text → Result (Unit {0})) → List (Text × ListPodsReport) → List Text × Option Text
  remove_dangling pod_rm [] = ([], none)
  remove_dangling pod_rm ((coord, pod) ∷ pods) =
      let (ids, e) = remove_dangling pod_rm pods in
      elim (pod_rm pod.id) [ err failure ↦ (pod.id ∷ [], some failure) | ok _ ↦ (pod.id ∷ ids, e) ]

  -- What `NewPodManager` leaves: the store, the ids of the pods it removed, and its result.
  pub record Started : Type 0 where
    pub storage : PodSpecStorage
    pub removed : List Text
    pub result : Result PodManager

  finish : Correlation → List Text × Option Text → Started
  finish c (ids, some e) = record { storage = c.storage; removed = ids; result = err e }
  finish c (ids, none) = record {
    storage = c.storage;
    removed = ids;
    result = ok (record { spec_storage = c.storage; known_pods = c.known });
  }

  module _ (pod_rm : Text → Result (Unit {0}))
      (order : List (Text × ListPodsReport) → List (Text × ListPodsReport)) where
    after_correlation : Correlation × Option Text → Started
    unfolding remove_dangling finish
    after_correlation (c, some e) = record { storage = c.storage; removed = []; result = err e }
    after_correlation (c, none) = finish c (remove_dangling pod_rm (order c.found))

    start_with : PodSpecStorage → Result (List PodCoord) → Result (List ListPodsReport) → Started
    unfolding correlate after_correlation found_pods_from
    start_with pss (err e) found = record { storage = pss; removed = []; result = err e }
    start_with pss (ok stored) (err e) = record { storage = pss; removed = []; result = err e }
    start_with pss (ok stored) (ok found) =
        after_correlation (
          correlate stored (record { storage = pss; found = found_pods_from [] found; known = [] }))

    unfoldable pub new_pod_manager :
        Answer → Result (List ListPodsReport) → PodSpecStorage → Started
    unfolding start_with
    new_pod_manager listed found pss = start_with pss (list_all_pods listed pss) found
