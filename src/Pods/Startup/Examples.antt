-- ===== src/Pods/Startup/Examples.antt =====
-- The theorem on `NewPodManager`, applied to a store with one pod, which podman runs, beside another
-- pod that podman runs and the store lacks.
use kube_pet_node.Prelude.{List, [], ◌∷◌, ◌≡◌, refl}
use kube_pet_node.Prelude.Text.{Text, str, text_eq}
use kube_pet_node.Prelude.Assoc.{lookup, insert, delete, keys}
use kube_pet_node.Prelude.Split.{split, cons_head, trim_suffix}
use kube_pet_node.Prelude.Result.{Result, ok}
use kube_pet_node.Pods.Coord.{PodCoord, key, parse_pod_key, file_name}
use kube_pet_node.Pods.Storage.{Answer, done, list_all_pods, list_files, coord_of_file, read_pod}
use kube_pet_node.Pods.Manager.{PodManager}
use kube_pet_node.Pods.Manager.Invariant.{IsKept}
use kube_pet_node.Pods.Samples.{web, web_coord, web_json, web_store}
use kube_pet_node.Pods.Startup.{
  ListPodsReport, found_pods_from, container_label, container_ids_from, correlate_one, correlate,
  remove_dangling, new_pod_manager,
}
use kube_pet_node.Pods.Startup.Kept.{new_pod_manager-IsKept}

abbrev running : Text → Text → ListPodsReport
running id name = record {
  id = id;
  name = name;
  labels = (str "heritage", str "kube-pet-node") ∷ [];
  containers = record { id = str "c1"; names = str "default_web_app" } ∷ [];
}

abbrev reports : List ListPodsReport
reports = running (str "p1") (str "default_web") ∷ running (str "p2") (str "default_old") ∷ []

abbrev agreed : PodCoord → Answer
agreed coord = done

abbrev pod_rm : Text → Result (Unit {0})
pod_rm id = ok tt

abbrev in_order : List (Text × ListPodsReport) → List (Text × ListPodsReport)
in_order found = found

abbrev manager : PodManager
manager = record {
  spec_storage = web_store;
  known_pods =
      (
        str "default_web",
        record {
          kube = web;
          coord = web_coord;
          pod_id = str "p1";
          container_ids = (str "app", str "c1") ∷ [];
        },
      )
      ∷ [];
}

manager_started :
    (new_pod_manager web_json agreed agreed pod_rm in_order done (ok reports) web_store).result
    ≡ ok manager
unfolding new_pod_manager list_all_pods list_files coord_of_file read_pod found_pods_from
    container_label container_ids_from correlate_one correlate remove_dangling lookup insert delete
    keys split cons_head trim_suffix key parse_pod_key file_name text_eq str
manager_started = refl

-- The pod that the store lacks is removed.
old_removed :
    (new_pod_manager web_json agreed agreed pod_rm in_order done (ok reports) web_store).removed
    ≡ str "p2" ∷ []
unfolding new_pod_manager list_all_pods list_files coord_of_file read_pod found_pods_from
    container_label container_ids_from correlate_one correlate remove_dangling lookup insert delete
    keys split cons_head trim_suffix key parse_pod_key file_name text_eq str
old_removed = refl

new_pod_manager-IsKept_example : IsKept manager
new_pod_manager-IsKept_example =
    new_pod_manager-IsKept web_json agreed agreed pod_rm in_order done (ok reports) web_store
      manager (unfold keys in (tt, tt)) manager_started
