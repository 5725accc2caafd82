-- ===== src/Pods/Examples.antt =====
-- Tests of the definitions of controllers/pods and uses of their theorems at concrete objects.
use Prim.Native.Nat.{max}
use mathlib.Core.List.{Memᴰ}
use kube_pet_node.Prelude.{
  ℕ, ◌*◌, ◌/◌, ◌≤◌, List, [], ◌∷◌, Option, none, some, ◌≡◌, ◌≢◌, ◌↔◌, refl, ap, arith, ◌==◌,
  if◌then◌else◌,
}
use kube_pet_node.Prelude.Text.{Text, str, text_eq}
use kube_pet_node.Prelude.Int.{pos}
use kube_pet_node.Prelude.Split.{contains}
use kube_pet_node.Prelude.Assoc.{lookup}
use kube_pet_node.Prelude.{true, length, ◌+◌}
use kube_pet_node.Pods.Kube.{Pod, VolumeMount, VolumeSource, PodSpec}
use kube_pet_node.Pods.Convert.Mounts.{find_volume, attach_all}
use kube_pet_node.Pods.Convert.Mounts.Count.{all_direct, all_by_name, attach_all-outcome}
use kube_pet_node.Prelude.Result.{Result, ok, err}
use kube_pet_node.Pods.Coord.{PodCoord, parse_pod_key, key, file_name}
use kube_pet_node.Pods.Coord.Keys.{IsValid, parse_pod_key_iff}
use kube_pet_node.Pods.Storage.{
  PodSpecStorage, done, wrote, coord_of, list_all_pods, read_pod, store_pod, remove_pod,
}
use kube_pet_node.Pods.Storage.Laws.{read-store, list_all_pods_iff}
use kube_pet_node.Pods.Convert.Cpu.{
  milli_cpu_to_shares, milli_cpu_to_quota, cpu_period, milli_cpu_to_shares_exact,
  milli_cpu_to_quota_exact,
}
use kube_pet_node.Pods.Convert.Oom.{burstable_score, burstable_score_bounds}
use kube_pet_node.Pods.Samples.{
  web, app, web_coord, other_coord, other_coord-IsValid, coord_of-web-IsValid, web_json, web_store,
}
use kube_pet_node.Pods.ImagePull.{
  ImagePullReport, PullEnd, pull_end, pull_image, request_error, process_pull_stream,
  is_unauthorized, end_of,
}
use kube_pet_node.Pods.ImagePull.Swallow.{pull_image-refused}
use kube_pet_node.Pods.Convert.Network.{convert_pod_config}
use kube_pet_node.Pods.Convert.Spec.{SpecGenerator, convert_container_config}
use kube_pet_node.Pods.Convert.Spec.Names.{convert_pod_config-name}
use kube_pet_node.Pods.Manager.{PodManager, register_pod, set_pod_id}
use kube_pet_node.Pods.Manager.Invariant.{IsKept, Step, Steps, Steps-IsKept}

parse_pod_key_iff_example :
    (parse_pod_key (str "default_web") ≡ some web_coord)
    ↔ (IsValid web_coord × (key web_coord ≡ str "default_web"))
parse_pod_key_iff_example = parse_pod_key_iff (str "default_web") web_coord

coord_of-web-other : coord_of web ≢ other_coord
unfolding coord_of str
coord_of-web-other e = let named = ap (λ (c : PodCoord). c.name) e in cc

read-store_example :
    let stored : PodSpecStorage = (store_pod web_json done wrote web web_store).0 in
    let removed : PodSpecStorage = (remove_pod done (coord_of web) web_store).0 in
    (read_pod web_json done (coord_of web) stored ≡ ok web)
    × (read_pod web_json done other_coord stored ≡ read_pod web_json done other_coord web_store)
    × (read_pod web_json done (coord_of web) removed ≡ err (str "no such file or directory"))
    × (read_pod web_json done other_coord removed ≡ read_pod web_json done other_coord web_store)
read-store_example =
    read-store web_json web web_store (str "web") other_coord refl coord_of-web-IsValid
      other_coord-IsValid coord_of-web-other

list_all_pods_iff_example :
    (list : List PodCoord) × (list_all_pods done web_store ≡ ok list)
    × (Memᴰ web_coord list
        ↔ (IsValid web_coord × (lookup (file_name web_coord) web_store.files ≢ none)))
list_all_pods_iff_example = list_all_pods_iff web_store web_coord

milli_cpu_to_shares_exact_example :
    (milli_cpu_to_shares 250 ≡ max 2 (250 * 1024 / 1000))
    × (milli_cpu_to_shares 250 ≤ milli_cpu_to_shares 500)
milli_cpu_to_shares_exact_example = milli_cpu_to_shares_exact 250 500 (omega arith) (omega arith)

milli_cpu_to_quota_exact_example :
    milli_cpu_to_quota 250 cpu_period ≡ (if 250 == 0 then 0 else max 1000 (250 * 100))
milli_cpu_to_quota_exact_example = milli_cpu_to_quota_exact 250 (omega arith)

burstable_score_bounds_example :
    (high low : ℕ) × (burstable_score 100 4000 ≡ some (pos high))
    × (burstable_score 2000 4000 ≡ some (pos low))
    × (2 ≤ low)
    × (low ≤ high)
    × (high ≤ 999)
burstable_score_bounds_example =
    burstable_score_bounds 100 2000 4000 (omega arith) (omega arith) (omega arith)

pull_refused :
    pull_end (ok (record { stream = []; error = str "unauthorized"; images = [] } ∷ []))
    ≡ PullEnd.refused (str "unauthorized")
unfolding pull_end end_of process_pull_stream is_unauthorized contains text_eq str
pull_refused = refl

abbrev no_pull : Text → Option Text → Result (List ImagePullReport)
no_pull image auth = ok (record { stream = []; error = str "unauthorized"; images = [] } ∷ [])

pull_image-refused_example :
    pull_image {Auths = Text} ok ok no_pull (str "nginx") []
    ≡ (request_error (no_pull (str "nginx") none), [])
pull_image-refused_example =
    pull_image-refused {Auths = Text} ok ok no_pull (str "nginx") (str "unauthorized") []
      pull_refused tt

abbrev web_spec : Option SpecGenerator
web_spec = convert_container_config 4000000 web app (str "p1")

no_pods : (pss : PodSpecStorage) → IsKept (record { spec_storage = pss; known_pods = [] })
unfolding lookup
no_pods pss = record { at = λ k r e. cc }

abbrev empty_manager : PodManager
empty_manager = record { spec_storage = record { files = [] }; known_pods = [] }

abbrev with_web : PodManager
with_web = (register_pod web_json done wrote web empty_manager).0

Steps-IsKept_example : IsKept (set_pod_id web_coord (str "p1") with_web)
Steps-IsKept_example =
    Steps-IsKept web_json empty_manager (set_pod_id web_coord (str "p1") with_web)
      (Steps.more (Step.register done wrote web empty_manager)
        (Steps.more (Step.set_id web_coord (str "p1") with_web) (Steps.stop _)))
      (no_pods empty_manager.spec_storage)

convert_pod_config-name_example :
    parse_pod_key (convert_pod_config web (str "10.6.0.10") (str "kube-pet")).name
    ≡ some (coord_of web)
convert_pod_config-name_example =
    convert_pod_config-name web (str "10.6.0.10") (str "kube-pet") coord_of-web-IsValid

abbrev data_mount : VolumeMount
data_mount = record { name = str "data"; mount_path = str "/data"; sub_path = []; read_only = true }

abbrev data_spec : PodSpec
data_spec = record web.spec {
  volumes = record { name = str "data"; source = VolumeSource.host_path (str "/srv") } ∷ [];
}

abbrev data_pod : Pod
data_pod = record web { spec = data_spec }

data_found : find_volume (str "data") data_spec.volumes ≢ none
unfolding find_volume text_eq str
data_found e = cc

attach_all-outcome_example :
    (attach_all data_pod (data_mount ∷ []) ≡ record {
      mounts = all_direct data_pod (data_mount ∷ []);
      volumes = all_by_name data_pod (data_mount ∷ []);
    })
    × (length (all_direct data_pod (data_mount ∷ []))
          + length (all_by_name data_pod (data_mount ∷ []))
        ≡ 1)
attach_all-outcome_example = attach_all-outcome data_pod (data_mount ∷ []) (data_found, tt)
