-- ===== src/Volumes/Controller.antt =====
-- controllers/volumes/controller.go
pub mod Made
pub mod Mounted
use kube_pet_node.Prelude.{List, [], ◌∷◌, Bool, false, if◌then◌else◌}
use kube_pet_node.Prelude.Text.{Text, str, text_eq}
use kube_pet_node.Prelude.Run.{◌>>=◌, ◌>>◌, give}
use kube_pet_node.Pods.Kube.{Pod, Volume, VolumeSource}
use kube_pet_node.Volumes.Runtime.{
  Answers, M, list_runtime_volumes, create_runtime_volume, delete_runtime_volume,
}
use kube_pet_node.Volumes.Secret.{create_secret_volume}
use kube_pet_node.Volumes.Projected.{create_projected_volume}

module _ (a : Answers) where
  unfoldable pub delete_volumes : Text → List Text → M (Unit {0})
  delete_volumes pod_uid [] = give tt
  delete_volumes pod_uid (name ∷ names) = do
    delete_runtime_volume a pod_uid name false
    delete_volumes pod_uid names

  unfoldable pub cleanup_volumes : Text → M (Unit {0})
  unfolding delete_volumes
  cleanup_volumes pod_uid = do
    existing ← list_runtime_volumes a pod_uid
    delete_volumes pod_uid existing

  -- One round of the loop over the volumes, then the rest of it. A secret or projected volume is
  -- returned, and ends the loop.
  unfoldable pub make_volume : Pod → Text → VolumeSource → M (Unit {0}) → M (Unit {0})
  make_volume pod name (VolumeSource.host_path path) rest = rest
  make_volume pod name (VolumeSource.empty_dir medium) rest =
      if text_eq medium (str "Memory")
      then rest
      else (do create_runtime_volume a pod.uid (str "emptydir") name; rest)
  make_volume pod name (VolumeSource.secret source) rest =
      create_secret_volume a pod.namespace pod.uid name source
  make_volume pod name (VolumeSource.projected source) rest =
      create_projected_volume a pod name source
  make_volume pod name VolumeSource.other rest = rest

  unfoldable pub make_volumes : Pod → List Volume → M (Unit {0})
  unfolding make_volume
  make_volumes pod [] = give tt
  make_volumes pod (volume ∷ volumes) =
      make_volume pod volume.name volume.source (make_volumes pod volumes)

  unfoldable pub create_pod_volumes : Pod → M (Unit {0})
  unfolding cleanup_volumes make_volumes
  create_pod_volumes pod = do cleanup_volumes pod.uid; make_volumes pod pod.spec.volumes
