-- ===== src/Volumes/Runtime.antt =====
-- controllers/volumes/podman.go: a pod's volumes in podman, whose names begin with the pod's uid. A
-- call runs on the trace of the requests; what they are answered are the fields of `Answers`.
use kube_pet_node.Prelude.{
  ℕ, ◌+◌, List, [], ◌∷◌, ◌++◌, Option, none, some, Bool, length, drop, leb, if◌then◌else◌,
}
use kube_pet_node.Prelude.Text.{Text, str}
use kube_pet_node.Prelude.Assoc.{Assoc}
use kube_pet_node.Prelude.Result.{Result}
use kube_pet_node.Prelude.Run.{Run, Outcome, ◌>>=◌, ◌>>◌, answer, unless_nil}
use kube_pet_node.Pods.Kube.{ServiceAccountToken}
use kube_pet_node.Volumes.Archive.{Entry, TarAnswers}

-- The members of corev1.Secret that are read.
pub record SecretData : Type 0 where
  pub resource_version : Text
  pub entries : Assoc Text

pub data VolumeCall : Type 0 where
  volume_list : Text → VolumeCall
  volume_create : Text → Assoc Text → VolumeCall
  volume_rm : Text → Bool → VolumeCall
  extracted : Text → List Entry → VolumeCall

pub record Answers : Type 0 where
  pub volume_list : Text → Result (List Text)
  pub volume_create : Text → Result Text
  pub volume_rm : Text → Result (Unit {0})
  pub get_secret : Text → Text → Result SecretData
  pub create_token : Text → Text → ServiceAccountToken → Result Text
  pub tar : TarAnswers
  pub now_unix : ℕ
  -- the orders in which Go ranges over a map, once for the files and once for the links
  pub file_order : Assoc Text → Assoc Text
  pub link_order : Assoc Text → Assoc Text

abbrev pub M : Type 0 → Type 0
M = Run (List VolumeCall)

abbrev pub call : VolumeCall → M (Unit {0})
call c trace = (trace ++ (c ∷ []), Outcome.returned tt)

-- `s[n:]`, which panics beyond the end.
unfoldable pub slice_from : ℕ → Text → Option Text
slice_from n s = if leb n (length s) then some (drop n s) else none

unfoldable pub add_name : Option Text → Option (List Text) → Option (List Text)
add_name none names = none
add_name (some name) none = none
add_name (some name) (some names) = some (name ∷ names)

unfoldable pub volume_names : Text → List Text → Option (List Text)
unfolding slice_from add_name
volume_names pod_uid [] = some []
volume_names pod_uid (name ∷ names) =
    add_name (slice_from (length pod_uid + 1) name) (volume_names pod_uid names)

unfoldable pub runtime_name : Text → Text → Text
runtime_name pod_uid vol_name = pod_uid ++ (b'_' ∷ vol_name)

module _ (a : Answers) where
  unfoldable pub list_runtime_volumes : Text → M (List Text)
  unfolding volume_names
  list_runtime_volumes pod_uid = do
    call (VolumeCall.volume_list (str "poduid=" ++ pod_uid))
    existing ← answer (a.volume_list (str "poduid=" ++ pod_uid))
    unless_nil (volume_names pod_uid existing)

  unfoldable pub create_runtime_volume : Text → Text → Text → M Text
  create_runtime_volume pod_uid vol_type vol_name = do
    call (
        VolumeCall.volume_create (runtime_name pod_uid vol_name)
          ((str "poduid", pod_uid) ∷ (str "voltype", vol_type) ∷ []))
    answer (a.volume_create (runtime_name pod_uid vol_name))

  unfoldable pub delete_runtime_volume : Text → Text → Bool → M (Unit {0})
  delete_runtime_volume pod_uid vol_name force = do
    call (VolumeCall.volume_rm (runtime_name pod_uid vol_name) force)
    answer (a.volume_rm (runtime_name pod_uid vol_name))
