-- ===== src/Volumes/Controller/Made.antt =====
-- controllers/volumes/controller.go: which volumes are removed and made for a pod.
use kube_pet_node.Prelude.{
  ◌+◌, List, [], ◌∷◌, ◌++◌, append_assoc, append-nil, map, flat_map, length, drop, leb, le→leb, All,
  some, Bool, true, false, Bool-cases, inl, inr, if◌then◌else◌, ◌≡◌, refl, sym, ap, ◌∙◌, arith,
  length-append,
}
use kube_pet_node.Prelude.Text.{Text, str, text_eq}
use kube_pet_node.Prelude.Result.{ok}
use kube_pet_node.Prelude.Run.{Outcome, ◌>>=◌}
use kube_pet_node.Pods.Kube.{Pod, Volume, VolumeSource}
use kube_pet_node.Volumes.Runtime.{
  VolumeCall, Answers, M, slice_from, volume_names, runtime_name, list_runtime_volumes,
  create_runtime_volume, delete_runtime_volume, add_name,
}
use kube_pet_node.Volumes.Controller.{
  delete_volumes, cleanup_volumes, make_volume, make_volumes, create_pod_volumes,
}

-- A volume whose making is no return from the loop.
abbrev pub goes_on : VolumeSource → Bool
goes_on (VolumeSource.secret source) = false
goes_on (VolumeSource.projected source) = false
goes_on _ = true

-- The one request that a volume needs: an empty directory that is not in memory.
abbrev pub request_of : Text → Text → VolumeSource → List VolumeCall
request_of pod_uid name (VolumeSource.empty_dir medium) =
    if text_eq medium (str "Memory")
    then []
    else VolumeCall.volume_create (runtime_name pod_uid name)
        ((str "poduid", pod_uid) ∷ (str "voltype", str "emptydir") ∷ [])
      ∷ []
request_of pod_uid name _ = []

abbrev pub requests : Text → List Volume → List VolumeCall
requests pod_uid = flat_map (λ (v : Volume). request_of pod_uid v.name v.source)

abbrev pub removals : Text → List Text → List VolumeCall
removals pod_uid = map (λ name. VolumeCall.volume_rm (runtime_name pod_uid name) false)

abbrev listed_trace : Pod → List Text → List VolumeCall → List VolumeCall
listed_trace pod old trace =
    (trace ++ (VolumeCall.volume_list (str "poduid=" ++ pod.uid) ∷ [])) ++ removals pod.uid old

drop-length : (s t : Text) → drop (length s) (s ++ t) ≡ t
drop-length [] t = refl
drop-length (c ∷ s) t = drop-length s t

slice_from-runtime_name :
    (pod_uid name : Text) → slice_from (length pod_uid + 1) (runtime_name pod_uid name) ≡ some name
unfolding slice_from runtime_name
slice_from-runtime_name pod_uid name =
    let whole : pod_uid ++ (b'_' ∷ name) ≡ (pod_uid ++ b'_' ∷ []) ++ name =
      sym (append_assoc pod_uid (b'_' ∷ []) name) in
    let long : length (pod_uid ++ b'_' ∷ []) ≡ length pod_uid + 1 =
      omega (arith, length-append pod_uid (b'_' ∷ [])) in
    let fits : leb (length pod_uid + 1) (length (pod_uid ++ (b'_' ∷ name))) ≡ true =
      le→leb _ _ (omega (arith, length-append pod_uid (b'_' ∷ name))) in
    rw fits (rw whole (rw (← long) (ap some (drop-length (pod_uid ++ b'_' ∷ []) name))))

volume_names-runtime_name :
    (pod_uid : Text) (names : List Text)
    → volume_names pod_uid (map (runtime_name pod_uid) names) ≡ some names
unfolding volume_names add_name
volume_names-runtime_name pod_uid [] = refl
volume_names-runtime_name pod_uid (name ∷ names) =
    rw (slice_from-runtime_name pod_uid name, volume_names-runtime_name pod_uid names)

module _ (a : Answers) where
  -- podman does every removal and creation that it is asked for.
  pub record AllowsAll : Type 0 where
    pub rm : (name : Text) → a.volume_rm name ≡ ok tt
    pub path : Text → Text
    pub create : (name : Text) → a.volume_create name ≡ ok (path name)

  delete_volumes-removals :
      (pod_uid : Text) (names : List Text) (trace : List VolumeCall)
      → AllowsAll
      → delete_volumes a pod_uid names trace
        ≡ (trace ++ removals pod_uid names, Outcome.returned tt)
  unfolding delete_volumes delete_runtime_volume ◌>>=◌
  delete_volumes-removals pod_uid [] trace h = rw append-nil
  delete_volumes-removals pod_uid (name ∷ names) trace h = rw (h.rm (runtime_name pod_uid name)) (
      delete_volumes-removals pod_uid names
        (trace ++ VolumeCall.volume_rm (runtime_name pod_uid name) false ∷ []) h
      ∙ rw append_assoc)

  make_volume-ends :
      (pod : Pod) (name : Text) (source : VolumeSource) (m k : M (Unit {0}))
      → goes_on source ≡ false
      → make_volume a pod name source m ≡ make_volume a pod name source k
  unfolding make_volume
  make_volume-ends pod name (VolumeSource.host_path path) m k e = cc
  make_volume-ends pod name (VolumeSource.empty_dir medium) m k e = cc
  make_volume-ends pod name (VolumeSource.secret source) m k e = refl
  make_volume-ends pod name (VolumeSource.projected source) m k e = refl
  make_volume-ends pod name VolumeSource.other m k e = cc

  make_volume-request :
      (pod : Pod) (name : Text) (source : VolumeSource) (rest : M (Unit {0}))
      (trace : List VolumeCall)
      → AllowsAll
      → goes_on source ≡ true
      → make_volume a pod name source rest trace ≡ rest (trace ++ request_of pod.uid name source)
  unfolding make_volume create_runtime_volume ◌>>=◌
  make_volume-request pod name (VolumeSource.host_path path) rest trace h on = rw append-nil
  make_volume-request pod name (VolumeSource.empty_dir medium) rest trace h on =
      elim (Bool-cases (text_eq medium (str "Memory"))) [
        | inl memory ↦ rw memory (rw append-nil)
        | inr disk ↦ rw disk (rw (h.create (runtime_name pod.uid name)))
      ]
  make_volume-request pod name (VolumeSource.secret source) rest trace h on = cc
  make_volume-request pod name (VolumeSource.projected source) rest trace h on = cc
  make_volume-request pod name VolumeSource.other rest trace h on = rw append-nil

  -- The volumes before one that ends the loop are made in their order.
  make_volumes-requests :
      (pod : Pod) (vs rest : List Volume) (trace : List VolumeCall)
      → AllowsAll
      → All (λ (v : Volume). goes_on v.source ≡ true) vs
      → make_volumes a pod (vs ++ rest) trace
        ≡ make_volumes a pod rest (trace ++ requests pod.uid vs)
  unfolding make_volumes
  make_volumes-requests pod [] rest trace h k = rw append-nil
  make_volumes-requests pod (v ∷ vs) rest trace h (on, k) =
      make_volume-request pod v.name v.source (make_volumes a pod (vs ++ rest)) trace h on
      ∙ make_volumes-requests pod vs rest (trace ++ request_of pod.uid v.name v.source) h k
      ∙ ap (make_volumes a pod rest)
          (append_assoc trace (request_of pod.uid v.name v.source) (requests pod.uid vs))

  -- When podman does what it is asked for and lists volumes of the pod by their full names, and no
  -- volume of the pod is a secret or projected, `CreatePodVolumes` removes each listed volume and then
  -- makes one for each empty directory that is not in memory, in the order of the specification.
  pub create_pod_volumes-requests :
      (pod : Pod) (old : List Text) (trace : List VolumeCall)
      → AllowsAll
      → a.volume_list (str "poduid=" ++ pod.uid) ≡ ok (map (runtime_name pod.uid) old)
      → All (λ (v : Volume). goes_on v.source ≡ true) pod.spec.volumes
      → create_pod_volumes a pod trace ≡ (
        ((trace ++ (VolumeCall.volume_list (str "poduid=" ++ pod.uid) ∷ []))
              ++ removals pod.uid old)
            ++ requests pod.uid pod.spec.volumes,
        Outcome.returned tt,
      )
  unfolding create_pod_volumes cleanup_volumes list_runtime_volumes make_volumes ◌>>=◌
  create_pod_volumes-requests pod old trace h listed k =
      rw (listed, volume_names-runtime_name pod.uid old)
        (rw
          (delete_volumes-removals pod.uid old
            (trace ++ (VolumeCall.volume_list (str "poduid=" ++ pod.uid) ∷ [])) h)
          (ap (λ vs. make_volumes a pod vs (listed_trace pod old trace))
              (sym (append-nil pod.spec.volumes))
            ∙ make_volumes-requests pod pod.spec.volumes [] (listed_trace pod old trace) h k))

  -- Whatever volumes a pod has behind its first secret or projected volume, if podman makes the ones
  -- before, `CreatePodVolumes` makes none of them.
  pub make_volumes-ends :
      (pod : Pod) (vs rest : List Volume) (v : Volume) (trace : List VolumeCall)
      → AllowsAll
      → All (λ (w : Volume). goes_on w.source ≡ true) vs
      → goes_on v.source ≡ false
      → make_volumes a pod (vs ++ v ∷ rest) trace ≡ make_volumes a pod (vs ++ v ∷ []) trace
  unfolding make_volumes
  make_volumes-ends pod vs rest v trace h k ends =
      make_volumes-requests pod vs (v ∷ rest) trace h k
      ∙ ap (λ (m : M (Unit {0})). m (trace ++ requests pod.uid vs))
          (make_volume-ends pod v.name v.source (make_volumes a pod rest) (make_volumes a pod [])
            ends)
      ∙ sym (make_volumes-requests pod vs (v ∷ []) trace h k)
