-- ===== src/Volumes/Controller/Mounted.antt =====
-- controllers/volumes and controllers/pods/converter.go: the volumes that are made are those that the
-- containers of the pod mount.
use mathlib.Core.List.{Memᴰ}
use mathlib.Core.List.Memᴰ
use kube_pet_node.Prelude.{
  List, [], ◌∷◌, ◌++◌, All, map, ◌⊎◌, Option, none, some, true, false, Bool-cases, inl, inr, ◌≡◌,
  refl, ap, subst, some-injective,
}
use kube_pet_node.Prelude.Text.{Text, str, text_eq, text_eq_iff}
use kube_pet_node.Prelude.Result.{ok}
use kube_pet_node.Pods.Kube.{Pod, Volume, VolumeSource, VolumeMount}
use kube_pet_node.Pods.Convert.Mounts.{
  NamedVolume, Attached, find_volume, attach_source, attach_from, attach_all, named_volume,
}
use kube_pet_node.Volumes.Runtime.{VolumeCall, Answers, runtime_name}
use kube_pet_node.Volumes.Controller.{create_pod_volumes}
use kube_pet_node.Volumes.Controller.Made.{
  goes_on, request_of, requests, AllowsAll, create_pod_volumes-requests,
}

-- A volume of a kind that the node makes itself.
abbrev pub IsLocal : VolumeSource → Type 0
IsLocal (VolumeSource.host_path path) = Unit
IsLocal (VolumeSource.empty_dir medium) = Unit
IsLocal _ = ⊥

-- The trace has a request to make the volume.
abbrev pub IsRequested : Text → List VolumeCall → Type 0
IsRequested name calls = (labels : _) × Memᴰ (VolumeCall.volume_create name labels) calls

-- A mount whose volume is an empty directory that is not in memory.
record OnDisk (pod : Pod) (m : VolumeMount) (nv : NamedVolume) : Type 0 where
  medium : Text
  found : find_volume m.name pod.spec.volumes ≡ some (VolumeSource.empty_dir medium)
  disk : text_eq medium (str "Memory") ≡ false
  same : nv ≡ named_volume pod m

attach_source-cases :
    (pod : Pod) (m : VolumeMount) (source : VolumeSource) (a : Attached) (nv : NamedVolume)
    → find_volume m.name pod.spec.volumes ≡ some source
    → IsLocal source
    → Memᴰ nv (attach_source pod m (some source) a).volumes
    → Memᴰ nv a.volumes ⊎ OnDisk pod m nv
unfolding attach_source
attach_source-cases pod m (VolumeSource.host_path path) a nv e local k = inl k
attach_source-cases pod m (VolumeSource.empty_dir medium) a nv e local k =
    elim (Bool-cases (text_eq medium (str "Memory"))) [
      | inl memory ↦ let old : Memᴰ nv a.volumes = rw memory at k in inl old
      | inr disk ↦
          let both : Memᴰ nv (a.volumes ++ named_volume pod m ∷ []) = rw disk at k in
          elim (Memᴰ.append_cases a.volumes both) [
            | inl old ↦ inl old
            | inr new ↦ inr (record {
              medium = medium;
              found = e;
              disk = disk;
              same = Memᴰ.eq_of_singleton new;
            })
          ]
    ]
attach_source-cases pod m (VolumeSource.secret source) a nv e local k = elim local [ ]
attach_source-cases pod m (VolumeSource.projected source) a nv e local k = elim local [ ]
attach_source-cases pod m VolumeSource.other a nv e local k = elim local [ ]

find_volume-IsLocal :
    (name : Text) (vs : List Volume) (source : VolumeSource)
    → All (λ (v : Volume). IsLocal v.source) vs
    → find_volume name vs ≡ some source
    → IsLocal source
unfolding find_volume
find_volume-IsLocal name [] source h e = cc
find_volume-IsLocal name (v ∷ vs) source (local, h) e = elim (Bool-cases (text_eq v.name name)) [
  | inl here ↦
      let one : some v.source ≡ some source = rw here at e in
      subst IsLocal (some-injective one) local
  | inr there ↦ find_volume-IsLocal name vs source h (rw there at e)
]

found-cases :
    (pod : Pod) (m : VolumeMount) (o : Option VolumeSource) (a : Attached) (nv : NamedVolume)
    → All (λ (v : Volume). IsLocal v.source) pod.spec.volumes
    → find_volume m.name pod.spec.volumes ≡ o
    → Memᴰ nv (attach_source pod m o a).volumes
    → Memᴰ nv a.volumes ⊎ OnDisk pod m nv
unfolding attach_source
found-cases pod m none a nv h e k = inl k
found-cases pod m (some source) a nv h e k =
    attach_source-cases pod m source a nv e (find_volume-IsLocal m.name pod.spec.volumes source h e)
      k

attach_from-cases :
    (pod : Pod) (a : Attached) (ms : List VolumeMount) (nv : NamedVolume)
    → All (λ (v : Volume). IsLocal v.source) pod.spec.volumes
    → Memᴰ nv (attach_from pod a ms).volumes
    → Memᴰ nv a.volumes ⊎ ((m : VolumeMount) × OnDisk pod m nv)
unfolding attach_from
attach_from-cases pod a [] nv h k = inl k
attach_from-cases pod a (m ∷ ms) nv h k =
    let source : Option VolumeSource = find_volume m.name pod.spec.volumes in
    elim (attach_from-cases pod (attach_source pod m source a) ms nv h k) [
      | inl one ↦ elim (found-cases pod m source a nv h refl one) [
        | inl old ↦ inl old
        | inr new ↦ inr (m, new)
      ]
      | inr later ↦ inr later
    ]

find_volume-IsRequested :
    (pod_uid name medium : Text) (vs : List Volume)
    → text_eq medium (str "Memory") ≡ false
    → find_volume name vs ≡ some (VolumeSource.empty_dir medium)
    → IsRequested (runtime_name pod_uid name) (requests pod_uid vs)
unfolding find_volume
find_volume-IsRequested pod_uid name medium [] disk e = cc
find_volume-IsRequested pod_uid name medium (v ∷ vs) disk e =
    elim (Bool-cases (text_eq v.name name)) [
      | inl here ↦
          let one : v.source ≡ VolumeSource.empty_dir medium = some-injective (rw here at e) in
          let own : v.name ≡ name = (text_eq_iff v.name name).0 here in
          (
            (str "poduid", pod_uid) ∷ (str "voltype", str "emptydir") ∷ [],
            Memᴰ.append_left {s = request_of pod_uid v.name v.source} _
                (rw (one, own, disk) (Memᴰ.head refl)),
          )
      | inr there ↦
          let (labels, m) = find_volume-IsRequested pod_uid name medium vs disk (rw there at e) in
          (labels, Memᴰ.append_right _ m)
    ]

IsLocal-goes_on : (source : VolumeSource) → IsLocal source → goes_on source ≡ true
IsLocal-goes_on (VolumeSource.host_path path) h = refl
IsLocal-goes_on (VolumeSource.empty_dir medium) h = refl
IsLocal-goes_on (VolumeSource.secret source) h = elim h [ ]
IsLocal-goes_on (VolumeSource.projected source) h = elim h [ ]
IsLocal-goes_on VolumeSource.other h = elim h [ ]

IsLocal-goes_on-All :
    (vs : List Volume)
    → All (λ (v : Volume). IsLocal v.source) vs
    → All (λ (v : Volume). goes_on v.source ≡ true) vs
IsLocal-goes_on-All [] h = tt
IsLocal-goes_on-All (v ∷ vs) (local, h) = (IsLocal-goes_on v.source local, IsLocal-goes_on-All vs h)

-- When a pod's volumes are host paths and empty directories, and podman does what it is asked for and
-- lists volumes of the pod by their full names, every named volume that a container of the pod mounts
-- is one that `CreatePodVolumes` has podman create.
pub attach_all-IsRequested :
    (a : Answers) (pod : Pod) (ms : List VolumeMount) (nv : NamedVolume) (old : List Text)
    (trace : List VolumeCall)
    → AllowsAll a
    → a.volume_list (str "poduid=" ++ pod.uid) ≡ ok (map (runtime_name pod.uid) old)
    → All (λ (v : Volume). IsLocal v.source) pod.spec.volumes
    → Memᴰ nv (attach_all pod ms).volumes
    → IsRequested nv.name (create_pod_volumes a pod trace).0
unfolding attach_all named_volume runtime_name
attach_all-IsRequested a pod ms nv old trace h listed local k =
    elim (attach_from-cases pod (record { mounts = []; volumes = [] }) ms nv local k) [
      | inl none' ↦ elim none' [ ]
      | inr (m, d) ↦
          let (labels, asked) =
            find_volume-IsRequested pod.uid m.name d.medium pod.spec.volumes d.disk d.found in
          rw (ap (λ (v : NamedVolume). v.name) d.same) (
            rw
              (create_pod_volumes-requests a pod old trace h listed
                (IsLocal-goes_on-All pod.spec.volumes local))
              (labels, Memᴰ.append_right _ asked))
    ]
